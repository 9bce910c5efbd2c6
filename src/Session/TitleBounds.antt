-- ===== src/Session/TitleBounds.antt =====
-- The derived title: one line of at most 80 characters, set once.
use Prim.Native.Char.{Char, code}
use blemees_daemon.Prelude.{
  ℕ, suc, ◌≤◌, ◌<◌, ◌≡◌, refl, ◌⊎◌, inl, inr, Bool, true, false, none, some, List, [], ◌∷◌, arith,
  length, length-append, take, All, All-append, zero, ltb, not-ltb→le, Bool-cases, subst,
  if◌then◌else◌,
}
use blemees_daemon.Json.{Fields, get}
use blemees_daemon.Session.Title.{
  Text, is_space, pieces, non_empty, split, join, rstrip, cap_title, content_text, record_title,
  title_max_chars, ellipsis, push, cut, title_of_words, space,
}

-- A character that white space is not, but for the plain space.
abbrev pub IsPrintable : Char → Type 0
IsPrintable c = (is_space (code c) ≡ false) ⊎ (c ≡ space)

abbrev IsWord : Text → Type 0
IsWord = All (λ c. is_space (code c) ≡ false)

push-IsWord :
    (c : Char) (ws : List Text) → is_space (code c) ≡ false → All IsWord ws → All IsWord (push c ws)
push-IsWord c [] h q = ((h, tt), tt)
push-IsWord c (w ∷ ws) h q = ((h, q.0), q.1)

cut-IsWord : (ws : List Text) → All IsWord ws → All IsWord (cut ws)
cut-IsWord [] q = tt
cut-IsWord ([] ∷ ws) q = (tt, q.1)
cut-IsWord ((c ∷ w) ∷ ws) q = (tt, q)

pieces-IsWord : (s : Text) → All IsWord (pieces s)
unfolding pieces
pieces-IsWord [] = tt
pieces-IsWord (c ∷ s) = elim (Bool-cases (is_space (code c))) [
  | inl e ↦ rw (e, pieces) (cut-IsWord (pieces s) (pieces-IsWord s))
  | inr e ↦ rw (e, pieces) (push-IsWord c (pieces s) e (pieces-IsWord s))
]

non_empty-IsWord : (ws : List Text) → All IsWord ws → All IsWord (non_empty ws)
unfolding non_empty
non_empty-IsWord [] q = tt
non_empty-IsWord ([] ∷ ws) q = non_empty-IsWord ws q.1
non_empty-IsWord ((c ∷ w) ∷ ws) q = (q.0, non_empty-IsWord ws q.1)

word-IsPrintable : (w : Text) → IsWord w → All IsPrintable w
word-IsPrintable [] q = tt
word-IsPrintable (c ∷ w) q = (inl q.0, word-IsPrintable w q.1)

join-IsPrintable : (ws : List Text) → All IsWord ws → All IsPrintable (join ws)
unfolding join
join-IsPrintable [] q = tt
join-IsPrintable (w ∷ []) q = word-IsPrintable w q.0
join-IsPrintable (w ∷ v ∷ ws) q =
    All-append IsPrintable w (space ∷ join (v ∷ ws)) (word-IsPrintable w q.0)
      (inr refl, join-IsPrintable (v ∷ ws) q.1)

rstrip-All {κ} : (P : Char → Type κ) (s : Text) → All P s → All P (rstrip s)
unfolding rstrip
rstrip-All P [] q = tt
rstrip-All P (c ∷ s) q = rstrip_cons (rstrip s) (rstrip-All P s q.1)
  where
    one : (b : Bool) → All P (if b then [] else c ∷ [])
    one true = tt
    one false = (q.0, tt)

    rstrip_cons :
        (r : Text)
        → All P r
        → All P (elim r as (λ _. Text) [
          | [] ↦ if is_space (code c) then [] else c ∷ []
          | d ∷ t ↦ c ∷ d ∷ t
        ])
    rstrip_cons [] h = one (is_space (code c))
    rstrip_cons (d ∷ t) h = (q.0, h)

length-rstrip : (s : Text) → length (rstrip s) ≤ length s
unfolding rstrip
length-rstrip [] = omega arith
length-rstrip (c ∷ s) = ground (arith, length-rstrip s)

take-All {κ} : (P : Char → Type κ) (n : ℕ) (s : Text) → All P s → All P (take n s)
take-All P zero s q = tt
take-All P (suc n) [] q = tt
take-All P (suc n) (c ∷ s) q = (q.0, take-All P n s q.1)

length-take-le : (n : ℕ) (s : Text) → length {A = Char} (take n s) ≤ n
length-take-le zero s = omega arith
length-take-le (suc n) [] = omega arith
length-take-le (suc n) (c ∷ s) = omega (arith, length-take-le n s)

-- A title is neither empty nor longer than the cap, and is one line.
pub record IsTitle (t : Text) : Type 0 where
  pub some_text : 0 < length t
  pub capped : length t ≤ title_max_chars
  pub one_line : All IsPrintable t

cap_title-IsTitle : (c : Char) (s : Text) → All IsPrintable (c ∷ s) → IsTitle (cap_title (c ∷ s))
unfolding cap_title is_space
cap_title-IsTitle c s q = elim (Bool-cases (ltb title_max_chars (length (c ∷ s)))) [
  | inl long ↦
      let kept = rstrip (take 79 (c ∷ s)) in
      rw (long, cap_title)
        (record {
          some_text = omega (arith, length-append kept (ellipsis ∷ []));
          capped = omega (
            arith,
            length-append kept (ellipsis ∷ []),
            length-rstrip (take 79 (c ∷ s)),
            length-take-le 79 (c ∷ s),
          );
          one_line =
              All-append IsPrintable kept (ellipsis ∷ [])
                (rstrip-All IsPrintable (take {A = Char} 79 (c ∷ s))
                  (take-All IsPrintable 79 (c ∷ s) q))
                (inl refl, tt);
        })
  | inr short ↦
      rw (short, cap_title)
        (record {
          some_text = omega arith;
          capped = not-ltb→le title_max_chars (length (c ∷ s)) short;
          one_line = q;
        })
]

title_of_words-IsTitle : (s t : Text) → All IsPrintable s → title_of_words s ≡ some t → IsTitle t
unfolding title_of_words
title_of_words-IsTitle [] t q e = cc
title_of_words-IsTitle (c ∷ s) t q e =
    let same : cap_title (c ∷ s) ≡ t = cc in subst IsTitle same (cap_title-IsTitle c s q)

-- The first message with text sets the title: not empty, at most 80 characters, and one line, its
-- only white space plain spaces. Later messages do not change it.
pub record_title-IsTitle :
    (message : Fields) (t : Text)
    → record_title none message ≡ some t
    → IsTitle t × ((later : Fields) → record_title (some t) later ≡ some t)
unfolding record_title split
record_title-IsTitle message t e =
    let text = content_text (get "content" message) in
    (
      title_of_words-IsTitle (join (split text)) t
          (join-IsPrintable (split text) (non_empty-IsWord (pieces text) (pieces-IsWord text))) e,
      λ later. refl,
    )
