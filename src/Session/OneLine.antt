-- ===== src/Session/OneLine.antt =====
-- A text on one line, read in one pass, against the words that blemees_agent/session.py joins.
use Prim.Native.Char.{Char, code}
use mathlib.Core.List.{append-nil}
use blemees_daemon.Prelude.{
  ◌≡◌, refl, sym, ap, ◌∙◌, inl, inr, true, false, List, [], ◌∷◌, ◌++◌, Bool-cases, if◌then◌else◌,
}
use blemees_daemon.Session.Title.{Text, is_space, pieces, non_empty, split, join, push, cut, space}

-- What was read before a character: no letter yet, a letter just before it, or white space since the
-- last letter.
pub data Place : Type 0 where
  start inside between : Place

unfoldable pub after_blank : Place → Place
after_blank start = start
after_blank _ = between

-- A letter goes out as it is, behind one plain space where white space stood between it and the
-- letter before.
abbrev put_letter : Place → Char → Text → Text
put_letter between c out = space ∷ c ∷ out
put_letter _ c out = c ∷ out

-- The text on one line.
unfoldable pub one_line_from : Place → Text → Text
unfolding after_blank
one_line_from p [] = []
one_line_from p (c ∷ s) =
    let skipped = one_line_from (after_blank p) s in
    let rest = one_line_from inside s in if is_space (code c) then skipped else put_letter p c rest

unfoldable pub one_line : Text → Text
unfolding one_line_from
one_line s = one_line_from start s

-- The words behind a letter, and behind the white space after it.
abbrev led : List Text → Text
led [] = []
led (w ∷ ws) = space ∷ join (w ∷ ws)

abbrev glued : List Text → Text
glued [] = []
glued (w ∷ ws) = w ++ led (non_empty ws)

join-cons : (w : Text) (ws : List Text) → join (w ∷ ws) ≡ w ++ led ws
unfolding join
join-cons w [] = sym (append-nil w)
join-cons w (v ∷ ws) = refl

non_empty-cut : (ws : List Text) → non_empty (cut ws) ≡ non_empty ws
unfolding non_empty
non_empty-cut [] = refl
non_empty-cut ([] ∷ ws) = refl
non_empty-cut ((c ∷ w) ∷ ws) = refl

glued-cut : (ws : List Text) → glued (cut ws) ≡ led (non_empty ws)
unfolding non_empty
glued-cut [] = refl
glued-cut ([] ∷ ws) = refl
glued-cut ((c ∷ w) ∷ ws) = refl

glued-push : (c : Char) (ws : List Text) → glued (push c ws) ≡ c ∷ glued ws
unfolding non_empty join
glued-push c [] = refl
glued-push c (w ∷ ws) = refl

join-push : (c : Char) (ws : List Text) → join (non_empty (push c ws)) ≡ c ∷ glued ws
unfolding non_empty join
join-push c [] = refl
join-push c (w ∷ ws) = join-cons (c ∷ w) (non_empty ws)

led-push : (c : Char) (ws : List Text) → led (non_empty (push c ws)) ≡ space ∷ c ∷ glued ws
unfolding non_empty join
led-push c [] = refl
led-push c (w ∷ ws) = ap (λ s. space ∷ s) (join-cons (c ∷ w) (non_empty ws))

-- What the words of the text come to, by the place that it is read from.
abbrev worded : Place → Text → Text
worded start s = join (non_empty (pieces s))
worded inside s = glued (pieces s)
worded between s = led (non_empty (pieces s))

one_line-worded : (p : Place) (s : Text) → one_line_from p s ≡ worded p s
unfolding one_line_from pieces after_blank non_empty join
one_line-worded start [] = refl
one_line-worded inside [] = refl
one_line-worded between [] = refl
one_line-worded p (c ∷ s) = elim (Bool-cases (is_space (code c))) [
  | inl e ↦ blank (λ q. one_line-worded q s) p e
  | inr e ↦ letter (λ q. one_line-worded q s) p e
]
  where
    blank :
        ((q : Place) → one_line_from q s ≡ worded q s)
        → (q : Place) → is_space (code c) ≡ true
        → one_line_from q (c ∷ s) ≡ worded q (c ∷ s)
    blank h start e = rw (e, pieces) (h start ∙ ap join (sym (non_empty-cut (pieces s))))
    blank h inside e = rw (e, pieces) (h between ∙ sym (glued-cut (pieces s)))
    blank h between e = rw (e, pieces) (h between ∙ ap led (sym (non_empty-cut (pieces s))))

    letter :
        ((q : Place) → one_line_from q s ≡ worded q s)
        → (q : Place) → is_space (code c) ≡ false
        → one_line_from q (c ∷ s) ≡ worded q (c ∷ s)
    letter h start e = rw (e, pieces) (ap (λ t. c ∷ t) (h inside) ∙ sym (join-push c (pieces s)))
    letter h inside e = rw (e, pieces) (ap (λ t. c ∷ t) (h inside) ∙ sym (glued-push c (pieces s)))
    letter h between e =
        rw (e, pieces) (ap (λ t. space ∷ c ∷ t) (h inside) ∙ sym (led-push c (pieces s)))

pub split-one_line : (s : Text) → join (split s) ≡ one_line s
unfolding one_line split
split-one_line s = sym (one_line-worded start s)
