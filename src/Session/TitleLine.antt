-- ===== src/Session/TitleLine.antt =====
-- The derived title of blemees_agent/session.py against a reading of the message in one pass.
use Prim.Native.Char.{code}
use blemees_daemon.Prelude.{
  ◌≤◌, ◌<◌, ◌≡◌, refl, sym, subst, ap, ◌∙◌, ◌⊎◌, inl, inr, Bool, true, false, none, some, [], ◌∷◌,
  ◌++◌, arith, length, take, All, ltb, ltb→lt, not-ltb→le, Bool-cases, if◌then◌else◌,
}
use blemees_daemon.Json.{Fields, get}
use blemees_daemon.Session.Title.{
  Text, is_space, rstrip, cap_title, content_text, record_title, title_max_chars, ellipsis,
  title_of_words,
}
use blemees_daemon.Session.TitleBounds.{IsTitle, record_title-IsTitle}
use blemees_daemon.Session.OneLine.{one_line, one_line_from, after_blank, split-one_line}

-- All of a text is white space.
abbrev pub IsBlank : Text → Type 0
IsBlank = All (λ c. is_space (code c) ≡ true)

empty-IsBlank : (s : Text) → one_line s ≡ [] → IsBlank s
unfolding one_line one_line_from after_blank
empty-IsBlank [] e = tt
empty-IsBlank (c ∷ s) e = elim (Bool-cases (is_space (code c))) [
  | inl blank ↦ (blank, empty-IsBlank s (ground (arith, e, blank)))
  | inr letter ↦ ground (arith, e, letter)
]

-- The last character is white space.
abbrev pub ends_blank : Text → Bool
ends_blank [] = false
ends_blank (c ∷ []) = is_space (code c)
ends_blank (c ∷ d ∷ s) = ends_blank (d ∷ s)

-- The title of a line: the line, or where that is too long its first 79 characters without the white
-- space at their end, and an ellipsis.
pub record IsCut (line t : Text) : Type 0 where
  pub long : title_max_chars < length line
  pub head : Text
  pub blank : Text
  pub whole : head ++ blank ≡ take 79 line
  pub trimmed : ends_blank head ≡ false
  pub white : IsBlank blank
  pub title : t ≡ head ++ ellipsis ∷ []

abbrev pub Shows : Text → Text → Type 0
Shows line t = ((length line ≤ title_max_chars) × (t ≡ line)) ⊎ IsCut line t

record IsTrimmed (s head : Text) : Type 0 where
  blank : Text
  whole : head ++ blank ≡ s
  trimmed : ends_blank head ≡ false
  white : IsBlank blank

rstrip-IsTrimmed : (s : Text) → IsTrimmed s (rstrip s)
unfolding rstrip
rstrip-IsTrimmed [] = record { blank = []; whole = refl; trimmed = refl; white = tt }
rstrip-IsTrimmed (c ∷ s) = go (rstrip s) (rstrip-IsTrimmed s)
  where
    last :
        (blank : Text)
        → blank ≡ s
        → IsBlank blank
        → (b : Bool) → is_space (code c) ≡ b
        → IsTrimmed (c ∷ s) (if b then [] else c ∷ [])
    last blank e h true w = record {
      blank = c ∷ blank;
      whole = ap (λ t. c ∷ t) e;
      trimmed = refl;
      white = (w, h);
    }
    last blank e h false w = record {
      blank = blank;
      whole = ap (λ t. c ∷ t) e;
      trimmed = w;
      white = h;
    }

    go :
        (r : Text)
        → IsTrimmed s r
        → IsTrimmed (c ∷ s) (elim r as (λ _. Text) [
          | [] ↦ if is_space (code c) then [] else c ∷ []
          | d ∷ t ↦ c ∷ d ∷ t
        ])
    go [] h = last h.blank h.whole h.white (is_space (code c)) refl
    go (d ∷ t) h = record {
      blank = h.blank;
      whole = ap (λ t'. c ∷ t') h.whole;
      trimmed = h.trimmed;
      white = h.white;
    }

cap_title-Shows : (line : Text) → Shows line (cap_title line)
unfolding cap_title
cap_title-Shows line = elim (Bool-cases (ltb title_max_chars (length line))) [
  | inl e ↦
      let h = rstrip-IsTrimmed (take 79 line) in
      rw (e, cap_title)
        (inr (record {
          long = ltb→lt title_max_chars (length line) e;
          head = rstrip (take 79 line);
          blank = h.blank;
          whole = h.whole;
          trimmed = h.trimmed;
          white = h.white;
          title = refl;
        }))
  | inr e ↦ rw (e, cap_title) (inl (not-ltb→le title_max_chars (length line) e, refl))
]

-- What the first message comes to.
pub record Titles (message : Fields) (t : Text) : Type 0 where
  pub set : record_title none message ≡ some t
  pub bounded : IsTitle t
  pub shown : Shows (one_line (content_text (get "content" message))) t
  pub kept : (later : Fields) → record_title (some t) later ≡ some t

titled :
    (message : Fields) (line : Text)
    → one_line (content_text (get "content" message)) ≡ line
    → (IsBlank (content_text (get "content" message)) × (record_title none message ≡ none))
      ⊎ ((t : Text) × Titles message t)
unfolding record_title title_of_words
titled message [] e = inl (
  empty-IsBlank (content_text (get "content" message)) e,
  ap title_of_words (split-one_line (content_text (get "content" message)) ∙ e),
)
titled message (c ∷ s) e =
    let set : record_title none message ≡ some (cap_title (c ∷ s)) =
      ap title_of_words (split-one_line (content_text (get "content" message)) ∙ e) in
    let h = record_title-IsTitle message (cap_title (c ∷ s)) set in
    inr (
      cap_title (c ∷ s),
      record {
        set = set;
        bounded = h.0;
        shown = subst (λ l. Shows l (cap_title (c ∷ s))) (sym e) (cap_title-Shows (c ∷ s));
        kept = h.1;
      },
    )

-- A first message whose text is white space sets no title. Any other sets one, which later messages
-- keep: its text on one line, words apart by one space each, as a reading in one pass gives it; or,
-- where that is longer than 80 characters, its first 79 without white space at the end and an ellipsis.
-- The title is not empty and has at most 80 characters, and its only white space is plain spaces.
pub record_title-Titles :
    (message : Fields)
    → (IsBlank (content_text (get "content" message)) × (record_title none message ≡ none))
      ⊎ ((t : Text) × Titles message t)
record_title-Titles message = titled message (one_line (content_text (get "content" message))) refl
