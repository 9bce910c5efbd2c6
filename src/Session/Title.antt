-- ===== src/Session/Title.antt =====
-- The title that blemees_agent/session.py derives from the first user message, over characters.
use Prim.Native.Char.{Char, code}
use blemees_daemon.Prelude.{
  ℕ, ◌-◌, leb, ltb, ◌==◌, ◌&&◌, ◌||◌, Bool, Option, none, some, List, [], ◌∷◌, ◌++◌, String, str_eq,
  length, take, if◌then◌else◌,
}
use blemees_daemon.Json.{Value, Fields, Items, str, arr, obj, nil, cons, get, get_str}

-- A text of these characters.
abbrev pub of_chars : List Char → String
of_chars [] = String.[]
of_chars (c ∷ cs) = String.◌∷◌ c (of_chars cs)

-- A text as its characters.
abbrev pub Text : Type 0
Text = List Char

abbrev pub chars : String → Text
chars String.[] = []
chars (String.◌∷◌ c s) = c ∷ chars s

-- The text as a value of a frame.
abbrev pub text_value : Text → Value
text_value t = str (of_chars t)

abbrev pub space : Char
space = " "

abbrev pub ellipsis : Char
ellipsis = "…"

-- The codes of the characters that Python's `str.split()` and `str.rstrip()` take for white space.
unfoldable pub is_space : ℕ → Bool
is_space c =
    leb 9 c && leb c 13
    || leb 28 c && leb c 32
    || c == 0x85
    || c == 0xa0
    || c == 0x1680
    || leb 0x2000 c && leb c 0x200a
    || c == 0x2028
    || c == 0x2029
    || c == 0x202f
    || c == 0x205f
    || c == 0x3000

-- Puts a character before the first word, or begins one.
abbrev pub push : Char → List Text → List Text
push c [] = (c ∷ []) ∷ []
push c (w ∷ ws) = (c ∷ w) ∷ ws

abbrev pub cut : List Text → List Text
cut [] = []
cut ([] ∷ ws) = [] ∷ ws
cut ((c ∷ w) ∷ ws) = [] ∷ (c ∷ w) ∷ ws

-- The words, behind an empty one where the text begins with white space.
unfoldable pub pieces : Text → List Text
pieces [] = []
pieces (c ∷ s) = let rest = pieces s in if is_space (code c) then cut rest else push c rest

unfoldable pub non_empty : List Text → List Text
non_empty [] = []
non_empty ([] ∷ ws) = non_empty ws
non_empty ((c ∷ w) ∷ ws) = (c ∷ w) ∷ non_empty ws

-- text.split()
unfoldable pub split : Text → List Text
unfolding pieces non_empty
split s = non_empty (pieces s)

-- " ".join(ws)
unfoldable pub join : List Text → Text
join [] = []
join (w ∷ []) = w
join (w ∷ v ∷ ws) = w ++ space ∷ join (v ∷ ws)

-- s.rstrip()
unfoldable pub rstrip : Text → Text
rstrip [] = []
rstrip (c ∷ s) = elim (rstrip s) [
  | [] ↦ if is_space (code c) then [] else c ∷ []
  | d ∷ t ↦ c ∷ d ∷ t
]

-- _TITLE_MAX_CHARS
abbrev pub title_max_chars : ℕ
title_max_chars = 80

unfoldable pub cap_title : Text → Text
unfolding rstrip
cap_title s =
    if ltb title_max_chars (length s)
    then rstrip (take (title_max_chars - 1) s) ++ ellipsis ∷ []
    else s

chars_of : Option String → Option Text
chars_of none = none
chars_of (some s) = some (chars s)

-- The text of a block of type "text".
block_text : Value → Option Text
unfolding chars_of
block_text (obj d) = elim (get_str "type" d) [
  | none ↦ none
  | some t ↦ if str_eq t "text" then chars_of (get_str "text" d) else none
]
block_text _ = none

unfoldable pub text_parts : Items → List Text
unfolding block_text
text_parts nil = []
text_parts (cons v vs) =
    let rest = text_parts vs in elim (block_text v) [ none ↦ rest | some t ↦ t ∷ rest ]

-- The text of a message's content; none and the empty text are treated alike.
unfoldable pub content_text : Option Value → Text
unfolding text_parts join
content_text (some (str s)) = chars s
content_text (some (arr vs)) = join (text_parts vs)
content_text _ = []

unfoldable pub title_of_words : Text → Option Text
unfolding cap_title
title_of_words [] = none
title_of_words (c ∷ s) = some (cap_title (c ∷ s))

-- record_user_message: the title after one more user message.
unfoldable pub record_title : Option Text → Fields → Option Text
unfolding content_text split title_of_words
record_title (some t) message = some t
record_title none message = title_of_words (join (split (content_text (get "content" message))))
