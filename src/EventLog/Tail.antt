-- ===== src/EventLog/Tail.antt =====
-- blemees_agent/event_log.py, DurableEventLog: what a daemon that starts again reads from its log.
use blemees_daemon.Prelude.{
  ℕ, zero, suc, ◌+◌, ◌-◌, ◌*◌, ◌≤◌, ◌<◌, min, ◌==◌, ◌≡◌, refl, sym, ap, ◌∙◌, false, some, List, [],
  ◌∷◌, ◌++◌, map, arith, length, drop, take_right, All, ltb, length-drop,
}
use mathlib.Core.List.{append-nil, append_assoc}
use blemees_daemon.Json.{obj}
use blemees_daemon.EventLog.{
  Frame, Codec, newline, cons_head, split_lines, strip, append_line, decode_line, decode_lines,
  tail, read_limit, from_end, drop_partial,
}
use blemees_daemon.EventLog.Ring.{drop-drop, drop-nil}

-- What a frame's line needs of the codec: it is not empty and has no newline, is not changed by
-- `strip`, and is read back.
pub record IsLine (c : Codec) (f : Frame) : Type 0 where
  pub head : ℕ
  pub rest : List ℕ
  pub text : c.dumps f ≡ head ∷ rest
  pub one_line : All (λ b. (b == newline) ≡ false) (c.dumps f)
  pub stripped : strip (c.dumps f) ≡ c.dumps f
  pub read_back : c.loads (c.dumps f) ≡ some (obj f)

-- The file after one `append` for each frame.
unfoldable pub written : Codec → List ℕ → List Frame → List ℕ
unfolding append_line
written c file [] = file
written c file (f ∷ fs) = written c (append_line c file f) fs

lines_of : Codec → List Frame → List ℕ
lines_of c [] = []
lines_of c (f ∷ fs) = c.dumps f ++ newline ∷ lines_of c fs

written-lines_of :
    (c : Codec) (file : List ℕ) (fs : List Frame) → written c file fs ≡ file ++ lines_of c fs
unfolding written append_line lines_of
written-lines_of c file [] = sym (append-nil file)
written-lines_of c file (f ∷ fs) =
    written-lines_of c (append_line c file f) fs
    ∙ append_assoc file (c.dumps f ++ newline ∷ []) (lines_of c fs)
    ∙ ap (λ xs. file ++ xs) (append_assoc (c.dumps f) (newline ∷ []) (lines_of c fs))

split_lines-line :
    (l bs : List ℕ)
    → All (λ b. (b == newline) ≡ false) l
    → split_lines (l ++ newline ∷ bs) ≡ l ∷ split_lines bs
unfolding split_lines cons_head
split_lines-line [] bs h = refl
split_lines-line (b ∷ l) bs h = rw (split_lines-line l bs h.1, h.0) refl

split_lines-lines_of :
    (c : Codec) (fs : List Frame)
    → All (IsLine c) fs
    → split_lines (lines_of c fs) ≡ map c.dumps fs ++ [] ∷ []
unfolding lines_of split_lines
split_lines-lines_of c [] h = refl
split_lines-lines_of c (f ∷ fs) h =
    split_lines-line (c.dumps f) (lines_of c fs) h.0.one_line
    ∙ ap (◌∷◌ (c.dumps f)) (split_lines-lines_of c fs h.1)

decode_line-IsLine :
    (c : Codec) (f : Frame) → IsLine c f → decode_line c (strip (c.dumps f)) ≡ some f
unfolding decode_line
decode_line-IsLine c f h =
    let e : c.loads (h.head ∷ h.rest) ≡ some (obj f) = ap c.loads (sym h.text) ∙ h.read_back in
    rw (h.stripped, h.text, decode_line, e) refl

decode_lines-blank : (c : Codec) → decode_lines c ([] ∷ []) ≡ []
unfolding decode_lines decode_line strip
decode_lines-blank c = refl

decode_lines-drop :
    (c : Codec) (k : ℕ) (fs : List Frame)
    → All (IsLine c) fs
    → decode_lines c (drop k (map c.dumps fs ++ [] ∷ [])) ≡ drop k fs
unfolding decode_lines
decode_lines-drop c zero [] h = decode_lines-blank c
decode_lines-drop c (suc k) [] h = ap (decode_lines c) (drop-nil k)
decode_lines-drop c zero (f ∷ fs) h =
    rw (decode_lines, decode_line-IsLine c f h.0, decode_lines-drop c zero fs h.1) refl
decode_lines-drop c (suc k) (f ∷ fs) h = decode_lines-drop c k fs h.1

length-lines : (c : Codec) (fs : List Frame) → length (map c.dumps fs ++ [] ∷ []) ≡ suc (length fs)
length-lines c [] = refl
length-lines c (f ∷ fs) = ap (λ n. suc n) (length-lines c fs)

ltb_self : (n : ℕ) → ltb n n ≡ false
ltb_self n = ground arith

drop_partial-whole :
    (c : Codec) (n : ℕ) (file : List ℕ)
    → n ≡ length file
    → drop_partial c n (length file) (split_lines (drop (length file - n) file)) ≡ split_lines file
drop_partial-whole c n file e =
    rw (e, ltb_self (length file))
      (ap (λ k. split_lines (drop k file)) {x = length file - length file} {y = 0} (omega arith))

from_end-positive :
    (c : Codec) (k : ℕ) (xs : List (List ℕ)) → 0 < k → from_end c k xs ≡ take_right k xs
from_end-positive c zero xs h = ground arith
from_end-positive c (suc k) xs h = refl

take_right-drop :
    (n k : ℕ) (fs : List Frame)
    → k ≤ length fs - suc n
    → take_right (suc n) (drop k fs) ≡ take_right (suc n) fs
take_right-drop n k fs h =
    drop-drop (length (drop k fs) - suc n) k fs
    ∙ ap (λ i. drop i fs) {x = k + (length (drop k fs) - suc n)} {y = length fs - suc n}
        (omega (arith, length-drop k fs))

-- The frames that were appended to an empty log, and no other, are read from it: the last `n` of
-- them, in order. Conditions: the frames' lines are such lines as the codec reads back, `n` is not
-- 0, and the log is no longer than the part of it that is read.
pub tail-written :
    (c : Codec) (n : ℕ) (fs : List Frame)
    → All (IsLine c) fs
    → length (written c [] fs) ≤ read_limit
    → tail c (written c [] fs) (suc n) ≡ take_right (suc n) fs
unfolding tail
tail-written c n fs h short =
    let file = written c [] fs in
    let lines = map c.dumps fs ++ [] ∷ [] in
    let k = length lines - suc n * 2 in
    let whole : min (length file) read_limit ≡ length file = omega (arith, short) in
    let read : split_lines file ≡ lines =
      ap split_lines (written-lines_of c [] fs) ∙ split_lines-lines_of c fs h in
    ap (λ ls. take_right (suc n) (decode_lines c (from_end c (suc n * 2) ls)))
      (drop_partial-whole c (min (length file) read_limit) file whole ∙ read)
    ∙ ap (λ ls. take_right (suc n) (decode_lines c ls))
        (from_end-positive c (suc n * 2) lines (omega arith))
    ∙ ap (take_right (suc n)) (decode_lines-drop c k fs h)
    ∙ take_right-drop n k fs (omega (arith, length-lines c fs))
