-- ===== src/EventLog.antt =====
-- blemees_agent/event_log.py: the in-memory ring of the last frames, and the append-only JSONL log.
pub mod Ring
pub mod Replay
pub mod Tail
use blemees_daemon.Prelude.{
  ℕ, zero, suc, ◌+◌, ◌-◌, ◌*◌, max, min, ltb, ◌==◌, ◌||◌, Bool, true, false, Option, none, some,
  List, [], ◌∷◌, ◌++◌, if◌then◌else◌, length, drop, take_right,
}
use blemees_daemon.Prelude.Int.{pos, ltb_ℤ}
use blemees_daemon.Json.{Value, null, obj, Fields, get, as_int, num, and_then}

-- A frame is a Python dict.
abbrev pub Frame : Type 0
Frame = Fields

pub record RingBuffer : Type 0 where
  pub capacity : ℕ
  pub buf : List Frame

-- RingBuffer(capacity)
unfoldable pub new_ring : ℕ → RingBuffer
new_ring n = record { capacity = max 1 n; buf = [] }

-- A `deque` with `maxlen` drops from its left end.
unfoldable pub append : RingBuffer → Frame → RingBuffer
append r f = record r { buf = take_right r.capacity (r.buf ++ f ∷ []) }

unfoldable pub extend : RingBuffer → List Frame → RingBuffer
unfolding append
extend r [] = r
extend r (f ∷ fs) = extend (append r f) fs

-- `v > n` for a value that a frame carries; `none` is Python's TypeError.
abbrev pub exceeds : Value → ℕ → Option Bool
exceeds v n = and_then (as_int v) (λ m. some (ltb_ℤ (pos n) m))

-- f.get("seq", 0) > seq
unfoldable pub is_after : ℕ → Frame → Option Bool
is_after n f = elim (get "seq" f) [ none ↦ some false | some v ↦ exceeds v n ]

abbrev keep_if : Frame → Option Bool → Option (List Frame) → Option (List Frame)
keep_if f none rest = none
keep_if f (some b) none = none
keep_if f (some b) (some fs) = some (if b then f ∷ fs else fs)

-- RingBuffer.since; `none` is the TypeError of a `seq` that is no number.
unfoldable pub since : ℕ → List Frame → Option (List Frame)
unfolding is_after
since n [] = some []
since n (f ∷ fs) = keep_if f (is_after n f) (since n fs)

-- f.get("seq"), where Python's None is JSON's null.
abbrev pub seq_value : Frame → Value
seq_value f = elim (get "seq" f) [ none ↦ null | some v ↦ v ]

unfoldable pub earliest_seq : List Frame → Value
earliest_seq [] = null
earliest_seq (f ∷ fs) = seq_value f

unfoldable pub latest_seq : List Frame → Value
latest_seq [] = null
latest_seq (f ∷ []) = seq_value f
latest_seq (f ∷ g ∷ fs) = latest_seq (g ∷ fs)

-- json.dumps and json.loads, which are not this program's: `loads` is `none` on bad UTF-8 or JSON.
pub record Codec : Type 0 where
  pub dumps : Fields → List ℕ
  pub loads : List ℕ → Option Value

abbrev pub newline : ℕ
newline = 10

cons_head : ℕ → List (List ℕ) → List (List ℕ)
cons_head b [] = (b ∷ []) ∷ []
cons_head b (l ∷ ls) = (b ∷ l) ∷ ls

-- chunk.split(b"\n")
unfoldable pub split_lines : List ℕ → List (List ℕ)
unfolding cons_head
split_lines [] = [] ∷ []
split_lines (b ∷ bs) =
    let rest = split_lines bs in if b == newline then [] ∷ rest else cons_head b rest

is_ascii_space : ℕ → Bool
is_ascii_space b = b == 32 || b == 9 || b == 10 || b == 13 || b == 11 || b == 12

lstrip : List ℕ → List ℕ
unfolding is_ascii_space
lstrip [] = []
lstrip (b ∷ bs) = let rest = lstrip bs in if is_ascii_space b then rest else b ∷ bs

-- Drops a space only when everything to its right is one.
rstrip : List ℕ → List ℕ
unfolding is_ascii_space
rstrip [] = []
rstrip (b ∷ bs) = elim (rstrip bs) [
  | [] ↦ if is_ascii_space b then [] else b ∷ []
  | c ∷ cs ↦ b ∷ c ∷ cs
]

-- raw.strip()
unfoldable pub strip : List ℕ → List ℕ
unfolding lstrip rstrip
strip bs = rstrip (lstrip bs)

-- At most this much of the end of the file is read.
abbrev pub read_limit : ℕ
read_limit = 256 * 1024

module _ (c : Codec) where
  -- DurableEventLog.append: one line at the end of the file.
  unfoldable pub append_line : List ℕ → Frame → List ℕ
  append_line file f = file ++ (c.dumps f ++ newline ∷ [])

  decode_line : List ℕ → Option Frame
  decode_line [] = none
  decode_line (b ∷ bs) = elim (c.loads (b ∷ bs)) [ some (obj d) ↦ some d | _ ↦ none ]

  -- The loop of `tail`: blank lines, bad lines and lines that are no object are skipped.
  unfoldable pub decode_lines : List (List ℕ) → List Frame
  unfolding decode_line
  decode_lines [] = []
  decode_lines (l ∷ ls) =
      let rest = decode_lines ls in elim (decode_line (strip l)) [ none ↦ rest | some d ↦ d ∷ rest ]

  abbrev drop_partial : ℕ → ℕ → List (List ℕ) → List (List ℕ)
  drop_partial span size lines = if ltb span size then drop 1 lines else lines

  -- xs[-n:], which is all of `xs` for 0
  abbrev pub from_end {ℓ} : {A : Type ℓ} → ℕ → List A → List A
  from_end zero xs = xs
  from_end (suc n) xs = take_right (suc n) xs

  -- DurableEventLog.tail(n), over the bytes of the file
  unfoldable pub tail : List ℕ → ℕ → List Frame
  unfolding decode_lines split_lines
  tail file n =
      let size = length file in
      let span = min size read_limit in
      let lines = drop_partial span size (split_lines (drop (size - span) file)) in
      from_end n (decode_lines (from_end (n * 2) lines))
