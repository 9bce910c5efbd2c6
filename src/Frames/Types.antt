-- ===== src/Frames/Types.antt =====
-- Which frames end a turn, by the way in which they are built.
use blemees_daemon.Prelude.{
  ℕ, ◌+◌, false, Option, none, some, List, [], ◌∷◌, ◌++◌, String, str_eq, if◌then◌else◌, ◌≡◌, refl,
  arith,
}
use blemees_daemon.Prelude.Int.{ℤ}
use blemees_daemon.Json.{
  Value, Fields, null, bool, int, float, str, arr, obj, end, field, get, insert, set_default,
  as_int,
}
use blemees_daemon.Json.Laws.{get-insert, get-set_default}
use blemees_daemon.Frames.{
  is_text, with_raw, with_text, keep_int, with_int, with_fields, notice, put_present, ends_turn,
}

-- The number of frames that end a turn.
unfoldable pub turn_ends : List Fields → ℕ
turn_ends [] = 0
turn_ends (f ∷ fs) = (if ends_turn f then 1 else 0) + turn_ends fs

pub no_frames : turn_ends [] ≡ 0
unfolding turn_ends
no_frames = refl

pub type-field :
    (t : String) (d : Fields)
    → str_eq t "agent.result" ≡ false
    → ends_turn (field "type" (str t) d) ≡ false
unfolding ends_turn is_text get
type-field t d e = e

-- A key other than the type leaves a frame's type as it is.
pub type-insert :
    (k : String) (v : Value) (f : Fields)
    → str_eq k "type" ≡ false
    → ends_turn (insert k v f) ≡ ends_turn f
unfolding ends_turn
type-insert k v f e = rw (get-insert k "type" v f, e) refl

pub type-with_raw : (r : Option Fields) (f : Fields) → ends_turn (with_raw r f) ≡ ends_turn f
unfolding with_raw
type-with_raw none f = refl
type-with_raw (some r) f = type-insert "raw" (obj r) f refl

pub type-keep_int :
    (k : String) (v : Value) (n : Option ℤ) (f : Fields)
    → str_eq k "type" ≡ false
    → ends_turn (keep_int k v n f) ≡ ends_turn f
unfolding keep_int
type-keep_int k v none f e = refl
type-keep_int k v (some n) f e = type-insert k v f e

pub type-with_int :
    (k : String) (v : Option Value) (f : Fields)
    → str_eq k "type" ≡ false
    → ends_turn (with_int k v f) ≡ ends_turn f
unfolding with_int
type-with_int k none f e = refl
type-with_int k (some v) f e = type-keep_int k v (as_int v) f e

pub type-with_text :
    (k : String) (v : Option Value) (f : Fields)
    → str_eq k "type" ≡ false
    → ends_turn (with_text k v f) ≡ ends_turn f
unfolding with_text
type-with_text k none f e = refl
type-with_text k (some (str s)) f e = type-insert k (str s) f e
type-with_text k (some null) f e = refl
type-with_text k (some (bool b)) f e = refl
type-with_text k (some (int n)) f e = refl
type-with_text k (some (float t)) f e = refl
type-with_text k (some (arr vs)) f e = refl
type-with_text k (some (obj d)) f e = refl

pub type-with_fields :
    (k : String) (d f : Fields)
    → str_eq k "type" ≡ false
    → ends_turn (with_fields k d f) ≡ ends_turn f
unfolding with_fields
type-with_fields k end f e = refl
type-with_fields k (field j v d) f e = type-insert k (obj (field j v d)) f e

pub turn_ends-append : (fs gs : List Fields) → turn_ends (fs ++ gs) ≡ turn_ends fs + turn_ends gs
unfolding turn_ends
turn_ends-append [] gs = omega arith
turn_ends-append (f ∷ fs) gs = ground (arith, turn_ends-append fs gs)

pub type-notice : (c : String) → ends_turn (notice c) ≡ false
unfolding notice ends_turn is_text get
type-notice c = refl

pub one_frame : (f : Fields) → ends_turn f ≡ false → turn_ends (f ∷ []) ≡ 0
unfolding turn_ends
one_frame f e = ground (arith)

-- The turn ends among what an event is translated to; an event that raises ends none.
unfoldable pub ends_of : Option (List Fields) → ℕ
unfolding turn_ends
ends_of none = 0
ends_of (some fs) = turn_ends fs

pub type-put_present :
    (k : String) (v : Option Value) (f : Fields)
    → str_eq k "type" ≡ false
    → ends_turn (put_present k v f) ≡ ends_turn f
unfolding put_present
type-put_present k none f e = refl
type-put_present k (some null) f e = refl
type-put_present k (some (bool b)) f e = type-insert k (bool b) f e
type-put_present k (some (int n)) f e = type-insert k (int n) f e
type-put_present k (some (float t)) f e = type-insert k (float t) f e
type-put_present k (some (str s)) f e = type-insert k (str s) f e
type-put_present k (some (arr vs)) f e = type-insert k (arr vs) f e
type-put_present k (some (obj d)) f e = type-insert k (obj d) f e

pub type-set_default :
    (k : String) (v : Value) (f : Fields)
    → str_eq k "type" ≡ false
    → ends_turn (set_default k v f) ≡ ends_turn f
unfolding ends_turn
type-set_default k v f e = rw (get-set_default k "type" v f e) refl
