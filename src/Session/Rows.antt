-- ===== src/Session/Rows.antt =====
-- blemees_agent/session.py: the rows that describe a session in replies.
use blemees_daemon.Prelude.{
  Bool, false, ◌&&◌, Option, none, some, ℕ, String, str_eq, if◌then◌else◌, is_some, [], ◌∷◌,
}
use blemees_daemon.Prelude.Int.{ℤ, pos, ◌+ℤ◌}
use blemees_daemon.Json.{Value, Fields, null, bool, int, str, obj, end, field, get, num, as_int}
use blemees_daemon.Protocol.{truthy}
use blemees_daemon.Session.{Session}
use blemees_daemon.Session.Title.{Text, text_value}

-- `out[k] = v` where the value is there.
put_if : String → Option Value → Fields → Fields
put_if k none d = d
put_if k (some v) d = field k v d

truthy_value : Value → Option Value
unfolding truthy
truthy_value v = if truthy v then some v else none

truthy_text : Option String → Option Value
truthy_text none = none
truthy_text (some s) = if str_eq s "" then none else some (str s)

truthy_title : Option Text → Option Value
truthy_title none = none
truthy_title (some []) = none
truthy_title (some (c ∷ t)) = some (text_value (c ∷ t))

some_nat : Option ℕ → Option Value
some_nat none = none
some_nat (some n) = some (num n)

-- self.last_turn_at_ms or self.started_at_ms, where zero counts as absent
last_active : Option ℤ → Option ℕ → Option Value
unfolding truthy some_nat
last_active none started = some_nat started
last_active (some n) started = if truthy (int n) then some (int n) else some_nat started

owner_value : Option ℕ → Option ℕ → Option Value
unfolding some_nat
owner_value none pid = none
owner_value (some _) pid = some_nat pid

pub turn_is_active : Session → Bool
turn_is_active s = elim s.backend [ none ↦ false | some b ↦ b.running && b.turn_active ]

-- Session.live_summary
unfoldable pub live_summary : Option ℕ → Session → Fields
unfolding put_if truthy_value truthy_text truthy_title some_nat last_active owner_value
    turn_is_active
live_summary owner_pid s = field "session_id" (str s.session_id) (
    field "backend" (str s.backend_name) (
      field "attached" (bool (is_some s.connection_id)) (
        field "last_seq" (num s.seq) (
          field "turn_active" (bool (turn_is_active s)) (
            put_if "cwd" (truthy_value s.cwd) (
              put_if "model" (truthy_text s.usage.last_model) (
                put_if "title" (truthy_title s.title) (
                  put_if "started_at_ms" (some_nat s.started_at_ms) (
                    put_if "last_active_at_ms" (last_active s.usage.last_turn_at_ms s.started_at_ms)
                      (put_if "owner_pid" (owner_value s.connection_id owner_pid) end))))))))))

-- int(d.get(k, 0) or 0). `to_int` is Python's `int` of a text or a float; `none` is its exception.
token_count : (Value → Option ℤ) → Value → Option ℤ
token_count to_int v = elim (as_int v) [ some n ↦ some n | none ↦ to_int v ]

unfoldable pub tokens : (Value → Option ℤ) → String → Fields → Option ℤ
unfolding token_count truthy
tokens to_int k d = elim (get k d) [
  | none ↦ some (pos 0)
  | some v ↦ if truthy v then token_count to_int v else some (pos 0)
]

plus : Option ℤ → Option ℤ → Option ℤ
plus none n = none
plus (some m) none = none
plus (some m) (some n) = some (m +ℤ n)

-- The input side of the last turn: what the model had in its context.
unfoldable pub context_tokens : (Value → Option ℤ) → Fields → Option ℤ
unfolding tokens plus
context_tokens to_int d =
    plus (plus (tokens to_int "input_tokens" d) (tokens to_int "cache_read_input_tokens" d))
      (tokens to_int "cache_creation_input_tokens" d)

-- a or b, of two texts
text_or : Option String → String → String
text_or none b = b
text_or (some a) b = if str_eq a "" then b else a

str_or_null : Option String → Value
str_or_null none = null
str_or_null (some s) = str s

int_or_null : Option ℤ → Value
int_or_null none = null
int_or_null (some n) = int n

snapshot_fields : Bool → Bool → Session → ℤ → Fields
unfolding text_or str_or_null int_or_null
snapshot_fields attached running s context = field "session_id" (str s.session_id) (
    field "backend" (str s.backend_name) (
      field "native_session_id" (str (text_or s.usage.native_session_id s.session_id)) (
        field "model" (str_or_null s.usage.last_model) (
          field "cwd" s.cwd (
            field "turns" (int s.usage.turns) (
              field "last_turn_at_ms" (int_or_null s.usage.last_turn_at_ms) (
                field "last_turn_usage" (obj s.usage.last_turn_usage) (
                  field "cumulative_usage" (obj s.usage.cumulative_usage) (
                    field "context_tokens" (int context) (
                      field "attached" (bool attached) (
                        field "subprocess_running" (bool running)
                          (field "last_seq" (num s.seq) end))))))))))))

-- Session.usage_snapshot; `none` is the exception of a counter that is no number.
unfoldable pub usage_snapshot : (Value → Option ℤ) → Bool → Bool → Session → Option Fields
unfolding context_tokens snapshot_fields
usage_snapshot to_int attached running s = elim (context_tokens to_int s.usage.last_turn_usage) [
  | none ↦ none
  | some n ↦ some (snapshot_fields attached running s n)
]
