-- ===== src/Session/Counters.antt =====
-- The usage accumulator of blemees_agent/session.py and its sidecar file.
use blemees_daemon.Prelude.{
  ℕ, Bool, false, Option, none, some, List, [], ◌∷◌, String, str_eq, if◌then◌else◌,
}
use blemees_daemon.Prelude.Int.{ℤ, pos, ◌+ℤ◌}
use blemees_daemon.Json.{
  Value, Fields, null, int, str, obj, end, field, insert, get_str, get_int, get_obj, num, as_int,
}

-- The part of `Session` that the accumulator owns. `sidecar` is what the file holds: `none` where
-- there is no file, or one that cannot be read as JSON; `has_path` is `_usage_path is not None`.
pub record Usage : Type 0 where
  pub turns : ℤ
  pub last_model : Option String
  pub last_turn_at_ms : Option ℤ
  pub last_turn_usage : Fields
  pub cumulative_usage : Fields
  pub native_session_id : Option String
  pub rollout_path : Option String
  pub has_path : Bool
  pub sidecar : Option Value

abbrev zero_counters : Fields
zero_counters = field "input_tokens" (num 0) (
    field "output_tokens" (num 0)
      (field "cache_read_input_tokens" (num 0) (field "cache_creation_input_tokens" (num 0) end)))

-- The defaults of the dataclass.
unfoldable pub new_usage : Usage
new_usage = record {
  turns = pos 0;
  last_model = none;
  last_turn_at_ms = none;
  last_turn_usage = end;
  cumulative_usage = zero_counters;
  native_session_id = none;
  rollout_path = none;
  has_path = false;
  sidecar = none;
}

abbrev or_null : Option String → Value
or_null none = null
or_null (some s) = str s

abbrev int_or_null : Option ℤ → Value
int_or_null none = null
int_or_null (some n) = int n

unfoldable pub payload : String → Usage → Fields
payload sid u = field "session_id" (str sid) (
    field "model" (or_null u.last_model) (
      field "turns" (int u.turns) (
        field "last_turn_at_ms" (int_or_null u.last_turn_at_ms) (
          field "last_turn_usage" (obj u.last_turn_usage) (
            field "cumulative_usage" (obj u.cumulative_usage) (
              field "native_session_id" (or_null u.native_session_id)
                (field "rollout_path" (or_null u.rollout_path) end)))))))

-- _save_usage_sidecar. The file is replaced whole, or on an OSError (`writable` is false) not at all.
unfoldable pub save_sidecar : Bool → String → Usage → Usage
unfolding payload
save_sidecar writable sid u =
    if u.has_path
    then (if writable then record u { sidecar = some (obj (payload sid u)) } else u)
    else u

-- d.get(k, 0) of a counter
abbrev pub count : String → Fields → ℤ
count k d = elim (get_int k d) [ none ↦ pos 0 | some n ↦ n ]

unfoldable pub add_counter : Fields → Fields → String → Fields
add_counter usage total k = elim (get_int k usage) [
  | none ↦ total
  | some v ↦ insert k (int (count k total +ℤ v)) total
]

abbrev pub counters : List String
counters =
    "input_tokens" ∷ "output_tokens" ∷ "cache_read_input_tokens" ∷ "cache_creation_input_tokens"
    ∷ "reasoning_output_tokens" ∷ []

unfoldable pub add_counters : Fields → List String → Fields → Fields
unfolding add_counter
add_counters usage [] total = total
add_counters usage (k ∷ ks) total = add_counters usage ks (add_counter usage total k)

-- A text that is not empty replaces the old one.
keep_text : Option String → Option String → Option String
keep_text old none = old
keep_text old (some s) = if str_eq s "" then old else some s

replace_text : Option String → Option String → Option String
replace_text old none = old
replace_text old (some s) = some s

capabilities_path : Fields → Option String
capabilities_path f = elim (get_obj "capabilities" f) [
  | none ↦ none
  | some caps ↦ get_str "rollout_path" caps
]

note_init : Fields → Usage → Usage
unfolding keep_text replace_text capabilities_path
note_init f u = record u {
  last_model = replace_text u.last_model (get_str "model" f);
  native_session_id = keep_text u.native_session_id (get_str "native_session_id" f);
  rollout_path = keep_text u.rollout_path (capabilities_path f);
}

unfoldable pub note_result : ℕ → Fields → Usage → Usage
unfolding add_counters
note_result now usage u = record u {
  last_turn_usage = usage;
  cumulative_usage = add_counters usage counters u.cumulative_usage;
  turns = u.turns +ℤ pos 1;
  last_turn_at_ms = some (pos now);
}

-- frame.get("type") == name
abbrev pub has_type : String → Fields → Bool
has_type name f = elim (get_str "type" f) [ none ↦ false | some t ↦ str_eq t name ]

-- _update_usage_from_frame
unfoldable pub update_usage : Bool → ℕ → String → Fields → Usage → Usage
unfolding note_init note_result save_sidecar
update_usage writable now sid f u =
    if has_type "agent.system_init" f
    then save_sidecar writable sid (note_init f u)
    else (if has_type "agent.result" f
        then (elim (get_obj "usage" f) [
          | none ↦ u
          | some usage ↦ save_sidecar writable sid (note_result now usage u)
        ])
        else u)

replace_int : Option ℤ → Option ℤ → Option ℤ
replace_int old none = old
replace_int old (some n) = some n

turns_of : ℤ → Option ℤ → ℤ
turns_of old none = old
turns_of old (some n) = n

usage_of : Fields → Option Fields → Fields
usage_of old none = old
usage_of old (some d) = d

-- for k, v in saved.items(): if isinstance(v, int): total[k] = v
unfoldable pub merge_counters : Fields → Fields → Fields
merge_counters total end = total
merge_counters total (field k v d) = elim (as_int v) [
  | none ↦ merge_counters total d
  | some n ↦ merge_counters (insert k v total) d
]

merge_saved : Fields → Option Fields → Fields
unfolding merge_counters
merge_saved total none = total
merge_saved total (some d) = merge_counters total d

unfoldable pub load_fields : Fields → Usage → Usage
unfolding replace_text replace_int turns_of usage_of merge_saved
load_fields d u = record u {
  last_model = replace_text u.last_model (get_str "model" d);
  turns = turns_of u.turns (get_int "turns" d);
  last_turn_at_ms = replace_int u.last_turn_at_ms (get_int "last_turn_at_ms" d);
  last_turn_usage = usage_of u.last_turn_usage (get_obj "last_turn_usage" d);
  cumulative_usage = merge_saved u.cumulative_usage (get_obj "cumulative_usage" d);
  native_session_id = replace_text u.native_session_id (get_str "native_session_id" d);
  rollout_path = replace_text u.rollout_path (get_str "rollout_path" d);
}

load_value : Option Value → Usage → Usage
unfolding load_fields
load_value (some (obj d)) u = load_fields d u
load_value _ u = u

-- _load_usage_sidecar
unfoldable pub load_sidecar : Usage → Usage
unfolding load_value
load_sidecar u = if u.has_path then load_value u.sidecar u else u
