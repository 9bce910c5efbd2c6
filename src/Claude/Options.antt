-- ===== src/Claude/Options.antt =====
-- blemees_agent/backends/claude.py: the checks on `options.claude` and the argument vector of a child.
pub mod Resume
pub mod Safety
use blemees_daemon.Prelude.{
  Bool, true, false, not, ◌&&◌, Option, none, some, List, [], ◌∷◌, ◌++◌, map, String, str_eq, any,
  if◌then◌else◌,
}
use blemees_daemon.Json.{
  Value, Fields, Items, null, bool, str, arr, obj, nil, cons, end, field, get, keys, items, is_in,
}
use blemees_daemon.Errors.{Result, ok, err, ◌>>◌, protocol_error, unsafe_flag_error}
use blemees_daemon.Protocol.{truthy}

abbrev pub unsafe_option_keys : List String
unsafe_option_keys =
    "dangerously_skip_permissions" ∷ "allow_dangerously_skip_permissions" ∷ "bare" ∷ "continue"
    ∷ "continue_" ∷ "from_pr" ∷ []

abbrev pub daemon_owned_option_keys : List String
daemon_owned_option_keys = "input_format" ∷ "output_format" ∷ []

abbrev pub unsafe_literal_flags : List String
unsafe_literal_flags =
    "--dangerously-skip-permissions" ∷ "--allow-dangerously-skip-permissions" ∷ "--bare"
    ∷ "--continue" ∷ "--from-pr" ∷ []

abbrev pub valid_option_keys : List String
valid_option_keys =
    "model" ∷ "system_prompt" ∷ "append_system_prompt" ∷ "tools" ∷ "disallowed_tools"
    ∷ "permission_mode" ∷ "cwd" ∷ "add_dir" ∷ "effort" ∷ "agent" ∷ "agents" ∷ "mcp_config"
    ∷ "strict_mcp_config" ∷ "settings" ∷ "setting_sources" ∷ "plugin_dir" ∷ "betas"
    ∷ "exclude_dynamic_system_prompt_sections" ∷ "max_budget_usd" ∷ "json_schema" ∷ "fallback_model"
    ∷ "session_name" ∷ "session_persistence" ∷ "include_partial_messages" ∷ "include_raw_events"
    ∷ "user_echo" ∷ []

unfoldable pub check_keys : List String → Result (Unit {0})
unfolding is_in
check_keys [] = ok tt
check_keys (k ∷ ks) =
    let rest = check_keys ks in
    if is_in k unsafe_option_keys
    then err (unsafe_flag_error k)
    else (if is_in k daemon_owned_option_keys
        then err (protocol_error "not client-settable; daemon always uses stream-json")
        else (if is_in k valid_option_keys
            then rest
            else err (protocol_error "unknown options.claude field")))

unfoldable pub is_unsafe : String → Bool
unfolding is_in
is_unsafe s = is_in s unsafe_literal_flags

unfoldable pub check_text : String → Result (Unit {0})
unfolding is_unsafe
check_text s = if is_unsafe s then err (unsafe_flag_error s) else ok tt

unfoldable pub check_items : Items → Result (Unit {0})
unfolding check_text
check_items nil = ok tt
check_items (cons (str s) vs) = let rest = check_items vs in check_text s >> rest
check_items (cons v vs) = check_items vs

unfoldable pub check_value : Value → Result (Unit {0})
unfolding check_text check_items
check_value (str s) = check_text s
check_value (arr vs) = check_items vs
check_value _ = ok tt

unfoldable pub check_values : Fields → Result (Unit {0})
unfolding check_value
check_values end = ok tt
check_values (field k v d) = let rest = check_values d in check_value v >> rest

-- validate_options
unfoldable pub validate_options : Fields → Result (Unit {0})
unfolding check_keys check_values
validate_options d = do check_keys (keys d); check_values d

-- Python's `str(v)` of a value that is no text, and `json.dumps`.
pub record Printer : Type 0 where
  pub to_text : Value → String
  pub dumps : Value → String

module _ (p : Printer) where
  unfoldable pub text_of : Value → String
  text_of (str s) = s
  text_of v = p.to_text v

  -- if k in f and f[k] is not None: add(flag, f[k])
  unfoldable pub add_value : String → Option Value → List String
  unfolding text_of
  add_value flag none = []
  add_value flag (some null) = []
  add_value flag (some v) = flag ∷ text_of v ∷ []

  -- What Python iterates over: the items of a list, the keys of a dict, the characters of a text,
  -- which `chars` gives; a value of another type is no iterable (`none`, a TypeError).
  unfoldable pub iterate : (String → List String) → Value → Option (List String)
  unfolding text_of
  iterate chars (arr vs) = some (map text_of (items vs))
  iterate chars (obj d) = some (keys d)
  iterate chars (str s) = some (chars s)
  iterate chars _ = none

  flag_list : String → Option (List String) → Option (List String)
  flag_list flag none = none
  flag_list flag (some xs) = some (flag ∷ xs)

  -- if k in f and f[k]: add_list(flag, f[k])
  unfoldable pub add_list : (String → List String) → String → Option Value → Option (List String)
  unfolding iterate flag_list truthy
  add_list chars flag none = some []
  add_list chars flag (some v) = if truthy v then flag_list flag (iterate chars v) else some []

  each_flag : String → List String → List String
  each_flag flag [] = []
  each_flag flag (x ∷ xs) = flag ∷ x ∷ each_flag flag xs

  flag_each : String → Option (List String) → Option (List String)
  unfolding each_flag
  flag_each flag none = none
  flag_each flag (some xs) = some (each_flag flag xs)

  -- if k in f and f[k]: for item in f[k]: add(flag, item)
  unfoldable pub add_each : (String → List String) → String → Option Value → Option (List String)
  unfolding iterate flag_each truthy
  add_each chars flag none = some []
  add_each chars flag (some v) = if truthy v then flag_each flag (iterate chars v) else some []

  -- A text as it is, any other value as JSON.
  unfoldable pub add_json : String → Option Value → List String
  add_json flag none = []
  add_json flag (some null) = []
  add_json flag (some (str s)) = flag ∷ s ∷ []
  add_json flag (some v) = flag ∷ p.dumps v ∷ []

-- if f.get(k): argv.append(flag)
unfoldable pub add_switch : String → Option Value → List String
unfolding truthy
add_switch flag none = []
add_switch flag (some v) = if truthy v then flag ∷ [] else []

-- if k in f and f[k] is False
unfoldable pub add_off : String → Option Value → List String
add_off flag (some (bool false)) = flag ∷ []
add_off flag _ = []

infixr 66 ◌+++◌
abbrev pub ◌+++◌ : Option (List String) → Option (List String) → Option (List String)
none +++ ys = none
some xs +++ none = none
some xs +++ some ys = some (xs ++ ys)

module _ (p : Printer) (chars : String → List String) where
  -- The flags that the options ask for, in order; `none` is the TypeError of a list that is none.
  unfoldable pub option_argv : Fields → Option (List String)
  unfolding add_value add_list add_each add_json add_switch add_off
  option_argv f =
      some (add_value p "--model" (get "model" f))
      +++ some (add_value p "--system-prompt" (get "system_prompt" f))
      +++ some (add_value p "--append-system-prompt" (get "append_system_prompt" f))
      +++ some (add_value p "--tools" (get "tools" f))
      +++ add_list p chars "--disallowedTools" (get "disallowed_tools" f)
      +++ some (add_value p "--permission-mode" (get "permission_mode" f))
      +++ add_list p chars "--add-dir" (get "add_dir" f)
      +++ some (add_value p "--effort" (get "effort" f))
      +++ some (add_value p "--agent" (get "agent" f))
      +++ some (add_json p "--agents" (get "agents" f))
      +++ add_list p chars "--mcp-config" (get "mcp_config" f)
      +++ some (add_switch "--strict-mcp-config" (get "strict_mcp_config" f))
      +++ some (add_value p "--settings" (get "settings" f))
      +++ some (add_value p "--setting-sources" (get "setting_sources" f))
      +++ add_each p chars "--plugin-dir" (get "plugin_dir" f)
      +++ add_list p chars "--betas" (get "betas" f)
      +++ some (
          add_switch "--exclude-dynamic-system-prompt-sections"
            (get "exclude_dynamic_system_prompt_sections" f))
      +++ some (add_value p "--max-budget-usd" (get "max_budget_usd" f))
      +++ some (add_json p "--json-schema" (get "json_schema" f))
      +++ some (add_value p "--fallback-model" (get "fallback_model" f))
      +++ some (add_value p "-n" (get "session_name" f))
      +++ some (add_off "--no-session-persistence" (get "session_persistence" f))
      +++ some (add_switch "--include-partial-messages" (get "include_partial_messages" f))
      +++ some (add_switch "--replay-user-messages" (get "user_echo" f))

  fixed_argv : String → String → Bool → List String
  fixed_argv claude_bin session_id for_resume =
      claude_bin
      ∷ "-p"
      ∷ "--verbose"
      ∷ (if for_resume then "--resume" else "--session-id")
      ∷ session_id
      ∷ "--input-format"
      ∷ "stream-json"
      ∷ "--output-format"
      ∷ "stream-json"
      ∷ []

  -- build_argv
  unfoldable pub build_argv : String → String → Fields → Bool → Option (List String)
  unfolding option_argv fixed_argv
  build_argv claude_bin session_id options for_resume =
      some (fixed_argv claude_bin session_id for_resume) +++ option_argv options

-- The loop of `argv_to_resume`, and whether it replaced a flag.
unfoldable pub rewrite_session : List String → List String × Bool
rewrite_session [] = ([], false)
rewrite_session (x ∷ []) = (x ∷ [], false)
rewrite_session (x ∷ y ∷ rest) =
    let (skipped, _) = rewrite_session rest in
    let (kept, found) = rewrite_session (y ∷ rest) in
    if str_eq x "--session-id" then ("--resume" ∷ y ∷ skipped, true) else (x ∷ kept, found)

-- argv_to_resume
unfoldable pub argv_to_resume : List String → String → List String
unfolding rewrite_session is_in
argv_to_resume argv session_id =
    let (out, replaced) = rewrite_session argv in
    if not replaced && not (is_in "--resume" out) then out ++ "--resume" ∷ session_id ∷ [] else out
