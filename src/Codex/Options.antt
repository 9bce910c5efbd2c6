-- ===== src/Codex/Options.antt =====
-- blemees_agent/backends/codex.py: the options of a Codex session, the argument vector of its child and
-- the arguments of a turn, and the errors that mean a failed login.
use blemees_daemon.Prelude.{
  Bool, true, false, ◌||◌, ◌==◌, Option, none, some, List, [], ◌∷◌, ◌++◌, String, str_eq, any,
  if◌then◌else◌,
}
use blemees_daemon.Prelude.Int.{ℤ, pos, negsuc}
use blemees_daemon.Json.{
  Value, Fields, Items, null, bool, int, float, str, arr, obj, nil, cons, end, field, get, get_obj,
  keys, is_in, and_then, as_int,
}
use blemees_daemon.Errors.{Result, ok, err, protocol_error}
use blemees_daemon.Protocol.{truthy}
use blemees_daemon.Frames.{Texts, is_text, put_present, value_or}
use blemees_daemon.Claude.Options.{Printer}
use Prim.Native.String.{◌++◌ as text_append}

-- _VALID_OPTION_KEYS
abbrev pub valid_option_keys : List String
valid_option_keys =
    "model" ∷ "profile" ∷ "cwd" ∷ "sandbox" ∷ "approval-policy" ∷ "base-instructions"
    ∷ "developer-instructions" ∷ "compact-prompt" ∷ "config" ∷ "include_raw_events" ∷ "user_echo"
    ∷ []

unfoldable pub check_keys : List String → Result (Unit {0})
unfolding is_in
check_keys [] = ok tt
check_keys (k ∷ ks) =
    let rest = check_keys ks in
    if is_in k valid_option_keys then rest else err (protocol_error "unknown options.codex field")

-- validate_options
unfoldable pub validate_options : Fields → Result (Unit {0})
unfolding check_keys
validate_options d = check_keys (keys d)

module _ (p : Printer) where
  -- _serialise_config_value
  unfoldable pub serialise_config_value : Value → String
  serialise_config_value (str s) = s
  serialise_config_value (bool b) = if b then "true" else "false"
  serialise_config_value (int n) = p.to_text (int n)
  serialise_config_value (float x) = p.to_text (float x)
  serialise_config_value null = p.dumps null
  serialise_config_value (arr vs) = p.dumps (arr vs)
  serialise_config_value (obj d) = p.dumps (obj d)

  unfoldable pub config_flags : Fields → List String
  unfolding serialise_config_value
  config_flags end = []
  config_flags (field k v d) =
      let rest = config_flags d in
      if str_eq k "features"
      then rest
      else "-c" ∷ text_append k (text_append "=" (serialise_config_value v)) ∷ rest

  unfoldable pub feature_flags : Fields → List String
  unfolding truthy
  feature_flags end = []
  feature_flags (field name enabled d) =
      (if truthy enabled then "--enable" else "--disable") ∷ name ∷ feature_flags d

  unfoldable pub flags_of_features : Option Fields → List String
  unfolding feature_flags
  flags_of_features none = []
  flags_of_features (some features) = feature_flags features

  unfoldable pub flags_of_config : Option Fields → List String
  unfolding config_flags flags_of_features
  flags_of_config none = []
  flags_of_config (some config) =
      config_flags config ++ flags_of_features (get_obj "features" config)

  -- build_argv
  unfoldable pub build_argv : String → Fields → List String
  unfolding flags_of_config
  build_argv codex_bin options =
      codex_bin ∷ "mcp-server" ∷ flags_of_config (get_obj "config" options)

-- _TOOL_CALL_KEYS, a set, in the order of the source
abbrev pub tool_call_keys : List String
tool_call_keys =
    "model" ∷ "profile" ∷ "cwd" ∷ "sandbox" ∷ "approval-policy" ∷ "base-instructions"
    ∷ "developer-instructions" ∷ "compact-prompt" ∷ []

unfoldable pub copy_keys : List String → Fields → Fields → Fields
unfolding put_present
copy_keys [] options out = out
copy_keys (k ∷ ks) options out = copy_keys ks options (put_present k (get k options) out)

-- build_codex_tool_args
unfoldable pub build_codex_tool_args : Fields → String → Fields
unfolding copy_keys
build_codex_tool_args options prompt =
    copy_keys tool_call_keys options (field "prompt" (str prompt) end)

unfoldable pub text_of_block : Bool → Value → Option String
text_of_block true (str s) = some s
text_of_block is_text _ = none

-- The text of one block; `none` for a block that is no text.
unfoldable pub block_text : Value → Option String
unfolding text_of_block is_text value_or
block_text (obj d) =
    text_of_block (is_text "text" (get "type" d)) (value_or (str "") (get "text" d))
block_text _ = none

unfoldable pub joined : Option String → Option String → Option String
joined (some s) (some rest) = some (text_append s rest)
joined (some s) none = none
joined none rest = none

unfoldable pub flatten_items : Items → Option String
unfolding block_text joined
flatten_items nil = some ""
flatten_items (cons v vs) = joined (block_text v) (flatten_items vs)

-- _flatten_content_to_text
unfoldable pub flatten_content_to_text : Option Value → Option String
unfolding flatten_items
flatten_content_to_text (some (str s)) = some s
flatten_content_to_text (some (arr vs)) = flatten_items vs
flatten_content_to_text _ = none

-- _AUTH_ERROR_CODES
unfoldable pub is_auth_code : ℤ → Bool
is_auth_code (pos n) = n == 401 || n == 403
is_auth_code (negsuc n) = n == 32000 || n == 32001

unfoldable pub has_auth_code : Option ℤ → Bool
unfolding is_auth_code
has_auth_code none = false
has_auth_code (some n) = is_auth_code n

-- _AUTH_FAIL_PATTERNS
abbrev pub auth_fail_patterns : List String
auth_fail_patterns =
    "401" ∷ "403" ∷ "not authenticated" ∷ "auth required" ∷ "please run `codex login`"
    ∷ "please run codex login" ∷ "missing api key" ∷ "OPENAI_API_KEY" ∷ "unauthorized" ∷ []

module _ (texts : Texts) where
  unfoldable pub has_auth_pattern : String → Bool
  has_auth_pattern line =
      any (λ p. texts.contains (texts.lower p) (texts.lower line)) auth_fail_patterns

  unfoldable pub is_auth_type : Option Value → Bool
  unfolding is_in
  is_auth_type (some (str t)) =
      is_in (texts.lower t) ("auth_failed" ∷ "unauthorized" ∷ "missing_api_key" ∷ [])
  is_auth_type _ = false

  unfoldable pub is_auth_data : Option Value → Bool
  unfolding has_auth_code is_auth_type
  is_auth_data (some (obj d)) =
      has_auth_code (and_then (get "code" d) as_int) || is_auth_type (get "type" d)
  is_auth_data _ = false

  unfoldable pub is_auth_message : Value → Bool
  unfolding has_auth_pattern
  is_auth_message (str message) = has_auth_pattern message
  is_auth_message _ = false

  -- _looks_like_auth_failure
  unfoldable pub looks_like_auth_failure : Value → Bool
  unfolding has_auth_code is_auth_data is_auth_message value_or
  looks_like_auth_failure (obj e) =
      has_auth_code (and_then (get "code" e) as_int)
      || is_auth_data (get "data" e)
      || is_auth_message (value_or (str "") (get "message" e))
  looks_like_auth_failure _ = false
