-- ===== src/Config.antt =====
-- blemees_agent/config.py: the effective configuration, of the file, the environment and the command
-- line. The parsed file and the parsed arguments are dicts that other code makes.
pub mod Precedence
use blemees_daemon.Prelude.{
  Bool, true, false, not, ◌&&◌, Option, none, some, List, [], ◌∷◌, String, str_eq, if◌then◌else◌,
}
use blemees_daemon.Prelude.Int.{ℤ}
use blemees_daemon.Json.{
  Value, Fields, null, int, str, end, field, get, insert, update, set_default, is_in, and_then, num,
}

-- The fields of `Config`
abbrev pub config_fields : List String
config_fields =
    "socket_path" ∷ "claude_bin" ∷ "codex_bin" ∷ "log_level" ∷ "log_file" ∷ "max_line_bytes"
    ∷ "idle_timeout_s" ∷ "session_retention_days" ∷ "max_sessions_per_connection"
    ∷ "max_concurrent_sessions" ∷ "stderr_rate_lines" ∷ "stderr_rate_window_s" ∷ "ring_buffer_size"
    ∷ "event_log_dir" ∷ "shutdown_grace_s" ∷ []

-- Those whose type is `int`
abbrev pub int_fields : List String
int_fields =
    "max_line_bytes" ∷ "idle_timeout_s" ∷ "session_retention_days" ∷ "max_sessions_per_connection"
    ∷ "max_concurrent_sessions" ∷ "stderr_rate_lines" ∷ "stderr_rate_window_s" ∷ "ring_buffer_size"
    ∷ "shutdown_grace_s" ∷ []

-- The defaults of `Config`; `socket_path` has none.
unfoldable pub defaults : Fields
defaults = field "claude_bin" (str "claude") (
    field "codex_bin" (str "codex") (
      field "log_level" (str "info") (
        field "log_file" null (
          field "max_line_bytes" (num 16777216) (
            field "idle_timeout_s" (num 900) (
              field "session_retention_days" (num 7) (
                field "max_sessions_per_connection" (num 32) (
                  field "max_concurrent_sessions" (num 64) (
                    field "stderr_rate_lines" (num 50) (
                      field "stderr_rate_window_s" (num 10) (
                        field "ring_buffer_size" (num 1024) (
                          field "event_log_dir" null
                            (field "shutdown_grace_s" (num 30) end)))))))))))))

-- The environment's names, and the fields that they set
abbrev pub env_names : List (String × String)
env_names =
    ("BLEMEES_AGENTD_SOCKET", "socket_path")
    ∷ ("BLEMEES_AGENTD_CLAUDE", "claude_bin")
    ∷ ("BLEMEES_AGENTD_CODEX", "codex_bin")
    ∷ ("BLEMEES_AGENTD_LOG_LEVEL", "log_level")
    ∷ ("BLEMEES_AGENTD_LOG_FILE", "log_file")
    ∷ ("BLEMEES_AGENTD_MAX_LINE", "max_line_bytes")
    ∷ ("BLEMEES_AGENTD_IDLE_TIMEOUT", "idle_timeout_s")
    ∷ ("BLEMEES_AGENTD_RING_BUFFER_SIZE", "ring_buffer_size")
    ∷ ("BLEMEES_AGENTD_EVENT_LOG_DIR", "event_log_dir")
    ∷ ("BLEMEES_AGENTD_SHUTDOWN_GRACE", "shutdown_grace_s")
    ∷ []

unfoldable pub put_env : String → Option String → Fields → Fields
unfolding insert
put_env k none out = out
put_env k (some v) out = insert k (str v) out

unfoldable pub collect_env : (String → Option String) → List (String × String) → Fields → Fields
unfolding put_env
collect_env environ [] out = out
collect_env environ ((name, k) ∷ rest) out = collect_env environ rest (put_env k (environ name) out)

-- _env_overrides
unfoldable pub env_overrides : (String → Option String) → Fields
unfolding collect_env
env_overrides environ = collect_env environ env_names end

unfoldable pub is_null : Value → Bool
is_null null = true
is_null _ = false

-- k not in {"config_path", "version"} and v is not None
unfoldable pub is_given : String → Value → Bool
unfolding is_in is_null
is_given k v = not (is_in k ("config_path" ∷ "version" ∷ [])) && not (is_null v)

-- cli_values: the arguments that were given, but for `--config` and `--version`
unfoldable pub cli_values : Fields → Fields
unfolding is_given
cli_values end = end
cli_values (field k v args) =
    let rest = cli_values args in if is_given k v then field k v rest else rest

-- merged
unfoldable pub merge : String → Fields → Fields → Fields → Fields
unfolding update set_default
merge socket file_values env_values cli_args =
    set_default "socket_path" (str socket) (update (update file_values env_values) cli_args)

-- int(value), or `none` where it raises
unfoldable pub int_or_raise : Option ℤ → Option Value
int_or_raise none = none
int_or_raise (some n) = some (int n)

-- key in fields
unfoldable pub is_field : String → Bool
unfolding is_in
is_field k = is_in k config_fields

module _ (to_int : Value → Option ℤ) where
  -- _coerce, of a field by its name
  unfoldable pub coerce : String → Value → Option Value
  unfolding is_null is_in int_or_raise
  coerce k v =
      if is_null v
      then some null
      else (if is_in k int_fields then int_or_raise (to_int v) else some v)

  unfoldable pub keep : Bool → String → Option Value → Option Fields → Option Fields
  keep false k v rest = rest
  keep true k none rest = none
  keep true k (some v) none = none
  keep true k (some v) (some rest) = some (field k v rest)

  -- cleaned; `none` where a number cannot be read
  unfoldable pub clean : Fields → Option Fields
  unfolding coerce keep is_field
  clean end = some end
  clean (field k v d) = keep (is_field k) k (coerce k v) (clean d)

  -- load, and `Config(**cleaned)` as the defaults under what was read
  unfoldable pub load : String → Fields → (String → Option String) → Fields → Option Fields
  unfolding merge env_overrides cli_values clean update defaults
  load socket file_values environ args =
      and_then (clean (merge socket file_values (env_overrides environ) (cli_values args)))
        (λ cleaned. some (update defaults cleaned))
