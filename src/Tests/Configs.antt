-- ===== src/Tests/Configs.antt =====
-- A witness for the configuration.
use blemees_daemon.Prelude.{◌≡◌, refl, Option, none, some, String, str_eq, if◌then◌else◌}
use blemees_daemon.Prelude.Int.{ℤ, pos}
use blemees_daemon.Json.{Value, Fields, str, int, null, end, field, num, get, update}
use blemees_daemon.Config.{
  load, env_overrides, collect_env, put_env, cli_values, is_given, merge, clean, keep, coerce,
  is_field, defaults,
}
use blemees_daemon.Config.Precedence.{is_dict, over, read, chosen, get-load}

abbrev to_int : Value → Option ℤ
to_int (int n) = some n
to_int v = some (pos 5)

abbrev file_values : Fields
file_values = field "log_level" (str "debug") (field "ring_buffer_size" (num 16) end)

abbrev environ : String → Option String
environ name = if str_eq name "BLEMEES_AGENTD_LOG_LEVEL" then some "error" else none

abbrev args : Fields
args = field "log_level" null (field "socket_path" (str "/tmp/s") end)

abbrev loaded : Fields
loaded = update defaults (
    field "log_level" (str "error")
      (field "ring_buffer_size" (num 16) (field "socket_path" (str "/tmp/s") end)))

get-load_example :
    get "log_level" loaded
    ≡ over
        (read to_int "log_level"
          (chosen "log_level" "/run/s" file_values (env_overrides environ) (cli_values args)))
        (get "log_level" defaults)
unfolding is_dict load merge env_overrides collect_env put_env cli_values is_given clean keep coerce
    is_field
get-load_example =
    get-load to_int "/run/s" file_values environ args "log_level" loaded refl refl refl
