-- ===== src/Tests/Frontends.antt =====
-- Witnesses for the parser of messages and the options of the Claude backend.
use blemees_daemon.Claude.Limiter.{new_limiter}
use blemees_daemon.Claude.Limiter.Window.{recent, run, length-recent-run}
use blemees_daemon.Claude.Options.Safety.{IsPlain, Safe, option_argv-Safe}
use blemees_daemon.Claude.Options.{
  validate_options, check_keys, check_values, check_value, check_text, is_unsafe,
}
use blemees_daemon.Json.{is_in, Fields, str, obj, field, get, keys, end}
use blemees_daemon.Errors.{ok}
use blemees_daemon.Protocol.{
  OpenMessage, parse_open, contains, is_known_backend, backend_block, truthy,
}
use blemees_daemon.Protocol.Opens.{IsOpen, parse_open-IsOpen}
use blemees_daemon.Claude.Options.{
  Printer, build_argv, argv_to_resume, option_argv, add_value, add_list, add_each, add_json,
  add_switch, add_off, text_of,
}
use blemees_daemon.Claude.Options.Resume.{argv_to_resume-build_argv}
use blemees_daemon.Prelude.{
  arith, ℕ, ◌≤◌, length, String, List, ◌≡◌, refl, [], ◌∷◌, none, some, true, false,
}

abbrev open_fields : Fields
open_fields =
    field "type" (str "agent.open") (
      field "session_id" (str "a") (field "backend" (str "claude") (field "options" (obj end) end)))

abbrev parsed_open : OpenMessage
parsed_open = record {
  id = none;
  session_id = "a";
  backend = "claude";
  options = end;
  resume = false;
  last_seen_seq = none;
  alias = none;
}

parsed_ok : parse_open open_fields ≡ ok parsed_open
unfolding parse_open contains is_known_backend get keys backend_block truthy
parsed_ok = refl

parse_open-IsOpen_example : IsOpen open_fields parsed_open
parse_open-IsOpen_example = parse_open-IsOpen open_fields parsed_open parsed_ok

abbrev printer : Printer
printer = record { to_text = λ v. ""; dumps = λ v. "" }

abbrev model_options : Fields
model_options = field "model" (str "sonnet") end

abbrev new_argv : List String
new_argv =
    "claude" ∷ "-p" ∷ "--verbose" ∷ "--session-id" ∷ "a" ∷ "--input-format" ∷ "stream-json"
    ∷ "--output-format" ∷ "stream-json" ∷ "--model" ∷ "sonnet" ∷ []

argv_to_resume-build_argv_example :
    build_argv printer (λ s. []) "claude" "a" model_options true
    ≡ some (argv_to_resume new_argv "a")
unfolding build_argv option_argv get is_in add_value add_list add_each add_json add_switch add_off
    text_of
argv_to_resume-build_argv_example =
    argv_to_resume-build_argv printer (λ s. []) "claude" "a" model_options
      ("--model" ∷ "sonnet" ∷ []) new_argv refl refl refl refl

printer-IsPlain : IsPlain printer (λ s. [])
unfolding is_unsafe is_in
printer-IsPlain = record { to_text = λ v e. refl; dumps = λ v. refl; parts = λ s. tt }

option_argv-Safe_example : Safe ("--model" ∷ "sonnet" ∷ [])
unfolding option_argv get is_in add_value add_list add_each add_json add_switch add_off text_of
    validate_options check_keys check_values check_value check_text is_unsafe keys
option_argv-Safe_example =
    option_argv-Safe printer (λ s. []) model_options printer-IsPlain refl
      (record { disallowed = refl; dirs = refl; servers = refl; plugins = refl; betas = refl })

abbrev times : List ℕ
times = 1 ∷ 2 ∷ 3 ∷ 13 ∷ []

length-recent-run_example : length (recent 10 13 (run times (new_limiter 2 10)).1) ≤ 2
length-recent-run_example =
    length-recent-run 2 10 13 times
      (omega arith, (omega arith, (omega arith, (omega arith, omega arith))))
