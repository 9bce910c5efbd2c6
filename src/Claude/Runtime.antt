-- ===== src/Claude/Runtime.antt =====
-- blemees_agent/backends/claude.py, ClaudeBackend: the state of a child and of its turn, and the calls
-- that the daemon makes. The frames given to `_on_event` are the result of a call; the child's process
-- and its pipes are its exit code and the lines written to it.
pub mod Readers
pub mod Steps
pub mod Balance
pub mod Calls
pub mod Ledger
pub mod Exits
pub mod Orderly
pub mod Muted
use blemees_daemon.Prelude.{
  ℕ, ◌-◌, Bool, true, false, Option, none, some, List, [], ◌∷◌, ◌++◌, String, leb, if◌then◌else◌,
}
use blemees_daemon.Prelude.Int.{ℤ}
use blemees_daemon.Json.{Fields, str, obj, end, field, get, insert, set_default, num}
use blemees_daemon.Errors.{BlemeesError, spawn_failed_error, session_busy_error}
use blemees_daemon.Backend.{Child, absent, live, is_live}
use blemees_daemon.Claude.Limiter.{Limiter, new_limiter}
use blemees_daemon.Claude.Options.{argv_to_resume}

pub record ClaudeBackend : Type 0 where
  pub session_id : String
  pub argv : List String
  pub options : Fields
  pub include_raw : Bool
  pub proc : Child
  pub written : List Fields
  pub turn_active : Bool
  pub closing : Bool
  pub stderr_tail : List String
  pub auth_emitted : Bool
  pub stderr_limit : Limiter
  pub current_turn_id : Option String
  pub turn_started_at_ms : Option ℕ
  pub first_token_at_ms : Option ℕ
  pub turn_finalized : Bool
  pub system_init_emitted : Bool
  pub pending_task_started : Option Fields
  -- The result that a running `interrupt` has built and not yet emitted.
  pub synth : Option Fields

-- ClaudeBackend(session_id, argv, options, include_raw_events, stderr_rate_lines, stderr_rate_window_s)
unfoldable pub new_backend : String → List String → Fields → Bool → ℕ → ℕ → ClaudeBackend
unfolding new_limiter
new_backend session_id argv options include_raw lines window = record {
  session_id = session_id;
  argv = argv;
  options = options;
  include_raw = include_raw;
  proc = absent;
  written = [];
  turn_active = false;
  closing = false;
  stderr_tail = [];
  auth_emitted = false;
  stderr_limit = new_limiter lines window;
  current_turn_id = none;
  turn_started_at_ms = none;
  first_token_at_ms = none;
  turn_finalized = false;
  system_init_emitted = false;
  pending_task_started = none;
  synth = none;
}

-- The backend after a call, the frames it emitted, and the exception that it raised.
abbrev pub Called : Type 0
Called = ClaudeBackend × List Fields × Option BlemeesError

-- running
unfoldable pub running : ClaudeBackend → Bool
unfolding is_live
running b = is_live b.proc

-- spawn, of a child that can be launched or not
unfoldable pub spawn : Bool → ClaudeBackend → ClaudeBackend × Option BlemeesError
spawn launched b =
    let fresh = record b { system_init_emitted = false; pending_task_started = none } in
    if launched then (record fresh { proc = live }, none) else (fresh, some spawn_failed_error)

-- respawn_with_resume
unfoldable pub respawn_with_resume : Bool → ClaudeBackend → ClaudeBackend × Option BlemeesError
unfolding spawn
respawn_with_resume launched b =
    spawn launched (record b { argv = argv_to_resume b.argv b.session_id })

-- _reset_turn_state
unfoldable pub reset_turn_state : ClaudeBackend → ClaudeBackend
reset_turn_state b = record b {
  current_turn_id = none;
  turn_started_at_ms = none;
  first_token_at_ms = none;
}

unfoldable pub stamp_turn_id : Option String → Fields → Fields
unfolding set_default
stamp_turn_id none f = f
stamp_turn_id (some id) f = set_default "turn_id" (str id) f

unfoldable pub stamp_first_token : Option ℕ → Option ℕ → Fields → Fields
unfolding set_default
stamp_first_token (some first) (some started) f =
    if leb started first then set_default "time_to_first_token_ms" (num (first - started)) f else f
stamp_first_token none started f = f
stamp_first_token (some first) none f = f

-- _stamp_turn_metadata
unfoldable pub stamp_turn_metadata : ClaudeBackend → Fields → Fields
unfolding stamp_turn_id stamp_first_token
stamp_turn_metadata b f =
    stamp_first_token b.first_token_at_ms b.turn_started_at_ms (stamp_turn_id b.current_turn_id f)

unfoldable pub with_error : Option Fields → Fields → Fields
unfolding insert
with_error none f = f
with_error (some e) f = insert "error" (obj e) f

-- _build_synth_result
unfoldable pub build_synth_result : String → Option Fields → ClaudeBackend → Fields
unfolding with_error stamp_turn_metadata
build_synth_result subtype error b = stamp_turn_metadata b (
    with_error error (
      field "type" (str "agent.result") (
        field "subtype" (str subtype)
          (field "num_turns" (num 1) (field "backend" (str "claude") end)))))

-- build_user_stdin_line, before it is encoded
unfoldable pub build_user_stdin_line : String → Fields → Fields
build_user_stdin_line session_id message =
    field "type" (str "user")
      (field "message" (obj message) (field "session_id" (str session_id) end))

unfoldable pub task_started_notice : String → ℕ → Fields
task_started_notice turn_id now = field "type" (str "agent.notice") (
    field "level" (str "info") (
      field "category" (str "task_started") (
        field "data" (obj (field "turn_id" (str turn_id) (field "started_at_ms" (num now) end)))
          (field "backend" (str "claude") end))))

-- The turn that a line on the child's stdin begins.
unfoldable pub begin_turn : String → ℕ → Fields → ClaudeBackend → ClaudeBackend
unfolding build_user_stdin_line
begin_turn turn_id now message b = record b {
  written = b.written ++ build_user_stdin_line b.session_id message ∷ [];
  turn_active = true;
  turn_finalized = false;
  current_turn_id = some turn_id;
  turn_started_at_ms = some now;
  first_token_at_ms = none;
}

-- The notice of a turn, now or after the next `agent.system_init`.
unfoldable pub announce : Fields → ClaudeBackend → Called
announce notice b =
    if b.system_init_emitted
    then (b, notice ∷ [], none)
    else (record b { pending_task_started = some notice }, [], none)

-- send_user_turn, with a new turn id, at a time, on a pipe that takes the line or is broken
unfoldable pub send_user_turn : String → ℕ → Bool → Fields → ClaudeBackend → Called
unfolding running begin_turn reset_turn_state announce task_started_notice
send_user_turn turn_id now drained message b =
    if running b
    then (if b.turn_active
        then (b, [], some (session_busy_error b.session_id))
        else (if drained
            then announce (task_started_notice turn_id now) (begin_turn turn_id now message b)
            else (
              reset_turn_state (record (begin_turn turn_id now message b) { turn_active = false }),
              [],
              some spawn_failed_error,
            )))
    else (b, [], some spawn_failed_error)

-- interrupt, up to the wait for the killed child
unfoldable pub begin_interrupt : ClaudeBackend → ClaudeBackend × Bool
unfolding build_synth_result
begin_interrupt b =
    if b.turn_active
    then (record b { synth = some (build_synth_result "interrupted" none b); closing = true }, true)
    else (b, false)

-- The interrupted turn, before the child is launched again.
unfoldable pub stop_turn : ClaudeBackend → ClaudeBackend
unfolding reset_turn_state
stop_turn b = record (reset_turn_state (record b { turn_active = false; turn_finalized = true })) {
  closing = false;
  synth = none;
}

unfoldable pub resumed : Fields → ClaudeBackend × Option BlemeesError → Called
resumed f (b, none) = (b, f ∷ [], none)
resumed f (b, some e) = (b, [], some e)

-- interrupt, from the end of the readers: the built result is emitted if the child runs again.
unfoldable pub finish_interrupt : Bool → Fields → ClaudeBackend → Called
unfolding stop_turn respawn_with_resume resumed
finish_interrupt launched f b = resumed f (respawn_with_resume launched (stop_turn b))

-- close
unfoldable pub close : ClaudeBackend → ClaudeBackend
close b = record b { closing = true }
