-- ===== src/Codex/Runtime.antt =====
-- blemees_agent/backends/codex.py, CodexBackend: the state of a child that speaks JSON-RPC, and the calls
-- that the daemon makes. The lines written to the child are kept; its process is its exit code.
pub mod Handshake
pub mod Rpc
pub mod Readers
pub mod Steps
pub mod Balance
pub mod Ledger
pub mod Turns
pub mod Stale
pub mod Late
use blemees_daemon.Prelude.{
  ℕ, suc, Bool, true, false, Option, none, some, List, [], ◌∷◌, ◌++◌, map, String, if◌then◌else◌,
}
use blemees_daemon.Json.{Value, Fields, str, obj, end, field, get, insert, num}
use blemees_daemon.Errors.{BlemeesError, spawn_failed_error, session_busy_error, protocol_error}
use blemees_daemon.Protocol.{truthy}
use blemees_daemon.Backend.{Child, absent, is_live}
use blemees_daemon.Claude.Limiter.{Limiter, new_limiter}
use blemees_daemon.Codex.Events.{Translator, new_translator}
use blemees_daemon.Codex.Options.{flatten_content_to_text, build_codex_tool_args}

-- What a future of `_pending` is set to.
pub data Reply : Type 0 where
  waiting : Reply
  failed : Value → Reply
  answered : Value → Reply

pub record CodexBackend : Type 0 where
  pub session_id : String
  pub options : Fields
  pub proc : Child
  pub written : List Fields
  pub turn_active : Bool
  pub closing : Bool
  pub stderr_tail : List String
  pub stderr_limit : Limiter
  pub next_id : ℕ
  pub pending : List (ℕ × Reply)
  pub active_turn_id : Option ℕ
  pub thread_id : Option String
  pub translator : Translator
  pub initialized : Bool
  pub auth_emitted : Bool
  pub cancel_active : Bool

unfoldable pub flag_of : Option Value → Bool
unfolding truthy
flag_of none = false
flag_of (some v) = truthy v

-- CodexBackend(session_id, options, include_raw_events, stderr_rate_lines, stderr_rate_window_s, thread_id)
unfoldable pub new_backend : String → Fields → Bool → ℕ → ℕ → Option String → CodexBackend
unfolding new_limiter new_translator flag_of
new_backend session_id options include_raw lines window thread_id = record {
  session_id = session_id;
  options = options;
  proc = absent;
  written = [];
  turn_active = false;
  closing = false;
  stderr_tail = [];
  stderr_limit = new_limiter lines window;
  next_id = 1;
  pending = [];
  active_turn_id = none;
  thread_id = thread_id;
  translator = new_translator include_raw (flag_of (get "user_echo" options));
  initialized = false;
  auth_emitted = false;
  cancel_active = false;
}

-- running
unfoldable pub running : CodexBackend → Bool
unfolding is_live
running b = is_live b.proc

-- _allocate_id, which gives the id that was next
unfoldable pub allocate_id : CodexBackend → CodexBackend
allocate_id b = record b { next_id = suc b.next_id }

unfoldable pub with_params : Option Fields → Fields → Fields
unfolding insert
with_params none f = f
with_params (some params) f = insert "params" (obj params) f

-- _write_line
unfoldable pub write_line : Fields → CodexBackend → CodexBackend
write_line line b = record b { written = b.written ++ line ∷ [] }

-- _write_request
unfoldable pub write_request : ℕ → String → Option Fields → CodexBackend → CodexBackend
unfolding write_line with_params
write_request id method params b =
    write_line
      (with_params params
        (field "jsonrpc" (str "2.0") (field "id" (num id) (field "method" (str method) end))))
      b

-- _send_notification
unfoldable pub send_notification : String → Option Fields → CodexBackend → CodexBackend
unfolding write_line with_params
send_notification method params b =
    write_line (with_params params (field "jsonrpc" (str "2.0") (field "method" (str method) end)))
      b

-- The tool of a turn: the first one starts the thread, the others go on with it.
unfoldable pub tool_call : Option String → Fields → String → Fields
unfolding build_codex_tool_args
tool_call none options prompt =
    field "name" (str "codex") (field "arguments" (obj (build_codex_tool_args options prompt)) end)
tool_call (some thread) options prompt =
    field "name" (str "codex-reply") (
      field "arguments" (obj (field "prompt" (str prompt) (field "threadId" (str thread) end))) end)

unfoldable pub begin_turn : String → CodexBackend → CodexBackend
unfolding allocate_id write_request tool_call
begin_turn prompt b =
    write_request b.next_id "tools/call" (some (tool_call b.thread_id b.options prompt))
      (record (allocate_id b) { turn_active = true; active_turn_id = some b.next_id })

-- The turn of a prompt; `none` where the message has a block that is no text.
unfoldable pub prompt_turn :
    Bool → Option String → CodexBackend → CodexBackend × Option BlemeesError
unfolding begin_turn
prompt_turn drained none b = (b, some (protocol_error "codex backend accepts text-only content"))
prompt_turn drained (some prompt) b = if drained then (begin_turn prompt b, none) else (
  record (begin_turn prompt b) { turn_active = false; active_turn_id = none },
  some spawn_failed_error,
)

-- send_user_turn, on a pipe that takes the line or is broken
unfoldable pub send_user_turn : Bool → Fields → CodexBackend → CodexBackend × Option BlemeesError
unfolding running prompt_turn
send_user_turn drained message b =
    if running b
    then (if b.turn_active
        then (b, some (session_busy_error b.session_id))
        else prompt_turn drained (flatten_content_to_text (get "content" message)) b)
    else (b, some spawn_failed_error)

unfoldable pub cancel_turn : Option ℕ → CodexBackend → CodexBackend × Bool
unfolding send_notification
cancel_turn none b = (b, false)
cancel_turn (some id) b = (
  send_notification "notifications/cancelled"
      (some (field "requestId" (num id) (field "reason" (str "user_interrupt") end)))
      (record b { cancel_active = true }),
  true,
)

-- interrupt: a child whose pipe is broken is killed, and its exit follows.
unfoldable pub interrupt : CodexBackend → CodexBackend × Bool
unfolding cancel_turn
interrupt b = if b.turn_active then cancel_turn b.active_turn_id b else (b, false)

-- _RpcError("codex backend closed"), for the futures that are not done
unfoldable pub abandon : Reply → Reply
abandon waiting = failed (str "codex backend closed")
abandon (failed e) = failed e
abandon (answered v) = answered v

-- close, and the futures as they are left
unfoldable pub close : CodexBackend → CodexBackend × List (ℕ × Reply)
unfolding abandon
close b =
    (record b { closing = true; pending = [] }, map (λ (id, reply). (id, abandon reply)) b.pending)
