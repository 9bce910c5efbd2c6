-- ===== src/Codex/Runtime/Rpc.antt =====
-- blemees_agent/backends/codex.py, CodexBackend: what the tasks do that read the child's stdout and stderr
-- and wait for its exit.
use blemees_daemon.Prelude.{
  ℕ, Bool, true, false, not, ◌&&◌, ◌||◌, ◌==◌, Option, none, some, List, [], ◌∷◌, ◌++◌, String,
  is_some, str_eq, if◌then◌else◌,
}
use blemees_daemon.Prelude.Int.{ℤ, pos, negsuc}
use blemees_daemon.Json.{
  Value, Fields, str, obj, get, insert, get_str, get_obj, get_int, and_then, as_int,
}
use blemees_daemon.Errors.{auth_failed, code_text}
use blemees_daemon.Frames.{Texts, is_text, or_empty, as_dict, notice}
use blemees_daemon.Backend.{error_frame}
use blemees_daemon.Codex.Events.{Translator, Translated}
use blemees_daemon.Codex.Results.{finalize_success, finalize_error, finalize_interrupted}
use blemees_daemon.Codex.Translate.{translate_event}
use blemees_daemon.Codex.Options.{looks_like_auth_failure}
use blemees_daemon.Codex.Runtime.{CodexBackend, Reply, waiting, failed, answered}
use Prim.Native.String.{◌++◌ as text_append}

-- The backend after a message, and the frames it gave to `_on_event`. A message on which the code raises
-- ends the reader; it keeps what it changed and emitted before.
abbrev pub Read : Type 0
Read = CodexBackend × List Fields

-- _emit_translated
unfoldable pub emitted : Fields → Fields
unfolding insert
emitted f = insert "backend" (str "codex") f

unfoldable pub adopt_thread : Option String → CodexBackend → CodexBackend
adopt_thread none b = b
adopt_thread (some thread) b =
    if is_some b.thread_id then b else record b { thread_id = some thread }

unfoldable pub thread_of_meta : Option Fields → Option String
thread_of_meta none = none
thread_of_meta (some meta) = get_str "threadId" meta

unfoldable pub request_of_meta : Option Fields → Option ℤ
request_of_meta none = none
request_of_meta (some meta) = get_int "requestId" meta

-- n == id, of a number of the child and an id of the backend
unfoldable pub is_id : ℤ → ℕ → Bool
is_id (pos n) id = n == id
is_id (negsuc n) id = false

unfoldable pub differs : Option ℤ → Option ℕ → Bool
unfolding is_id
differs (some request) (some id) = not (is_id request id)
differs none active = false
differs (some request) none = false

-- The event is tagged with another request than that of the turn.
unfoldable pub is_stale : Option Fields → CodexBackend → Bool
unfolding differs request_of_meta
is_stale meta b = differs (request_of_meta meta) b.active_turn_id

unfoldable pub thread_of_frame : Fields → Option String
unfolding is_text
thread_of_frame f =
    if is_text "agent.system_init" (get "type" f) then get_str "native_session_id" f else none

-- for frame in ...: the thread of an `agent.system_init` is taken, the frame emitted.
unfoldable pub emit_frames : List Fields → CodexBackend → Read
unfolding adopt_thread thread_of_frame emitted
emit_frames [] b = (b, [])
emit_frames (f ∷ fs) b =
    let (last, rest) = emit_frames fs (adopt_thread (thread_of_frame f) b) in
    (last, emitted f ∷ rest)

-- The end of a turn, with the translator's frame.
unfoldable pub end_turn : Translator × Fields → CodexBackend → Read
unfolding emitted
end_turn (translator, frame) b = (
  record b {
    translator = translator;
    turn_active = false;
    active_turn_id = none;
    cancel_active = false;
  },
  emitted frame ∷ [],
)

-- `turn_aborted` ends the turn.
unfoldable pub end_aborted : Bool → CodexBackend → Read
unfolding end_turn finalize_interrupted
end_aborted aborted b =
    if aborted && b.turn_active then end_turn (finalize_interrupted b.translator) b else (b, [])

unfoldable pub emit_event : Bool → Translated → CodexBackend → Read
unfolding emit_frames end_aborted
emit_event aborted (translator, none) b = (record b { translator = translator }, [])
emit_event aborted (translator, some fs) b =
    let (shown, out) = emit_frames fs (record b { translator = translator }) in
    let (last, closing) = end_aborted aborted shown in (last, out ++ closing)

unfoldable pub translate_message : Texts → Fields → Option Fields → CodexBackend → Read
unfolding emit_event translate_event is_text
translate_message texts msg meta b =
    emit_event (is_text "turn_aborted" (get "type" msg))
      (translate_event texts b.translator msg meta) b

-- An event, of an object under `msg`.
unfoldable pub handle_event : Texts → Option Fields → Option Fields → CodexBackend → Read
unfolding adopt_thread thread_of_meta is_stale translate_message
handle_event texts none meta b = (b, [])
handle_event texts (some msg) meta b =
    let known = adopt_thread (thread_of_meta meta) b in
    if is_stale meta known then (known, []) else translate_message texts msg meta known

unfoldable pub handle_params : Texts → Option Fields → CodexBackend → Read
unfolding handle_event
handle_params texts none b = (b, [])
handle_params texts (some params) b =
    handle_event texts (get_obj "msg" params) (get_obj "_meta" params) b

-- _handle_notification
unfoldable pub handle_notification : Texts → String → Value → CodexBackend → Read
unfolding handle_params as_dict emitted notice
handle_notification texts method params b =
    if str_eq method "codex/event" || str_eq method "notifications/codex/event"
    then handle_params texts (as_dict params) b
    else (b, emitted (notice (text_append "codex_notif_" method)) ∷ [])

abbrev pub auth_message : String
auth_message = "Run `codex login` to re-authenticate."

unfoldable pub report_auth : Bool → CodexBackend → Read
unfolding code_text error_frame
report_auth is_failure b =
    if not b.auth_emitted && is_failure
    then (
      record b { auth_emitted = true },
      error_frame "codex" b.session_id (code_text auth_failed) auth_message ∷ [],
    )
    else (b, [])

-- _maybe_emit_auth_error
unfoldable pub maybe_emit_auth_error : Texts → Value → CodexBackend → Read
unfolding report_auth looks_like_auth_failure
maybe_emit_auth_error texts e b = report_auth (looks_like_auth_failure texts e) b

unfoldable pub fail_turn : Texts → Value → CodexBackend → Read
unfolding maybe_emit_auth_error end_turn finalize_error as_dict
fail_turn texts e b =
    let (told, errors) = maybe_emit_auth_error texts e b in
    let (last, out) = end_turn (finalize_error (as_dict e) told.translator) told in
    (last, errors ++ out)

-- _handle_turn_response
unfoldable pub handle_turn_response : Texts → Fields → CodexBackend → Read
unfolding end_turn finalize_interrupted finalize_success fail_turn or_empty
handle_turn_response texts message b =
    if b.cancel_active
    then end_turn (finalize_interrupted b.translator) b
    else (if is_some (get "error" message)
        then fail_turn texts (or_empty (get "error" message)) b
        else end_turn (finalize_success b.translator) b)

-- _RpcError, of an error that is an object; another one raises.
unfoldable pub failure_of : Value → Option Reply
failure_of (obj e) = some (failed (obj e))
failure_of _ = none

unfoldable pub reply_of : Fields → Option Reply
unfolding or_empty failure_of
reply_of message =
    if is_some (get "error" message)
    then failure_of (or_empty (get "error" message))
    else some (answered (or_empty (get "result" message)))

unfoldable pub set_if_waiting : Reply → Reply → Reply
set_if_waiting reply waiting = reply
set_if_waiting reply (failed e) = failed e
set_if_waiting reply (answered v) = answered v

unfoldable pub resolve : ℤ → Option Reply → List (ℕ × Reply) → List (ℕ × Reply)
unfolding is_id set_if_waiting
resolve n none pending = pending
resolve n (some reply) [] = []
resolve n (some reply) ((id, old) ∷ rest) =
    let after = resolve n (some reply) rest in
    if is_id n id then (id, set_if_waiting reply old) ∷ rest else (id, old) ∷ after

unfoldable pub is_active_id : ℤ → Option ℕ → Bool
unfolding is_id
is_active_id n none = false
is_active_id n (some id) = is_id n id

-- A response, by its id.
unfoldable pub handle_response : Texts → Option ℤ → Fields → CodexBackend → Read
unfolding is_active_id handle_turn_response resolve reply_of
handle_response texts none message b = (b, [])
handle_response texts (some n) message b =
    if is_active_id n b.active_turn_id
    then handle_turn_response texts message b
    else (record b { pending = resolve n (reply_of message) b.pending }, [])

unfoldable pub dispatch_method : Texts → Option String → Fields → CodexBackend → Read
unfolding handle_notification handle_response or_empty
dispatch_method texts none message b =
    handle_response texts (and_then (get "id" message) as_int) message b
dispatch_method texts (some method) message b =
    if is_some (get "id" message)
    then handle_response texts (and_then (get "id" message) as_int) message b
    else handle_notification texts method (or_empty (get "params" message)) b

-- _dispatch_rpc
unfoldable pub dispatch_rpc : Texts → Fields → CodexBackend → Read
unfolding dispatch_method
dispatch_rpc texts message b = dispatch_method texts (get_str "method" message) message b
