-- ===== src/Daemon/Dispatch.antt =====
-- blemees_agent/daemon.py: the routing of a frame to its handler, the reply to an exception, and the
-- steps of the whole daemon.
use blemees_daemon.Prelude.{
  ℕ, Bool, true, false, Option, none, some, [], ◌∷◌, String, str_eq, if◌then◌else◌,
}
use blemees_daemon.Json.{Value, Fields, null, get, get_str}
use blemees_daemon.Errors.{
  BlemeesError, Result, ok, err, code_of, protocol_error, unexpected_fields, unsafe_flag_error,
  unknown_backend_error, invalid_message, unknown_message, internal,
}
use blemees_daemon.EventLog.{Frame}
use blemees_daemon.Protocol.{
  parse_open, parse_user, parse_interrupt, parse_close, parse_list_sessions, parse_ping,
  parse_status, parse_watch, parse_unwatch, parse_session_info,
}
use blemees_daemon.Session.{on_event, BackendView}
use blemees_daemon.Table.{try_get, store, reap_idle}
use blemees_daemon.Daemon.{
  Daemon, Connection, Outside, env, emit_frame, emit_sent, error_frame, Failure, known, unexpected,
  Outcome, done, fail,
}
use blemees_daemon.Daemon.Opening.{handle_open}
use blemees_daemon.Daemon.Turns.{handle_user, handle_interrupt}
use blemees_daemon.Daemon.Watching.{handle_close, handle_ping, handle_watch, handle_unwatch}
use blemees_daemon.Daemon.Listing.{DiskRows, sessions_frame}
use blemees_daemon.Daemon.Info.{InfoSources, StatusSource, handle_session_info, handle_status}

-- All that a frame's handling reads from outside.
pub record World : Type 0 where
  pub outside : Outside
  pub disk_rows : DiskRows
  pub info_sources : InfoSources
  pub status_source : StatusSource

-- A handler behind its parser.
unfoldable pub parsed {ℓ} : {A : Type ℓ} → Result A → (A → Daemon → Outcome) → Daemon → Outcome
parsed (ok m) handler d = handler m d
parsed (err e) handler d = fail (known e) d

unfoldable pub value_or_null : Option Value → Value
value_or_null none = null
value_or_null (some v) = v

unfoldable pub reply_invalid : Outside → ℕ → Fields → String → Daemon → Outcome
unfolding value_or_null emit_frame error_frame
reply_invalid o id f message d =
    done (emit_frame id (error_frame invalid_message message (value_or_null (get "id" f)) null) d)

-- The reply's text leaves out the type that it quotes.
unfoldable pub reply_unknown : ℕ → Fields → Daemon → Outcome
unfolding value_or_null emit_frame error_frame
reply_unknown id f d = done (
    emit_frame id
      (error_frame unknown_message "unknown message type" (value_or_null (get "id" f)) null) d)

-- The `if` chain of `_dispatch`, on the type of the frame.
unfoldable pub route : World → ℕ → String → Fields → Daemon → Outcome
unfolding parsed reply_invalid reply_unknown handle_open handle_user handle_interrupt handle_close
    handle_ping handle_watch handle_unwatch handle_session_info handle_status sessions_frame
route w id t f d =
    if str_eq t "agent.open"
    then parsed (parse_open f) (handle_open w.outside id) d
    else (if str_eq t "agent.user"
        then parsed (parse_user f) (handle_user w.outside id) d
        else (if str_eq t "agent.interrupt"
            then parsed (parse_interrupt f) (handle_interrupt w.outside id) d
            else (if str_eq t "agent.close"
                then parsed (parse_close f) (handle_close w.outside id) d
                else (if str_eq t "agent.list_sessions"
                    then parsed (parse_list_sessions f)
                        (λ m d'. done (emit_frame id (sessions_frame w.disk_rows m d') d')) d
                    else (if str_eq t "agent.ping"
                        then parsed (parse_ping f) (handle_ping id) d
                        else (if str_eq t "agent.status"
                            then parsed (parse_status f) (handle_status w.status_source id) d
                            else (if str_eq t "agent.watch"
                                then parsed (parse_watch f) (handle_watch w.outside id) d
                                else (if str_eq t "agent.unwatch"
                                    then parsed (parse_unwatch f) (handle_unwatch id) d
                                    else (if str_eq t "agent.session_info"
                                        then parsed (parse_session_info f)
                                            (handle_session_info w.outside w.info_sources id) d
                                        else (if str_eq t "agent.hello"
                                            then reply_invalid w.outside id f "duplicate hello" d
                                            else reply_unknown id f d))))))))))

-- Errors of these classes are answered without the session's id.
unfoldable pub hides_session : BlemeesError → Bool
hides_session (unsafe_flag_error _) = true
hides_session (unknown_backend_error _) = true
hides_session (protocol_error _) = true
hides_session (unexpected_fields _) = true
hides_session _ = false

-- The `except` clauses of `_dispatch`; the text of an unexpected exception is left out.
unfoldable pub failure_frame : Outside → Fields → Failure → Frame
unfolding hides_session value_or_null error_frame
failure_frame o f (known e) =
    error_frame (code_of e) (o.wording e) (value_or_null (get "id" f))
      (if hides_session e then null else value_or_null (get "session_id" f))
failure_frame o f unexpected = error_frame internal "internal error" null null

unfoldable pub answer_failure : Outside → ℕ → Fields → Outcome → Daemon
unfolding failure_frame emit_frame
answer_failure o id f (d, none) = d
answer_failure o id f (d, some e) = emit_frame id (failure_frame o f e) d

unfoldable pub type_of : Option String → String
type_of none = ""
type_of (some t) = t

-- Connection._dispatch, of a frame whose type is a text
unfoldable pub dispatch : World → ℕ → Fields → Daemon → Daemon
unfolding route answer_failure type_of
dispatch w id f d = answer_failure w.outside id f (route w id (type_of (get_str "type" f)) f d)

-- A backend emitted an event for its session.
unfoldable pub backend_event : Outside → String → Frame → Daemon → Daemon
unfolding on_event emit_sent store try_get
backend_event o sid f d = elim (try_get d.table sid) [
  | none ↦ d
  | some s ↦
      let r = on_event (env o) s f in
      emit_sent r.sent (record d { table = store r.session d.table })
]

-- The child of a session changed: it exited, was closed, or its turn ended.
unfoldable pub backend_change : String → BackendView → Daemon → Daemon
unfolding store try_get
backend_change sid b d = elim (try_get d.table sid) [
  | none ↦ d
  | some s ↦ record d { table = store (record s { backend = some b }) d.table }
]

unfoldable pub new_connection : Option ℕ → Connection
new_connection pid = record { alive = true; owned = []; watched = []; peer_pid = pid; queue = [] }

-- Daemon._on_client after the handshake, with the next connection id
unfoldable pub accept : ℕ → Option ℕ → Daemon → Daemon
unfolding new_connection
accept id pid d = record d { connections = (id, new_connection pid) ∷ d.connections }

unfoldable pub reap : ℕ → Daemon → Daemon
unfolding reap_idle
reap now d = record d { table = (reap_idle now d.table).0 }
