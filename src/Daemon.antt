-- ===== src/Daemon.antt =====
-- blemees_agent/daemon.py: the connections, the sessions that they own and watch, and what the
-- handlers share. A handler runs to its end between two others: its waits are not split.
pub mod Opening
pub mod Turns
pub mod Watching
pub mod Listing
pub mod Info
pub mod Dispatch
pub mod Ownership
pub mod Failures
pub mod Sound
pub mod Reach
pub mod Leaving
pub mod Takeover
use blemees_daemon.Prelude.{
  ℕ, suc, ◌+◌, ◌==◌, ◌&&◌, ◌||◌, not, Bool, true, false, Option, none, some, List, [], ◌∷◌, ◌++◌,
  String, str_eq, any, select, if◌then◌else◌, is_some,
}
use blemees_daemon.Json.{
  Value, Fields, null, bool, str, num, obj, end, field, get, insert, update, get_str,
}
use blemees_daemon.Errors.{
  Code, BlemeesError, Result, ok, err, code_of, code_text, session_exists_error,
  session_unknown_error, session_busy_error, spawn_failed_error, protocol_error, unexpected_fields,
  session_unknown, invalid_message, unknown_message, internal, spawn_failed,
}
use blemees_daemon.EventLog.{Codec, Frame}
use blemees_daemon.Protocol.{
  OpenMessage, UserMessage, InterruptMessage, CloseMessage, WatchMessage, UnwatchMessage,
  PingMessage,
}
use blemees_daemon.Session.{
  Session, BackendView, Env, Sent, Writer, Attached, attach, add_watcher, remove_watcher, on_event,
  broadcast_to_watchers, record_user_message,
}
use blemees_daemon.Table.{
  Table, find, register, new_session, try_get, get_session, store, remove,
  detach_all_for_connection, remove_all_watchers_for_connection,
}

-- One client's connection. `queue` holds what waits for the writer task, oldest first.
pub record Connection : Type 0 where
  pub alive : Bool
  pub owned : List String
  pub watched : List String
  pub peer_pid : Option ℕ
  pub queue : List Frame

pub record Daemon : Type 0 where
  pub table : Table
  pub connections : List (ℕ × Connection)

-- An exception that a handler lets through, or another one than the program's own.
pub data Failure : Type 0 where
  known : BlemeesError → Failure
  unexpected : Failure

-- The backends as a handler meets them: the construction of a backend, which checks an open's options,
-- with the exception that it raises; the spawn of a child (`none` is a SpawnFailedError), one user
-- turn, and an interrupt, which may raise as well, since it starts the child again. Each call that
-- changes the child returns its new view.
pub record Backends : Type 0 where
  pub validate : OpenMessage → Option Failure
  pub spawn : OpenMessage → Bool → Option String → Option BackendView
  pub send_user_turn : BackendView → Fields → Option BlemeesError × BackendView
  pub interrupt : BackendView → Result Bool × BackendView

-- The outside of one handler: the backends, the codec, the clocks, whether the daemon's files can
-- be written, and the wording of an exception.
pub record Outside : Type 0 where
  pub backends : Backends
  pub codec : Codec
  pub now : ℕ
  pub now_ms : ℕ
  pub log_writable : Bool
  pub sidecar_writable : Bool
  pub wording : BlemeesError → String

-- The writer callback of a connection, `_enqueue_to_writer`, raises nothing.
abbrev pub env : Outside → Env
env o = record {
  codec = o.codec;
  accepts = λ w f. true;
  log_writable = o.log_writable;
  sidecar_writable = o.sidecar_writable;
  now_ms = o.now_ms;
}

unfoldable pub find_connection : ℕ → List (ℕ × Connection) → Option Connection
find_connection id [] = none
find_connection id ((j, c) ∷ cs) = if j == id then some c else find_connection id cs

unfoldable pub change_connection :
    ℕ → (Connection → Connection) → List (ℕ × Connection) → List (ℕ × Connection)
change_connection id f [] = []
change_connection id f ((j, c) ∷ cs) =
    if j == id then (j, f c) ∷ cs else (j, c) ∷ change_connection id f cs

-- {k: v for k, v in frame.items() if v is not None}
unfoldable pub strip_nulls : Fields → Fields
strip_nulls end = end
strip_nulls (field k null d) = strip_nulls d
strip_nulls (field k v d) = field k v (strip_nulls d)

unfoldable pub push_frame : Frame → Connection → Connection
unfolding strip_nulls
push_frame f c = if c.alive then record c { queue = c.queue ++ strip_nulls f ∷ [] } else c

-- Connection._emit_frame; a connection that is gone takes nothing.
unfoldable pub emit_frame : ℕ → Frame → Daemon → Daemon
unfolding push_frame change_connection
emit_frame id f d = record d { connections = change_connection id (push_frame f) d.connections }

-- The frames that a session handed to writers.
unfoldable pub emit_sent : Sent → Daemon → Daemon
unfolding emit_frame
emit_sent [] d = d
emit_sent ((w, f) ∷ rest) d = emit_sent rest (emit_frame w f d)

abbrev pub or_null : Option String → Value
or_null none = null
or_null (some s) = str s

-- protocol.error_frame; an absent id is null, and `_emit_frame` takes it out.
unfoldable pub error_frame : Code → String → Value → Value → Frame
unfolding code_text
error_frame code message id sid = field "type" (str "agent.error") (
    field "code" (str (code_text code))
      (field "message" (str message) (field "id" id (field "session_id" sid end))))

-- A handler keeps what it changed before it raised.
abbrev pub Outcome : Type 0
Outcome = Daemon × Option Failure

abbrev pub done : Daemon → Outcome
done d = (d, none)

abbrev pub fail : Failure → Daemon → Outcome
fail e d = (d, some e)

unfoldable pub own : String → Connection → Connection
own sid c = record c { owned = sid ∷ c.owned }

unfoldable pub drop_text : String → List String → List String
unfolding select
drop_text sid = select (λ x. not (str_eq x sid))

unfoldable pub disown : String → Connection → Connection
unfolding drop_text
disown sid c = record c { owned = drop_text sid c.owned }

-- msg.session_id in self._owned_sessions
unfoldable pub owns : ℕ → String → Daemon → Bool
unfolding find_connection
owns id sid d = elim (find_connection id d.connections) [
  | none ↦ false
  | some c ↦ any (λ x. str_eq x sid) c.owned
]

unfoldable pub spawn_failure_frame : Outside → Option String → String → Frame
unfolding error_frame
spawn_failure_frame o id sid =
    error_frame spawn_failed (o.wording spawn_failed_error) (or_null id) (str sid)
