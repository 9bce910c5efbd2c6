-- ===== src/Daemon/Watching.antt =====
-- blemees_agent/daemon.py: `agent.close`, `agent.ping`, `agent.watch`, `agent.unwatch`, and the end of
-- a connection.
use blemees_daemon.Prelude.{
  ℕ, ◌==◌, not, Bool, false, Option, none, some, ◌∷◌, String, select, if◌then◌else◌,
}
use blemees_daemon.Json.{bool, str, num, end, field}
use blemees_daemon.Errors.{session_unknown_error, session_unknown}
use blemees_daemon.EventLog.{Frame}
use blemees_daemon.Protocol.{CloseMessage, WatchMessage, UnwatchMessage, PingMessage}
use blemees_daemon.Session.{Session, Attached, add_watcher, remove_watcher, broadcast_to_watchers}
use blemees_daemon.Table.{
  try_get, store, remove, detach_all_for_connection, remove_all_watchers_for_connection,
}
use blemees_daemon.Daemon.{
  Connection, Daemon, Outside, env, change_connection, emit_frame, emit_sent, error_frame, or_null,
  unexpected, Outcome, done, fail, drop_text, disown, owns,
}

unfoldable pub closed_frame : CloseMessage → Frame
closed_frame m =
    field "type" (str "agent.closed")
      (field "id" (or_null m.id) (field "session_id" (str m.session_id) end))

unfoldable pub session_closed_frame : String → Frame
session_closed_frame sid =
    field "type" (str "agent.session_closed")
      (field "session_id" (str sid) (field "reason" (str "owner_closed") end))

unfoldable pub tell_watchers : Outside → String → Option Session → Daemon → Daemon
unfolding session_closed_frame emit_sent broadcast_to_watchers store
tell_watchers o sid none d = d
tell_watchers o sid (some s) d =
    let (s', sent) = broadcast_to_watchers (env o) s (session_closed_frame sid) in
    emit_sent sent (record d { table = store s' d.table })

unfoldable pub remove_session : String → Bool → Daemon → Daemon
unfolding remove
remove_session sid delete d = record d { table = (remove sid delete d.table).0 }

-- Connection._handle_close
unfoldable pub handle_close : Outside → ℕ → CloseMessage → Daemon → Outcome
unfolding owns disown tell_watchers remove_session closed_frame emit_frame try_get
handle_close o id m d =
    if owns id m.session_id d
    then (let d' = record d {
      connections = change_connection id (disown m.session_id) d.connections;
    } in
        let told = tell_watchers o m.session_id (try_get d'.table m.session_id) d' in
        done (emit_frame id (closed_frame m) (remove_session m.session_id m.delete told)))
    else done (emit_frame id (closed_frame m) d)

unfoldable pub pong_frame : PingMessage → Frame
pong_frame m =
    field "type" (str "agent.pong")
      (field "id" (or_null m.id) (elim m.ping_data [ none ↦ end | some v ↦ field "data" v end ]))

-- Connection._handle_ping
unfoldable pub handle_ping : ℕ → PingMessage → Daemon → Outcome
unfolding pong_frame emit_frame
handle_ping id m d = done (emit_frame id (pong_frame m) d)

unfoldable pub watching_frame : WatchMessage → Session → Frame
watching_frame m s = field "type" (str "agent.watching") (
    field "id" (or_null m.id)
      (field "session_id" (str m.session_id) (field "last_seq" (num s.seq) end)))

unfoldable pub watch_session : String → Connection → Connection
unfolding drop_text
watch_session sid c = record c { watched = sid ∷ drop_text sid c.watched }

unfoldable pub finish_watch : ℕ → String → Attached → Daemon → Outcome
unfolding emit_sent store watch_session
finish_watch id sid a d =
    let d' = emit_sent a.sent (record d { table = store a.session d.table }) in
    elim a.summary [
      | none ↦ fail unexpected d'
      | some _ ↦
          done (record d' { connections = change_connection id (watch_session sid) d'.connections })
    ]

-- Connection._handle_watch
unfoldable pub handle_watch : Outside → ℕ → WatchMessage → Daemon → Outcome
unfolding watching_frame finish_watch error_frame emit_frame try_get
handle_watch o id m d = elim (try_get d.table m.session_id) [
  | none ↦ done (
      emit_frame id
        (error_frame session_unknown (o.wording (session_unknown_error m.session_id)) (or_null m.id)
          (str m.session_id))
        d)
  | some s ↦
      finish_watch id m.session_id (add_watcher (env o) s id id m.last_seen_seq)
        (emit_frame id (watching_frame m s) d)
]

unfoldable pub unwatch_session : String → Connection → Connection
unfolding drop_text
unwatch_session sid c = record c { watched = drop_text sid c.watched }

unfoldable pub unwatched_frame : UnwatchMessage → Bool → Frame
unwatched_frame m was_watching = field "type" (str "agent.unwatched") (
    field "id" (or_null m.id)
      (field "session_id" (str m.session_id) (field "was_watching" (bool was_watching) end)))

unfoldable pub finish_unwatch : ℕ → UnwatchMessage → Bool → Daemon → Outcome
unfolding unwatch_session unwatched_frame emit_frame
finish_unwatch id m removed d = done (
    emit_frame id (unwatched_frame m removed) (record d {
      connections = change_connection id (unwatch_session m.session_id) d.connections;
    }))

-- Connection._handle_unwatch
unfoldable pub handle_unwatch : ℕ → UnwatchMessage → Daemon → Outcome
unfolding finish_unwatch remove_watcher store try_get
handle_unwatch id m d = elim (try_get d.table m.session_id) [
  | none ↦ finish_unwatch id m false d
  | some s ↦
      let (s', removed) = remove_watcher id s in
      finish_unwatch id m removed (record d { table = store s' d.table })
]

-- The end of `serve`: the sessions that the connection owns are detached, its watches dropped, and
-- the daemon forgets it.
unfoldable pub close_connection : Outside → ℕ → Daemon → Daemon
unfolding detach_all_for_connection remove_all_watchers_for_connection select
close_connection o id d =
    let detached = (detach_all_for_connection o.now id d.table).0 in
    record d {
      table = (remove_all_watchers_for_connection id detached).0;
      connections = select (λ e. not (e.0 == id)) d.connections;
    }
