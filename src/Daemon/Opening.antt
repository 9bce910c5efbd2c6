-- ===== src/Daemon/Opening.antt =====
-- blemees_agent/daemon.py: `agent.open`, with takeover, spawn and attach.
use blemees_daemon.Prelude.{
  ℕ, ◌==◌, ◌||◌, not, Bool, true, false, Option, none, some, String, str_eq, if◌then◌else◌,
}
use blemees_daemon.Json.{Value, Fields, null, str, num, end, field}
use blemees_daemon.Errors.{Result, ok, err, session_exists_error}
use blemees_daemon.EventLog.{Frame}
use blemees_daemon.Protocol.{OpenMessage}
use blemees_daemon.Session.{Session, BackendView, Attached, attach}
use blemees_daemon.Table.{register, new_session, try_get, store, remove}
use blemees_daemon.Daemon.{
  Daemon, Outside, env, find_connection, change_connection, emit_frame, emit_sent, or_null, known,
  unexpected, Outcome, done, fail, own, disown, spawn_failure_frame,
}

unfoldable pub peer_pid_of : ℕ → Daemon → Value
unfolding find_connection
peer_pid_of id d = elim (find_connection id d.connections) [
  | none ↦ null
  | some c ↦ elim c.peer_pid [ none ↦ null | some pid ↦ num pid ]
]

unfoldable pub taken_frame : String → Value → Frame
taken_frame sid by_pid =
    field "type" (str "agent.session_taken")
      (field "session_id" (str sid) (field "by_peer_pid" by_pid end))

-- Connection.notify_session_taken
unfoldable pub notify_session_taken : ℕ → String → Value → Daemon → Daemon
unfolding disown emit_frame taken_frame
notify_session_taken prev sid by_pid d =
    emit_frame prev (taken_frame sid by_pid)
      (record d { connections = change_connection prev (disown sid) d.connections })

-- The takeover: an owner other than the caller is told.
unfoldable pub take_over : ℕ → Session → Daemon → Daemon
unfolding notify_session_taken peer_pid_of
take_over id s d = elim s.connection_id [
  | none ↦ d
  | some prev ↦
      if prev == id then d else notify_session_taken prev s.session_id (peer_pid_of id d) d
]

-- A session that is new to the table, or the one there with the new message.
unfoldable pub open_new : Outside → OpenMessage → Daemon → Daemon × Result (Option Session)
unfolding new_session register
open_new o m d = elim (new_session o.codec o.now_ms d.table m) [
  | none ↦ (d, ok none)
  | some s ↦ elim (register d.table s) [
    | err e ↦ (d, err e)
    | ok t ↦ (record d { table = t }, ok (some s))
  ]
]

unfoldable pub acquire_session :
    Outside → ℕ → OpenMessage → Daemon → Daemon × Result (Option Session)
unfolding open_new try_get store
acquire_session o id m d = elim (try_get d.table m.session_id) [
  | none ↦ open_new o m d
  | some s ↦
      if m.resume
      then (let s' = record s { open_msg = m } in
          (record (take_over id s d) { table = store s' d.table }, ok (some s')))
      else (d, err (session_exists_error m.session_id))
]

-- sess.backend is None or not sess.backend.running
abbrev pub needs_spawn : Session → Bool
needs_spawn s = elim s.backend [ none ↦ true | some b ↦ not b.running ]

unfoldable pub pid_of : Option BackendView → Value
pid_of none = null
pid_of (some b) = elim b.pid [ none ↦ null | some n ↦ num n ]

-- Only where the backend's own id is known and another one.
unfoldable pub native_field : String → Option String → Fields
native_field sid none = end
native_field sid (some n) =
    if str_eq n "" || str_eq n sid then end else field "native_session_id" (str n) end

unfoldable pub opened_frame : OpenMessage → Session → Frame
unfolding pid_of native_field
opened_frame m s = field "type" (str "agent.opened") (
    field "id" (or_null m.id) (
      field "session_id" (str m.session_id) (
        field "backend" (str m.backend) (
          field "subprocess_pid" (pid_of s.backend)
            (field "last_seq" (num s.seq) (native_field m.session_id s.usage.native_session_id))))))

abbrev pub or_zero : Option ℕ → ℕ
or_zero none = 0
or_zero (some n) = n

unfoldable pub finish_open : Attached → Daemon → Outcome
unfolding emit_sent store
finish_open a d =
    let d' = emit_sent a.sent (record d { table = store a.session d.table }) in
    elim a.summary [ none ↦ fail unexpected d' | some _ ↦ done d' ]

-- The end of an open: the caller owns the session, is answered, and attached with a replay.
unfoldable pub attach_owner : Outside → ℕ → OpenMessage → Session → Daemon → Outcome
unfolding own opened_frame finish_open emit_frame
attach_owner o id m s d =
    let owned = record d { connections = change_connection id (own m.session_id) d.connections } in
    finish_open (attach (env o) s id id (some (or_zero m.last_seen_seq)))
      (emit_frame id (opened_frame m s) owned)

-- A session with a backend that runs goes on with it; any other gets a new one. A failed spawn
-- removes the session.
unfoldable pub spawn_for_open : Outside → ℕ → OpenMessage → Session → Daemon → Outcome
unfolding spawn_failure_frame remove
spawn_for_open o id m s d =
    if needs_spawn s
    then (elim (o.backends.validate m) [
      | some e ↦ fail e d
      | none ↦ elim (o.backends.spawn m m.resume s.usage.native_session_id) [
        | none ↦ done (
            emit_frame id (spawn_failure_frame o m.id m.session_id)
              (record d { table = (remove m.session_id false d.table).0 }))
        | some b ↦ attach_owner o id m (record s { backend = some b }) d
      ]
    ])
    else attach_owner o id m s d

-- Connection._handle_open
unfoldable pub handle_open : Outside → ℕ → OpenMessage → Daemon → Outcome
unfolding acquire_session spawn_for_open
handle_open o id m d =
    let (d', r) = acquire_session o id m d in
    elim r [
      | err e ↦ fail (known e) d'
      | ok none ↦ fail unexpected d'
      | ok (some s) ↦ spawn_for_open o id m s d'
    ]
