-- ===== src/Daemon/Turns.antt =====
-- blemees_agent/daemon.py: `agent.user` and `agent.interrupt`.
use blemees_daemon.Prelude.{ℕ, not, Bool, true, false, Option, none, some, String, if◌then◌else◌}
use blemees_daemon.Json.{null, bool, str, end, field}
use blemees_daemon.Errors.{
  BlemeesError, ok, err, code_of, session_unknown_error, session_busy_error, spawn_failed_error,
  protocol_error, unexpected_fields,
}
use blemees_daemon.EventLog.{Frame}
use blemees_daemon.Protocol.{UserMessage, InterruptMessage}
use blemees_daemon.Session.{Session, BackendView, record_user_message}
use blemees_daemon.Table.{try_get, get_session, store}
use blemees_daemon.Daemon.{
  Daemon, Outside, emit_frame, error_frame, known, Outcome, done, fail, owns, spawn_failure_frame,
}

-- The exceptions of a turn that `_handle_user` catches.
unfoldable pub is_turn_error : BlemeesError → Bool
is_turn_error (session_busy_error _) = true
is_turn_error spawn_failed_error = true
is_turn_error (protocol_error _) = true
is_turn_error (unexpected_fields _) = true
is_turn_error _ = false

unfoldable pub end_turn :
    Outside → ℕ → UserMessage → Session → Option BlemeesError → Daemon → Outcome
unfolding is_turn_error error_frame emit_frame store record_user_message
end_turn o id m s none d =
    done (record d { table = store (record_user_message m.message s) d.table })
end_turn o id m s (some e) d =
    let d' = record d { table = store s d.table } in
    if is_turn_error e
    then done (emit_frame id (error_frame (code_of e) (o.wording e) null (str m.session_id)) d')
    else fail (known e) d'

unfoldable pub send_turn : Outside → ℕ → UserMessage → Session → BackendView → Daemon → Outcome
unfolding end_turn
send_turn o id m s b d =
    let (r, b') = o.backends.send_user_turn b m.message in
    end_turn o id m (record s { backend = some b' }) r d

unfoldable pub respawn : Outside → ℕ → UserMessage → Session → Daemon → Outcome
unfolding send_turn spawn_failure_frame
respawn o id m s d = elim (o.backends.validate s.open_msg) [
  | some e ↦ fail e d
  | none ↦ elim (o.backends.spawn s.open_msg true s.usage.native_session_id) [
    | none ↦ done (emit_frame id (spawn_failure_frame o none m.session_id) d)
    | some b ↦ send_turn o id m s b d
  ]
]

unfoldable pub user_turn : Outside → ℕ → UserMessage → Session → Daemon → Outcome
unfolding send_turn respawn
user_turn o id m s d = elim s.backend [
  | none ↦ respawn o id m s d
  | some b ↦ if b.running then send_turn o id m s b d else respawn o id m s d
]

-- Connection._handle_user
unfoldable pub handle_user : Outside → ℕ → UserMessage → Daemon → Outcome
unfolding owns user_turn get_session
handle_user o id m d =
    if owns id m.session_id d
    then (elim (get_session d.table m.session_id) [
      | err e ↦ fail (known e) d
      | ok s ↦ user_turn o id m s d
    ])
    else fail (known (session_unknown_error m.session_id)) d

unfoldable pub interrupted_frame : String → Bool → Frame
interrupted_frame sid was_idle =
    field "type" (str "agent.interrupted")
      (field "session_id" (str sid) (field "was_idle" (bool was_idle) end))

unfoldable pub interrupt_backend : Outside → ℕ → String → Session → BackendView → Daemon → Outcome
unfolding interrupted_frame emit_frame store
interrupt_backend o id sid s b d =
    let (r, b') = o.backends.interrupt b in
    let d' = record d { table = store (record s { backend = some b' }) d.table } in
    elim r [
      | err e ↦ fail (known e) d'
      | ok did_kill ↦ done (emit_frame id (interrupted_frame sid (not did_kill)) d')
    ]

unfoldable pub interrupt_session : Outside → ℕ → String → Option Session → Daemon → Outcome
unfolding interrupt_backend
interrupt_session o id sid none d = done (emit_frame id (interrupted_frame sid true) d)
interrupt_session o id sid (some s) d = elim s.backend [
  | none ↦ done (emit_frame id (interrupted_frame sid true) d)
  | some b ↦ interrupt_backend o id sid s b d
]

-- Connection._handle_interrupt
unfoldable pub handle_interrupt : Outside → ℕ → InterruptMessage → Daemon → Outcome
unfolding owns interrupt_session try_get
handle_interrupt o id m d =
    if owns id m.session_id d
    then interrupt_session o id m.session_id (try_get d.table m.session_id) d
    else done (emit_frame id (interrupted_frame m.session_id true) d)
