-- ===== src/Daemon/Sound/Handlers.antt =====
-- blemees_agent/daemon.py: the table after `agent.user`, `agent.interrupt`, `agent.close`, `agent.watch`,
-- `agent.unwatch` and `agent.session_info`.
use blemees_daemon.Prelude.{
  ℕ, true, not, Option, none, some, String, ◌≡◌, refl, ap, ◌∙◌, inl, inr, arith, if◌then◌else◌,
  Option-cases,
}
use blemees_daemon.Errors.{BlemeesError, ok, err}
use blemees_daemon.Protocol.{
  UserMessage, InterruptMessage, CloseMessage, WatchMessage, UnwatchMessage,
}
use blemees_daemon.Session.{
  Session, BackendView, Attached, Env, Writer, add_watcher, remove_watcher, record_user_message,
  broadcast_to_watchers,
}
use blemees_daemon.Table.{find, store, try_get, get_session}
use blemees_daemon.Table.Capacity.{IsSound, remove-IsSound}
use blemees_daemon.Daemon.{
  Daemon, Outside, Outcome, done, fail, known, unexpected, env, emit_frame, emit_sent, owns,
  change_connection, disown,
}
use blemees_daemon.Daemon.Turns.{
  handle_user, user_turn, respawn, send_turn, end_turn, is_turn_error, handle_interrupt,
  interrupt_session, interrupt_backend, interrupted_frame,
}
use blemees_daemon.Daemon.Watching.{
  handle_close, tell_watchers, session_closed_frame, remove_session, handle_watch, finish_watch,
  watch_session, watching_frame, handle_unwatch, finish_unwatch,
}
use blemees_daemon.Daemon.Sound.{store-IsSound, find_self, IsSound-if, sent-IsSound}

-- A session in the hands of a handler, and the one in the table under its id.
abbrev pub Stands : Session → Daemon → Type 0
Stands s d = (r : Session) × (find s.session_id d.table.sessions ≡ some r)

end_turn-IsSound :
    (o : Outside) (id : ℕ) (m : UserMessage) (s : Session) (e : Option BlemeesError) (d : Daemon)
    → Stands s d
    → IsSound d.table
    → IsSound (end_turn o id m s e d).0.table
unfolding end_turn record_user_message
end_turn-IsSound o id m s none d (r, e) h =
    store-IsSound (record_user_message m.message s) r d.table e h
end_turn-IsSound o id m s (some x) d (r, e) h =
    IsSound-if (is_turn_error x) _ _ (store-IsSound s r d.table e h) (store-IsSound s r d.table e h)

send_turn-IsSound :
    (o : Outside) (id : ℕ) (m : UserMessage) (s : Session) (b : BackendView) (d : Daemon)
    → Stands s d
    → IsSound d.table
    → IsSound (send_turn o id m s b d).0.table
unfolding send_turn
send_turn-IsSound o id m s b d e h =
    let (r, b') = o.backends.send_user_turn b m.message in
    end_turn-IsSound o id m (record s { backend = some b' }) r d e h

respawn-IsSound :
    (o : Outside) (id : ℕ) (m : UserMessage) (s : Session) (d : Daemon)
    → Stands s d
    → IsSound d.table
    → IsSound (respawn o id m s d).0.table
unfolding respawn
respawn-IsSound o id m s d e h = elim (Option-cases (o.backends.validate s.open_msg)) [
  | inr (x, refused) ↦ rw (refused, respawn) h
  | inl valid ↦ elim (Option-cases (o.backends.spawn s.open_msg true s.usage.native_session_id)) [
    | inl failed ↦ rw (valid, failed, respawn) h
    | inr (b, spawned) ↦ rw (valid, spawned, respawn) (send_turn-IsSound o id m s b d e h)
  ]
]

user_turn-IsSound :
    (o : Outside) (id : ℕ) (m : UserMessage) (s : Session) (d : Daemon)
    → Stands s d
    → IsSound d.table
    → IsSound (user_turn o id m s d).0.table
unfolding user_turn
user_turn-IsSound o id m s d e h =
    elim s.backend
      as (λ x.
        IsSound
          (elim x as (λ _. Outcome) [
            | none ↦ respawn o id m s d
            | some b ↦ if b.running then send_turn o id m s b d else respawn o id m s d
          ]).0.table) [
            | none ↦ respawn-IsSound o id m s d e h
            | some b ↦
                IsSound-if b.running _ _ (send_turn-IsSound o id m s b d e h)
                  (respawn-IsSound o id m s d e h)
          ]

-- A session of the table.
pub stood :
    (sid : String) (s : Session) (d : Daemon)
    → IsSound d.table
    → find sid d.table.sessions ≡ some s
    → Stands s d
stood sid s d h e = (s, find_self sid d.table s h e)

pub handle_user-IsSound :
    (o : Outside) (id : ℕ) (m : UserMessage) (d : Daemon)
    → IsSound d.table
    → IsSound (handle_user o id m d).0.table
unfolding handle_user get_session
handle_user-IsSound o id m d h =
    IsSound-if (owns id m.session_id d) _ _
      (elim (Option-cases (find m.session_id d.table.sessions)) [
        | inl e ↦ rw (e, get_session) h
        | inr (s, e) ↦
            rw (e, get_session) (user_turn-IsSound o id m s d (stood m.session_id s d h e) h)
      ])
      h

interrupt_backend-IsSound :
    (o : Outside) (id : ℕ) (sid : String) (s : Session) (b : BackendView) (d : Daemon)
    → Stands s d
    → IsSound d.table
    → IsSound (interrupt_backend o id sid s b d).0.table
unfolding interrupt_backend emit_frame
interrupt_backend-IsSound o id sid s b d (r, e) h =
    let stored : IsSound (store (record s { backend = some (o.backends.interrupt b).1 }) d.table) =
      store-IsSound (record s { backend = some (o.backends.interrupt b).1 }) r d.table e h in
    elim (o.backends.interrupt b).0
      as (λ x.
        IsSound
          (elim x as (λ _. Outcome) [
            | err y ↦ fail (known y) (record d {
              table = store (record s { backend = some (o.backends.interrupt b).1 }) d.table;
            })
            | ok did_kill ↦ done (
                emit_frame id (interrupted_frame sid (not did_kill)) (record d {
                  table = store (record s { backend = some (o.backends.interrupt b).1 }) d.table;
                }))
          ]).0.table) [ err y ↦ stored | ok did_kill ↦ stored ]

interrupt_session-IsSound :
    (o : Outside) (id : ℕ) (sid : String) (x : Option Session) (d : Daemon)
    → find sid d.table.sessions ≡ x
    → IsSound d.table
    → IsSound (interrupt_session o id sid x d).0.table
unfolding interrupt_session emit_frame
interrupt_session-IsSound o id sid none d e h = h
interrupt_session-IsSound o id sid (some s) d e h =
    elim s.backend
      as (λ x.
        IsSound
          (elim x as (λ _. Outcome) [
            | none ↦ done (emit_frame id (interrupted_frame sid true) d)
            | some b ↦ interrupt_backend o id sid s b d
          ]).0.table) [
            | none ↦ h
            | some b ↦ interrupt_backend-IsSound o id sid s b d (s, find_self sid d.table s h e) h
          ]

pub handle_interrupt-IsSound :
    (o : Outside) (id : ℕ) (m : InterruptMessage) (d : Daemon)
    → IsSound d.table
    → IsSound (handle_interrupt o id m d).0.table
unfolding handle_interrupt try_get emit_frame
handle_interrupt-IsSound o id m d h =
    IsSound-if (owns id m.session_id d) _ _
      (interrupt_session-IsSound o id m.session_id (find m.session_id d.table.sessions) d refl h) h

tell_watchers-IsSound :
    (o : Outside) (sid : String) (x : Option Session) (d : Daemon)
    → find sid d.table.sessions ≡ x
    → IsSound d.table
    → IsSound (tell_watchers o sid x d).table
unfolding tell_watchers broadcast_to_watchers
tell_watchers-IsSound o sid none d e h = h
tell_watchers-IsSound o sid (some s) d e h =
    let (s', sent) = broadcast_to_watchers (env o) s (session_closed_frame sid) in
    sent-IsSound sent s' s d (find_self sid d.table s h e) h

pub handle_close-IsSound :
    (o : Outside) (id : ℕ) (m : CloseMessage) (d : Daemon)
    → IsSound d.table
    → IsSound (handle_close o id m d).0.table
unfolding handle_close try_get emit_frame remove_session
handle_close-IsSound o id m d h =
    let d' = record d { connections = change_connection id (disown m.session_id) d.connections } in
    let told = tell_watchers o m.session_id (find m.session_id d.table.sessions) d' in
    IsSound-if (owns id m.session_id d) _ _
      (remove-IsSound m.session_id m.delete told.table
        (tell_watchers-IsSound o m.session_id (find m.session_id d.table.sessions) d' refl h))
      h

session_id-add_watcher :
    (e : Env) (s : Session) (cid : ℕ) (w : Writer) (last : Option ℕ)
    → (add_watcher e s cid w last).session.session_id ≡ s.session_id
unfolding add_watcher
session_id-add_watcher e s cid w none = refl
session_id-add_watcher e s cid w (some k) = ground arith

finish_watch-IsSound :
    (id : ℕ) (sid : String) (a : Attached) (s : Session) (d : Daemon)
    → a.session.session_id ≡ s.session_id
    → Stands s d
    → IsSound d.table
    → IsSound (finish_watch id sid a d).0.table
unfolding finish_watch
finish_watch-IsSound id sid a s d e (r, f) h =
    let g = ap (λ (k : String). find k d.table.sessions) e ∙ f in
    elim a.summary
      as (λ x.
        IsSound
          (elim x as (λ _. Outcome) [
            | none ↦
                fail unexpected (emit_sent a.sent (record d { table = store a.session d.table }))
            | some _ ↦
                done (record (emit_sent a.sent (record d { table = store a.session d.table })) {
                  connections =
                      change_connection id (watch_session sid)
                        (emit_sent a.sent
                          (record d { table = store a.session d.table })).connections;
                })
          ]).0.table) [
            | none ↦ sent-IsSound a.sent a.session r d g h
            | some _ ↦ sent-IsSound a.sent a.session r d g h
          ]

pub handle_watch-IsSound :
    (o : Outside) (id : ℕ) (m : WatchMessage) (d : Daemon)
    → IsSound d.table
    → IsSound (handle_watch o id m d).0.table
unfolding handle_watch try_get emit_frame
handle_watch-IsSound o id m d h = elim (Option-cases (find m.session_id d.table.sessions)) [
  | inl e ↦ rw (e, handle_watch) h
  | inr (s, e) ↦
      rw (e, handle_watch)
        (finish_watch-IsSound id m.session_id (add_watcher (env o) s id id m.last_seen_seq) s
          (emit_frame id (watching_frame m s) d)
          (session_id-add_watcher (env o) s id id m.last_seen_seq) (stood m.session_id s d h e) h)
]

pub handle_unwatch-IsSound :
    (id : ℕ) (m : UnwatchMessage) (d : Daemon)
    → IsSound d.table
    → IsSound (handle_unwatch id m d).0.table
unfolding handle_unwatch try_get finish_unwatch emit_frame remove_watcher
handle_unwatch-IsSound id m d h = elim (Option-cases (find m.session_id d.table.sessions)) [
  | inl e ↦ rw (e, handle_unwatch) h
  | inr (s, e) ↦
      rw (e, handle_unwatch)
        (store-IsSound (remove_watcher id s).0 s d.table (find_self m.session_id d.table s h e) h)
]
