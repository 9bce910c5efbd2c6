-- ===== src/Daemon/Ownership/Watched.antt =====
-- blemees_agent/daemon.py: what `agent.close`, `agent.watch` and `agent.unwatch` do to a session that the
-- caller does not own.
use blemees_daemon.Prelude.{
  ℕ, Bool, false, Option, none, some, String, ◌≡◌, refl, sym, ap, ◌∙◌, inl, inr, arith, str_eq,
  Option-cases, Bool-cases,
}
use blemees_daemon.Protocol.{CloseMessage, WatchMessage, UnwatchMessage}
use blemees_daemon.Session.{
  Session, Attached, Env, Writer, add_watcher, remove_watcher, broadcast_to_watchers,
}
use blemees_daemon.Table.{find, try_get}
use blemees_daemon.Table.Reaping.{find-remove}
use blemees_daemon.Table.Capacity.{IsSound}
use blemees_daemon.Daemon.{Daemon, Outside, env, emit_frame, owns, change_connection, disown}
use blemees_daemon.Daemon.Watching.{
  handle_close, tell_watchers, session_closed_frame, remove_session, handle_watch, finish_watch,
  watching_frame, handle_unwatch, finish_unwatch,
}
use blemees_daemon.Daemon.Sound.{find_self}
use blemees_daemon.Daemon.Ownership.Keeps.{
  essence, Keeps, Spares, sent-Keeps, store-Keeps, found-IsApart, apart,
}

module _ (sid : String) (kept : Option Session) where
  tell_watchers-Keeps :
      (o : Outside) (j : String) (x : Option Session) (d : Daemon)
      → find j d.table.sessions ≡ x
      → IsSound d.table
      → str_eq j sid ≡ false
      → Keeps sid kept d.table
      → Keeps sid kept (tell_watchers o j x d).table
  unfolding tell_watchers broadcast_to_watchers
  tell_watchers-Keeps o j none d e h a k = k
  tell_watchers-Keeps o j (some s) d e h a k =
      let (s', sent) = broadcast_to_watchers (env o) s (session_closed_frame j) in
      sent-Keeps sid kept sent s' d (inl (found-IsApart sid kept j s d h e a)) k

  remove_session-Keeps :
      (j : String) (delete : Bool) (d : Daemon)
      → str_eq j sid ≡ false
      → Keeps sid kept d.table
      → Keeps sid kept (remove_session j delete d).table
  unfolding remove_session
  remove_session-Keeps j delete d a k =
      ap essence (find-remove j sid delete d.table ∙ rw a refl) ∙ k

  pub handle_close-Keeps :
      (o : Outside) (id : ℕ) (m : CloseMessage) (d : Daemon)
      → IsSound d.table
      → owns id sid d ≡ false
      → Keeps sid kept d.table
      → Keeps sid kept (handle_close o id m d).0.table
  unfolding handle_close try_get emit_frame
  handle_close-Keeps o id m d h n k = elim (Bool-cases (owns id m.session_id d)) [
    | inr e ↦ rw (e, handle_close) k
    | inl e ↦
        let d' = record d {
          connections = change_connection id (disown m.session_id) d.connections;
        } in
        let a = apart sid kept id m.session_id d n e in
        let found = find m.session_id d.table.sessions in
        rw (e, handle_close)
          (remove_session-Keeps m.session_id m.delete (tell_watchers o m.session_id found d') a
            (tell_watchers-Keeps o m.session_id found d' refl h a k))
  ]

  -- The same session with other watches.
  same_Spares :
      (j : String) (s s' : Session) (d : Daemon)
      → IsSound d.table
      → find j d.table.sessions ≡ some s
      → s'.session_id ≡ s.session_id
      → essence (some s') ≡ essence (some s)
      → Spares sid kept s' d.table
  same_Spares j s s' d h e i v =
      inr (v ∙ ap essence (sym (ap (λ x. find x d.table.sessions) i ∙ find_self j d.table s h e)))

  add_watcher-essence :
      (e : Env) (s : Session) (cid : ℕ) (w : Writer) (last : Option ℕ)
      → ((add_watcher e s cid w last).session.session_id ≡ s.session_id)
        × (essence (some (add_watcher e s cid w last).session) ≡ essence (some s))
  unfolding add_watcher
  add_watcher-essence e s cid w none = (refl, refl)
  add_watcher-essence e s cid w (some k) = (ground arith, ground arith)

  finish_watch-Keeps :
      (id : ℕ) (j : String) (a : Attached) (d : Daemon)
      → Spares sid kept a.session d.table
      → Keeps sid kept d.table
      → Keeps sid kept (finish_watch id j a d).0.table
  unfolding finish_watch
  finish_watch-Keeps id j a d h k = elim (Option-cases a.summary) [
    | inl e ↦ rw (e, finish_watch) (sent-Keeps sid kept a.sent a.session d h k)
    | inr (x, e) ↦ rw (e, finish_watch) (sent-Keeps sid kept a.sent a.session d h k)
  ]

  pub handle_watch-Keeps :
      (o : Outside) (id : ℕ) (m : WatchMessage) (d : Daemon)
      → IsSound d.table
      → Keeps sid kept d.table
      → Keeps sid kept (handle_watch o id m d).0.table
  unfolding handle_watch try_get emit_frame
  handle_watch-Keeps o id m d h k = elim (Option-cases (find m.session_id d.table.sessions)) [
    | inl e ↦ rw (e, handle_watch) k
    | inr (s, e) ↦
        let a = add_watcher (env o) s id id m.last_seen_seq in
        let same = add_watcher-essence (env o) s id id m.last_seen_seq in
        rw (e, handle_watch)
          (finish_watch-Keeps id m.session_id a (emit_frame id (watching_frame m s) d)
            (same_Spares m.session_id s a.session d h e same.0 same.1) k)
  ]

  pub handle_unwatch-Keeps :
      (id : ℕ) (m : UnwatchMessage) (d : Daemon)
      → IsSound d.table
      → Keeps sid kept d.table
      → Keeps sid kept (handle_unwatch id m d).0.table
  unfolding handle_unwatch try_get finish_unwatch emit_frame remove_watcher
  handle_unwatch-Keeps id m d h k = elim (Option-cases (find m.session_id d.table.sessions)) [
    | inl e ↦ rw (e, handle_unwatch) k
    | inr (s, e) ↦
        rw (e, handle_unwatch)
          (store-Keeps sid kept (remove_watcher id s).0 d.table
            (same_Spares m.session_id s (remove_watcher id s).0 d h e refl refl) k)
  ]
