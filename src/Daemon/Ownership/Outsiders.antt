-- ===== src/Daemon/Ownership/Outsiders.antt =====
-- blemees_agent/daemon.py, Connection._dispatch: a frame against a session that the connection does not
-- own.
use blemees_daemon.Prelude.{
  ℕ, false, Option, none, some, String, ◌≡◌, ◌≢◌, refl, ap, ◌∙◌, inl, inr, str_eq, eq_iff, is_some,
  Option-cases, Bool-cases,
}
use blemees_daemon.Json.{Fields, get_str}
use blemees_daemon.Errors.{Result, ok, err}
use blemees_daemon.Protocol.{
  SessionInfoMessage, parse_user, parse_interrupt, parse_close, parse_list_sessions, parse_ping,
  parse_status, parse_watch, parse_unwatch, parse_session_info,
}
use blemees_daemon.Session.{Session}
use blemees_daemon.Session.Rows.{usage_snapshot}
use blemees_daemon.Table.{find, try_get}
use blemees_daemon.Table.Capacity.{IsSound}
use blemees_daemon.Daemon.{Daemon, Outside, Outcome, emit_frame, owns}
use blemees_daemon.Daemon.Watching.{handle_ping}
use blemees_daemon.Daemon.Info.{
  Found, nothing, raises, info, backend_runs, handle_session_info, handle_status, reply_snapshot,
  reply_found, session_info_from_disk,
}
use blemees_daemon.Daemon.Dispatch.{
  World, parsed, reply_invalid, reply_unknown, route, answer_failure, type_of, dispatch,
}
use blemees_daemon.Daemon.Ownership.Keeps.{
  essence, Keeps, Keeps-if, handle_user-Keeps, handle_interrupt-Keeps,
}
use blemees_daemon.Daemon.Ownership.Watched.{
  handle_close-Keeps, handle_watch-Keeps, handle_unwatch-Keeps,
}

reply_snapshot_table :
    (id : ℕ) (m : SessionInfoMessage) (o : Option Fields) (d : Daemon)
    → (reply_snapshot id m o d).0.table ≡ d.table
unfolding reply_snapshot emit_frame
reply_snapshot_table id m none d = refl
reply_snapshot_table id m (some snap) d = refl

reply_found_table :
    (o : Outside) (id : ℕ) (m : SessionInfoMessage) (x : Found) (d : Daemon)
    → (reply_found o id m x d).0.table ≡ d.table
unfolding reply_found emit_frame
reply_found_table o id m nothing d = refl
reply_found_table o id m raises d = refl
reply_found_table o id m (info snap) d = refl

session_info_table :
    (w : World) (id : ℕ) (m : SessionInfoMessage) (d : Daemon)
    → (handle_session_info w.outside w.info_sources id m d).0.table ≡ d.table
unfolding handle_session_info try_get
session_info_table w id m d = elim (Option-cases (find m.session_id d.table.sessions)) [
  | inl e ↦
      rw (e, handle_session_info)
        (reply_found_table w.outside id m
          (session_info_from_disk w.info_sources m.session_id d.table) d)
  | inr (s, e) ↦
      rw (e, handle_session_info)
        (reply_snapshot_table id m
          (usage_snapshot w.info_sources.to_int (is_some s.connection_id) (backend_runs s) s) d)
]

module _ (sid : String) (kept : Option Session) where
  parsed-Keeps {ℓ} :
      {A : Type ℓ} (r : Result A) (handler : A → Daemon → Outcome) (d : Daemon)
      → ((m : A) → Keeps sid kept (handler m d).0.table)
      → Keeps sid kept d.table
      → Keeps sid kept (parsed r handler d).0.table
  unfolding parsed
  parsed-Keeps (ok m) handler d k h = k m
  parsed-Keeps (err e) handler d k h = h

  answer_failure-Keeps :
      (o : Outside) (id : ℕ) (f : Fields) (r : Outcome)
      → Keeps sid kept r.0.table
      → Keeps sid kept (answer_failure o id f r).table
  unfolding answer_failure emit_frame
  answer_failure-Keeps o id f (d, none) h = h
  answer_failure-Keeps o id f (d, some e) h = h

  route-Keeps :
      (w : World) (id : ℕ) (t : String) (f : Fields) (d : Daemon)
      → str_eq t "agent.open" ≡ false
      → IsSound d.table
      → owns id sid d ≡ false
      → Keeps sid kept d.table
      → Keeps sid kept (route w id t f d).0.table
  unfolding route reply_invalid reply_unknown handle_ping handle_status emit_frame
  route-Keeps w id t f d differs s n h =
      rw (differs, route)
        (Keeps-if sid kept (str_eq t "agent.user") _ _
          (parsed-Keeps (parse_user f) _ d (λ m. handle_user-Keeps sid kept w.outside id m d s n h)
            h)
          (Keeps-if sid kept (str_eq t "agent.interrupt") _ _
            (parsed-Keeps (parse_interrupt f) _ d
              (λ m. handle_interrupt-Keeps sid kept w.outside id m d s n h) h)
            (Keeps-if sid kept (str_eq t "agent.close") _ _
              (parsed-Keeps (parse_close f) _ d
                (λ m. handle_close-Keeps sid kept w.outside id m d s n h) h)
              (Keeps-if sid kept (str_eq t "agent.list_sessions") _ _
                (parsed-Keeps (parse_list_sessions f) _ d (λ m. h) h)
                (Keeps-if sid kept (str_eq t "agent.ping") _ _
                  (parsed-Keeps (parse_ping f) _ d (λ m. h) h)
                  (Keeps-if sid kept (str_eq t "agent.status") _ _
                    (parsed-Keeps (parse_status f) _ d (λ m. h) h)
                    (Keeps-if sid kept (str_eq t "agent.watch") _ _
                      (parsed-Keeps (parse_watch f) _ d
                        (λ m. handle_watch-Keeps sid kept w.outside id m d s h) h)
                      (Keeps-if sid kept (str_eq t "agent.unwatch") _ _
                        (parsed-Keeps (parse_unwatch f) _ d
                          (λ m. handle_unwatch-Keeps sid kept id m d s h) h)
                        (Keeps-if sid kept (str_eq t "agent.session_info") _ _
                          (parsed-Keeps (parse_session_info f) _ d
                            (λ m.
                              ap (λ x. essence (find sid x.sessions)) (session_info_table w id m d)
                              ∙ h)
                            h)
                          (Keeps-if sid kept (str_eq t "agent.hello") _ _ h h))))))))))

not_open : (o : Option String) → o ≢ some "agent.open" → str_eq (type_of o) "agent.open" ≡ false
unfolding type_of
not_open none h = refl
not_open (some t) h = elim (Bool-cases (str_eq t "agent.open")) [
  | inl same ↦ absurd (h (ap (λ x. some x) ((eq_iff t "agent.open").0 same)))
  | inr other ↦ other
]

-- No frame but an `agent.open` changes a session that the caller does not own, whatever it asks for and
-- whichever session it names: the session is in the table after the frame exactly if it was, with the
-- same owner, backend, ring, log, title and counters; only its watches, and the number that a gap
-- notice to a watcher takes, may differ. Condition: the table is sound.
pub dispatch-essence :
    (w : World) (id : ℕ) (sid : String) (f : Fields) (d : Daemon)
    → IsSound d.table
    → owns id sid d ≡ false
    → get_str "type" f ≢ some "agent.open"
    → essence (find sid (dispatch w id f d).table.sessions) ≡ essence (find sid d.table.sessions)
unfolding dispatch
dispatch-essence w id sid f d s n differs =
    let kept = essence (find sid d.table.sessions) in
    let t = type_of (get_str "type" f) in
    answer_failure-Keeps sid kept w.outside id f (route w id t f d)
      (route-Keeps sid kept w id t f d (not_open (get_str "type" f) differs) s n refl)
