-- ===== src/Daemon/Sound/Steps.antt =====
-- blemees_agent/daemon.py: the table after the steps of the daemon that are no handlers.
use blemees_daemon.Prelude.{
  ℕ, false, Option, none, some, List, [], ◌∷◌, String, ◌≡◌, refl, ap, ◌∙◌, subst, inl, inr, arith,
  Option-cases, length, is_some,
}
use blemees_daemon.Json.{Fields}
use blemees_daemon.Errors.{Result, ok, err}
use blemees_daemon.EventLog.{Frame}
use blemees_daemon.Protocol.{SessionInfoMessage}
use blemees_daemon.Session.{
  Session, BackendView, Env, on_event, remove_watcher, detach_writer, mark_finishing,
}
use blemees_daemon.Session.Rows.{usage_snapshot}
use blemees_daemon.Table.{
  Table, find, put, try_get, remove, remove_each, soft_detached, soften, detach_soft, detach_each,
  unwatch_all, owned_ids, detach_all_for_connection, remove_all_watchers_for_connection,
}
use blemees_daemon.Table.Lookup.{Distinct}
use blemees_daemon.Table.Reaping.{Keyed}
use blemees_daemon.Table.Capacity.{IsSound, remove-IsSound}
use blemees_daemon.Daemon.{Daemon, Outside, Outcome, env, emit_frame}
use blemees_daemon.Daemon.Watching.{close_connection}
use blemees_daemon.Daemon.Info.{
  Found, nothing, raises, info, backend_runs, handle_session_info, reply_snapshot, reply_found,
  session_info_from_disk,
}
use blemees_daemon.Daemon.Dispatch.{World, parsed, answer_failure, backend_event, backend_change}
use blemees_daemon.Table.Reaping.{find-Keyed}
use blemees_daemon.Daemon.Sound.{store-IsSound, find_self, sent-IsSound}

pub parsed-IsSound {ℓ} :
    {A : Type ℓ} (r : Result A) (handler : A → Daemon → Outcome) (d : Daemon)
    → ((m : A) → IsSound (handler m d).0.table)
    → IsSound d.table
    → IsSound (parsed r handler d).0.table
unfolding parsed
parsed-IsSound (ok m) handler d k h = k m
parsed-IsSound (err e) handler d k h = h

pub answer_failure-IsSound :
    (o : Outside) (id : ℕ) (f : Fields) (r : Outcome)
    → IsSound r.0.table
    → IsSound (answer_failure o id f r).table
unfolding answer_failure emit_frame
answer_failure-IsSound o id f (d, none) h = h
answer_failure-IsSound o id f (d, some e) h = h

on_event_id :
    (e : Env) (s : Session) (f : Frame) (t : List (String × Session))
    → find s.session_id t ≡ some s
    → find (on_event e s f).session.session_id t ≡ some s
unfolding on_event
on_event_id e s f t h = h

pub backend_event-IsSound :
    (o : Outside) (sid : String) (f : Frame) (d : Daemon)
    → IsSound d.table
    → IsSound (backend_event o sid f d).table
unfolding backend_event try_get
backend_event-IsSound o sid f d h = elim (Option-cases (find sid d.table.sessions)) [
  | inl e ↦ rw (e, backend_event) h
  | inr (s, e) ↦
      rw (e, backend_event)
        (sent-IsSound (on_event (env o) s f).sent (on_event (env o) s f).session s d
          (on_event_id (env o) s f d.table.sessions (find_self sid d.table s h e)) h)
]

pub backend_change-IsSound :
    (sid : String) (b : BackendView) (d : Daemon)
    → IsSound d.table
    → IsSound (backend_change sid b d).table
unfolding backend_change try_get
backend_change-IsSound sid b d h = elim (Option-cases (find sid d.table.sessions)) [
  | inl e ↦ rw (e, backend_change) h
  | inr (s, e) ↦
      rw (e, backend_change)
        (store-IsSound (record s { backend = some b }) s d.table (find_self sid d.table s h e) h)
]

session_id-soft_detached : (now : ℕ) (s : Session) → (soft_detached now s).session_id ≡ s.session_id
unfolding soft_detached soften detach_writer mark_finishing
session_id-soft_detached now s = ground arith

detach_soft-IsSound :
    (now : ℕ) (sid : String) (t : Table) → IsSound t → IsSound (detach_soft now sid t)
unfolding detach_soft
detach_soft-IsSound now sid t h = elim (Option-cases (find sid t.sessions)) [
  | inl e ↦ rw (e, detach_soft) h
  | inr (s, e) ↦
      let key = session_id-soft_detached now s ∙ find-Keyed sid t.sessions s h.keyed e in
      rw (e, detach_soft)
        (subst
          (λ (k : String). IsSound (record t { sessions = put k (soft_detached now s) t.sessions }))
          key
          (store-IsSound (soft_detached now s) s t (ap (λ (k : String). find k t.sessions) key ∙ e)
            h))
]

detach_each-IsSound :
    (now : ℕ) (ids : List String) (t : Table) → IsSound t → IsSound (detach_each now ids t)
unfolding detach_each
detach_each-IsSound now [] t h = h
detach_each-IsSound now (sid ∷ ids) t h =
    detach_each-IsSound now ids (detach_soft now sid t) (detach_soft-IsSound now sid t h)

unwatched_none :
    (cid : ℕ) (j : String) (d : List (String × Session))
    → find j d ≡ none
    → find j (unwatch_all cid d).0 ≡ none
unfolding unwatch_all find
unwatched_none cid j [] h = refl
unwatched_none cid j ((i, s) ∷ d) h = ground (arith, h, unwatched_none cid j d)

unwatch_all-Distinct :
    (cid : ℕ) (d : List (String × Session)) → Distinct d → Distinct (unwatch_all cid d).0
unfolding unwatch_all
unwatch_all-Distinct cid [] h = tt
unwatch_all-Distinct cid ((i, s) ∷ d) h =
    (unwatched_none cid i d h.0, unwatch_all-Distinct cid d h.1)

unwatch_all-Keyed : (cid : ℕ) (d : List (String × Session)) → Keyed d → Keyed (unwatch_all cid d).0
unfolding unwatch_all remove_watcher
unwatch_all-Keyed cid [] h = tt
unwatch_all-Keyed cid ((i, s) ∷ d) h = (h.0, unwatch_all-Keyed cid d h.1)

length-unwatch_all :
    (cid : ℕ) (d : List (String × Session)) → length (unwatch_all cid d).0 ≡ length d
unfolding unwatch_all
length-unwatch_all cid [] = refl
length-unwatch_all cid ((i, s) ∷ d) = ground (arith, length-unwatch_all cid d)

pub close_connection-IsSound :
    (o : Outside) (id : ℕ) (d : Daemon) → IsSound d.table → IsSound (close_connection o id d).table
unfolding close_connection detach_all_for_connection remove_all_watchers_for_connection
close_connection-IsSound o id d h =
    let t = detach_each o.now (owned_ids id d.table) d.table in
    let k = detach_each-IsSound o.now (owned_ids id d.table) d.table h in
    record {
      distinct = unwatch_all-Distinct id t.sessions k.distinct;
      keyed = unwatch_all-Keyed id t.sessions k.keyed;
      within = ground (arith, length-unwatch_all id t.sessions, k.within);
    }

pub remove_each-IsSound : (ids : List String) (t : Table) → IsSound t → IsSound (remove_each ids t)
unfolding remove_each
remove_each-IsSound [] t h = h
remove_each-IsSound (sid ∷ ids) t h =
    remove_each-IsSound ids (remove sid false t).0 (remove-IsSound sid false t h)

snapshot_stays :
    (id : ℕ) (m : SessionInfoMessage) (o : Option Fields) (d : Daemon)
    → IsSound d.table
    → IsSound (reply_snapshot id m o d).0.table
unfolding reply_snapshot emit_frame
snapshot_stays id m none d h = h
snapshot_stays id m (some snap) d h = h

found_stays :
    (o : Outside) (id : ℕ) (m : SessionInfoMessage) (x : Found) (d : Daemon)
    → IsSound d.table
    → IsSound (reply_found o id m x d).0.table
unfolding reply_found emit_frame
found_stays o id m nothing d h = h
found_stays o id m raises d h = h
found_stays o id m (info snap) d h = h

pub handle_session_info-IsSound :
    (w : World) (id : ℕ) (m : SessionInfoMessage) (d : Daemon)
    → IsSound d.table
    → IsSound (handle_session_info w.outside w.info_sources id m d).0.table
unfolding handle_session_info try_get
handle_session_info-IsSound w id m d h =
    elim (find m.session_id d.table.sessions)
      as (λ x.
        IsSound
          (elim x as (λ _. Outcome) [
            | some s ↦
                reply_snapshot id m
                  (usage_snapshot w.info_sources.to_int (is_some s.connection_id) (backend_runs s)
                    s)
                  d
            | none ↦
                reply_found w.outside id m
                  (session_info_from_disk w.info_sources m.session_id d.table) d
          ]).0.table) [
            | some s ↦
                snapshot_stays id m
                  (usage_snapshot w.info_sources.to_int (is_some s.connection_id) (backend_runs s)
                    s)
                  d h
            | none ↦
                found_stays w.outside id m
                  (session_info_from_disk w.info_sources m.session_id d.table) d h
          ]
