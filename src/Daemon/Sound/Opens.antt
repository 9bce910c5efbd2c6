-- ===== src/Daemon/Sound/Opens.antt =====
-- blemees_agent/daemon.py: the table after `agent.open`.
use blemees_daemon.Prelude.{
  ℕ, Bool, true, false, Option, none, some, List, String, ◌≡◌, refl, sym, ap, ◌∙◌, subst, inl, inr,
  eq_refl, arith, if◌then◌else◌, Option-cases,
}
use blemees_daemon.Errors.{Result, ok, err, session_exists_error}
use blemees_daemon.Protocol.{OpenMessage}
use blemees_daemon.Session.{Session, Attached, Env, Writer, attach}
use blemees_daemon.Table.{Table, find, store, try_get, register, new_session}
use blemees_daemon.Table.Capacity.{IsSound, register-ok, remove-IsSound}
use blemees_daemon.Daemon.{
  Daemon, Connection, Outside, Outcome, fail, known, unexpected, env, emit_frame, emit_sent, own,
  change_connection,
}
use blemees_daemon.Daemon.Opening.{
  handle_open, acquire_session, open_new, take_over, spawn_for_open, needs_spawn, attach_owner,
  finish_open, opened_frame, or_zero,
}
use blemees_daemon.Daemon.Sound.{store-IsSound, find-store, find_self, IsSound-if, sent-IsSound}
use blemees_daemon.Daemon.Sound.Handlers.{Stands}

finish_open_table :
    (a : Attached) (d : Daemon)
    → (finish_open a d).0.table
      ≡ (emit_sent a.sent (record d { table = store a.session d.table })).table
unfolding finish_open
finish_open_table a d = ground arith

session_id-attach :
    (e : Env) (s : Session) (cid : ℕ) (w : Writer) (last : Option ℕ)
    → (attach e s cid w last).session.session_id ≡ s.session_id
unfolding attach
session_id-attach e s cid w none = refl
session_id-attach e s cid w (some k) = ground arith

attach_owner-IsSound :
    (o : Outside) (id : ℕ) (m : OpenMessage) (s : Session) (d : Daemon)
    → Stands s d
    → IsSound d.table
    → IsSound (attach_owner o id m s d).0.table
unfolding attach_owner emit_frame
attach_owner-IsSound o id m s d (r, e) h =
    let a = attach (env o) s id id (some (or_zero m.last_seen_seq)) in
    let there =
      emit_frame id (opened_frame m s)
        (record d { connections = change_connection id (own m.session_id) d.connections }) in
    subst IsSound (sym (finish_open_table a there)) (
      sent-IsSound a.sent a.session r there
        (ap (λ (k : String). find k d.table.sessions)
            (session_id-attach (env o) s id id (some (or_zero m.last_seen_seq)))
          ∙ e)
        h)

spawn_for_open-IsSound :
    (o : Outside) (id : ℕ) (m : OpenMessage) (s : Session) (d : Daemon)
    → Stands s d
    → IsSound d.table
    → IsSound (spawn_for_open o id m s d).0.table
unfolding spawn_for_open emit_frame
spawn_for_open-IsSound o id m s d e h =
    IsSound-if (needs_spawn s) _ _
      (elim (Option-cases (o.backends.validate m)) [
        | inr (x, refused) ↦ rw (refused, spawn_for_open) h
        | inl valid ↦ elim (Option-cases (o.backends.spawn m m.resume s.usage.native_session_id)) [
          | inl failed ↦
              rw (valid, failed, spawn_for_open) (remove-IsSound m.session_id false d.table h)
          | inr (b, spawned) ↦
              rw (valid, spawned, spawn_for_open)
                (attach_owner-IsSound o id m (record s { backend = some b }) d e h)
        ]
      ])
      (attach_owner-IsSound o id m s d e h)

-- The session that was acquired, if there is one, stands in the table.
abbrev StandsIn : Result (Option Session) → Daemon → Type 0
StandsIn (err e) d = Unit
StandsIn (ok none) d = Unit
StandsIn (ok (some s)) d = Stands s d

-- What an open has in its hands: a sound table, and in it the session that it goes on with.
record Ready (p : Daemon × Result (Option Session)) : Type 0 where
  sound : IsSound p.0.table
  stands : StandsIn p.1 p.0

registered-Ready :
    (d : Daemon) (s : Session) (r : Result Table)
    → register d.table s ≡ r
    → IsSound d.table
    → Ready (elim r as (λ _. Daemon × Result (Option Session)) [
      | err e ↦ (d, err e)
      | ok t ↦ (record d { table = t }, ok (some s))
    ])
registered-Ready d s (err x) e h = record { sound = h; stands = tt }
registered-Ready d s (ok t) e h =
    let k = register-ok d.table t s h e in
    record { sound = k.sound; stands = (s, k.found s.session_id ∙ rw (eq_refl s.session_id) refl) }

open_new-Ready :
    (o : Outside) (m : OpenMessage) (d : Daemon) → IsSound d.table → Ready (open_new o m d)
unfolding open_new
open_new-Ready o m d h = elim (Option-cases (new_session o.codec o.now_ms d.table m)) [
  | inl e ↦ rw (e, open_new) (record { sound = h; stands = tt })
  | inr (s, e) ↦ rw (e, open_new) (registered-Ready d s (register d.table s) refl h)
]

resumed-Ready :
    (resume : Bool) (m : OpenMessage) (cs : List (ℕ × Connection)) (s : Session) (d : Daemon)
    → find s.session_id d.table.sessions ≡ some s
    → IsSound d.table
    → Ready (
        if resume
        then (
          record d { connections = cs; table = store (record s { open_msg = m }) d.table },
          ok (some (record s { open_msg = m })),
        )
        else (d, err (session_exists_error m.session_id)))
resumed-Ready false m cs s d e h = record { sound = h; stands = tt }
resumed-Ready true m cs s d e h =
    let s' = record s { open_msg = m } in
    record { sound = store-IsSound s' s d.table e h; stands = (s', find-store s' d.table) }

acquire_session-Ready :
    (o : Outside) (id : ℕ) (m : OpenMessage) (d : Daemon)
    → IsSound d.table
    → Ready (acquire_session o id m d)
unfolding acquire_session try_get
acquire_session-Ready o id m d h = elim (Option-cases (find m.session_id d.table.sessions)) [
  | inl e ↦ rw (e, acquire_session) (open_new-Ready o m d h)
  | inr (s, e) ↦
      rw (e, acquire_session)
        (resumed-Ready m.resume m (take_over id s d).connections s d
          (find_self m.session_id d.table s h e) h)
]

opened-IsSound :
    (o : Outside) (id : ℕ) (m : OpenMessage) (d : Daemon) (r : Result (Option Session))
    → Ready (d, r)
    → IsSound
        (elim r as (λ _. Outcome) [
          | err e ↦ fail (known e) d
          | ok none ↦ fail unexpected d
          | ok (some s) ↦ spawn_for_open o id m s d
        ]).0.table
opened-IsSound o id m d (err e) h = h.sound
opened-IsSound o id m d (ok none) h = h.sound
opened-IsSound o id m d (ok (some s)) h = spawn_for_open-IsSound o id m s d h.stands h.sound

pub handle_open-IsSound :
    (o : Outside) (id : ℕ) (m : OpenMessage) (d : Daemon)
    → IsSound d.table
    → IsSound (handle_open o id m d).0.table
unfolding handle_open
handle_open-IsSound o id m d h =
    let (d', r) = acquire_session o id m d in
    opened-IsSound o id m d' r (acquire_session-Ready o id m d h)
