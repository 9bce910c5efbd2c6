-- ===== src/Table/Capacity.antt =====
-- blemees_agent/session.py, SessionTable.register: its ends, and when a table is sound.
use blemees_daemon.Prelude.{
  suc, ◌≤◌, ◌<◌, ◌≡◌, ◌≢◌, refl, subst, ◌⊎◌, inl, inr, Bool, none, some, List, [], ◌∷◌, String,
  str_eq, eq_iff, arith, length, leb, if◌then◌else◌, Bool-cases, Option-cases,
}
use blemees_daemon.Errors.{ok, err, session_exists_error}
use blemees_daemon.Session.{Session}
use blemees_daemon.Table.{Table, find, put, discard, register, remove, full}
use blemees_daemon.Table.Lookup.{
  find-put, find-discard, length-discard, length-put_new, Distinct, put-Distinct, discard-Distinct,
}
use blemees_daemon.Table.Reaping.{Keyed}

pub record IsSound (t : Table) : Type 0 where
  pub distinct : Distinct t.sessions
  pub keyed : Keyed t.sessions
  pub within : length t.sessions ≤ t.max_concurrent

pub put-Keyed : (s : Session) (d : List (String × Session)) → Keyed d → Keyed (put s.session_id s d)
unfolding put
put-Keyed s [] q = (refl, tt)
put-Keyed s ((i, r) ∷ d) q = elim (Bool-cases (str_eq i s.session_id)) [
  | inl e ↦ rw (e, put) (ground (arith, eq_iff i s.session_id), q.1)
  | inr e ↦ rw (e, put) (q.0, put-Keyed s d q.1)
]

discard-Keyed : (k : String) (d : List (String × Session)) → Keyed d → Keyed (discard k d)
unfolding discard
discard-Keyed k [] q = tt
discard-Keyed k ((i, r) ∷ d) q = elim (Bool-cases (str_eq i k)) [
  | inl e ↦ rw (e, discard) (discard-Keyed k d q.1)
  | inr e ↦ rw (e, discard) (q.0, discard-Keyed k d q.1)
]

-- `register` by its three ends.
pub register_cases :
    (t : Table) (s : Session)
    → ((find s.session_id t.sessions ≢ none)
        × (register t s ≡ err (session_exists_error s.session_id)))
      ⊎ ((find s.session_id t.sessions ≡ none)
          × (t.max_concurrent ≤ length t.sessions)
          × (register t s ≡ err (session_exists_error full)))
      ⊎ ((find s.session_id t.sessions ≡ none)
          × (length t.sessions < t.max_concurrent)
          × (register t s
              ≡ ok (record t {
                sessions = put s.session_id s t.sessions;
                disk = discard s.session_id t.disk;
              })))
unfolding register
register_cases t s = elim (Option-cases (find s.session_id t.sessions)) [
  | inr (r, e) ↦ inl (ground arith, ground arith)
  | inl e ↦ elim (Bool-cases (leb t.max_concurrent (length t.sessions))) [
    | inl at_limit ↦ inr (inl (e, ground arith, ground arith))
    | inr room ↦ inr (inr (e, ground arith, ground arith))
  ]
]

-- The table after a session was registered.
registered : Session → Table → Table
registered s t = record t {
  sessions = put s.session_id s t.sessions;
  disk = discard s.session_id t.disk;
}

-- What a registration does: the id was free, the table has one session more, which is found under
-- its id, and nothing else of it changes; it stays sound.
pub record Registers (s : Session) (t t' : Table) : Type 0 where
  pub sound : IsSound t'
  pub absent : find s.session_id t.sessions ≡ none
  pub found :
      (j : String)
      → find j t'.sessions ≡ (if str_eq s.session_id j then some s else find j t.sessions)
  pub count : length t'.sessions ≡ suc (length t.sessions)
  pub held : (j : String) → find j t'.disk ≡ (if str_eq s.session_id j then none else find j t.disk)
  pub settings : t' ≡ record t { sessions = t'.sessions; disk = t'.disk }

registered_lem :
    (t : Table) (s : Session)
    → IsSound t
    → find s.session_id t.sessions ≡ none
    → length t.sessions < t.max_concurrent
    → Registers s t (registered s t)
unfolding registered
registered_lem t s h absent room = record {
  sound = record {
    distinct = put-Distinct s.session_id s t.sessions h.distinct;
    keyed = put-Keyed s t.sessions h.keyed;
    within = omega (arith, length-put_new s.session_id s t.sessions absent);
  };
  absent = absent;
  found = λ j. find-put s.session_id j s t.sessions;
  count = length-put_new s.session_id s t.sessions absent;
  held = λ j. find-discard s.session_id j t.disk;
  settings = refl;
}

registered_eq :
    (t : Table) (s : Session)
    → register t s
      ≡ ok (record t {
        sessions = put s.session_id s t.sessions;
        disk = discard s.session_id t.disk;
      })
    → register t s ≡ ok (registered s t)
unfolding registered
registered_eq t s p = p

pub register-ok : (t t' : Table) (s : Session) → IsSound t → register t s ≡ ok t' → Registers s t t'
unfolding registered
register-ok t t' s h e = elim (register_cases t s) [
  | inl (_, p) ↦ cc
  | inr (inl (_, _, p)) ↦ cc
  | inr (inr (absent, room, p)) ↦
      let same : registered s t ≡ t' = cc in
      subst (Registers s t) same (registered_lem t s h absent room)
]

-- `register` on a sound table has one of three ends. An id that is taken is refused, and so is a free
-- one where the table has `max_concurrent` sessions; with a free id and room, the session is taken:
-- the table then has one session more, which is found under its id, the other sessions are as they
-- were, its log files are no longer among those that no session holds, and the table stays sound:
-- different ids, each with its session, and at most `max_concurrent` of them.
pub register-Registers :
    (t : Table) (s : Session)
    → IsSound t
    → ((find s.session_id t.sessions ≢ none)
        × (register t s ≡ err (session_exists_error s.session_id)))
      ⊎ ((find s.session_id t.sessions ≡ none)
          × (t.max_concurrent ≤ length t.sessions)
          × (register t s ≡ err (session_exists_error full)))
      ⊎ ((find s.session_id t.sessions ≡ none)
          × (length t.sessions < t.max_concurrent)
          × ((t' : Table) × (register t s ≡ ok t') × Registers s t t'))
register-Registers t s h = elim (register_cases t s) [
  | inl taken ↦ inl taken
  | inr (inl at_limit) ↦ inr (inl at_limit)
  | inr (inr (free, room, p)) ↦
      inr (inr (free, room, (registered s t, registered_eq t s p, registered_lem t s h free room)))
]

-- A session that is removed, with or without its files, leaves the table sound.
pub remove-IsSound :
    (sid : String) (delete : Bool) (t : Table) → IsSound t → IsSound (remove sid delete t).0
unfolding remove
remove-IsSound sid delete t h = elim (Option-cases (find sid t.sessions)) [
  | inl e ↦ rw (e, remove) h
  | inr (s, e) ↦
      rw (e, remove)
        (record {
          distinct = discard-Distinct sid t.sessions h.distinct;
          keyed = discard-Keyed sid t.sessions h.keyed;
          within = omega (arith, length-discard sid t.sessions, h.within);
        })
]
