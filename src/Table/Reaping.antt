-- ===== src/Table/Reaping.antt =====
-- The reaper takes the expired sessions out of the table, and no other.
use blemees_daemon.Prelude.{
  ℕ, ◌+◌, leb, ◌≡◌, refl, sym, ap, ◌∙◌, Bool, false, Option, none, some, List, [], ◌∷◌, String,
  str_eq, eq_iff, arith, select, if◌then◌else◌, Bool-cases, inl, inr, any, All,
}
use blemees_daemon.Session.{Session}
use blemees_daemon.Table.{
  Table, find, remove, remove_each, reap_idle, expired_ids, is_expired, entry_ids,
}
use blemees_daemon.Table.Lookup.{find-discard, Distinct}

abbrev pub is_listed : String → List String → Bool
is_listed j ids = any (λ x. str_eq x j) ids

pub find-remove :
    (sid j : String) (delete : Bool) (t : Table)
    → find j (remove sid delete t).0.sessions ≡ (if str_eq sid j then none else find j t.sessions)
unfolding remove
find-remove sid j delete t = ground (arith, find-discard sid j t.sessions, eq_iff sid j)

pub find-remove_each :
    (ids : List String) (j : String) (t : Table)
    → find j (remove_each ids t).sessions ≡ (if is_listed j ids then none else find j t.sessions)
unfolding remove_each
find-remove_each [] j t = refl
find-remove_each (sid ∷ ids) j t =
    ground (arith, find-remove_each ids j (remove sid false t).0, find-remove sid j false t)

-- Each session stands under its own id.
abbrev pub Keyed : List (String × Session) → Type 0
Keyed = All (λ e. e.1.session_id ≡ e.0)

pub find-Keyed :
    (j : String) (d : List (String × Session)) (s : Session)
    → Keyed d
    → find j d ≡ some s
    → s.session_id ≡ j
unfolding find
find-Keyed j [] s q h = ground (arith, h)
find-Keyed j ((i, r) ∷ d) s q h = elim (Bool-cases (str_eq i j)) [
  | inl e ↦
      let same : r ≡ s = ground (arith, h, e) in
      ap (λ (x : Session). x.session_id) (sym same) ∙ q.0 ∙ (eq_iff i j).0 e
  | inr e ↦ find-Keyed j d s q.1 (ground (arith, h, e))
]

module _ (p : Session → Bool) (j : String) where
  abbrev pub picked : List (String × Session) → Bool
  picked d = is_listed j (entry_ids (select (λ e. p e.1) d))

  pub picked-none : (d : List (String × Session)) → Keyed d → find j d ≡ none → picked d ≡ false
  unfolding find select
  picked-none [] q h = refl
  picked-none ((i, s) ∷ d) q h = ground (arith, picked-none d q.1, eq_iff i j, q.0)

  pub picked-some :
      (d : List (String × Session)) (s : Session)
      → Distinct d
      → Keyed d
      → find j d ≡ some s
      → picked d ≡ p s
  unfolding find select
  picked-some [] s u q h = cc
  picked-some ((i, r) ∷ d) s u q h = elim (Bool-cases (str_eq i j)) [
    | inl e ↦
        let same : i ≡ j = (eq_iff i j).0 e in
        ground (arith, picked-none d q.1 (subst_none same u.0), q.0)
    | inr e ↦ ground (arith, picked-some d s u.1 q.1, q.0)
  ]
    where
      subst_none : i ≡ j → find i d ≡ none → find j d ≡ none
      subst_none r h' = ap (λ k. find k d) (sym r) ∙ h'

-- What the reaper leaves of a session: nothing, if no connection owns it and it was detached
-- `timeout` ago.
abbrev pub unless_expired : ℕ → ℕ → Option Session → Option Session
unless_expired timeout now none = none
unless_expired timeout now (some s) = elim s.connection_id [
  | some _ ↦ some s
  | none ↦ elim s.detached_at [
    | none ↦ some s
    | some at ↦ if leb (at + timeout) now then none else some s
  ]
]

is_expired-unless_expired :
    (timeout now : ℕ) (s : Session)
    → (if is_expired timeout now s then none else some s) ≡ unless_expired timeout now (some s)
unfolding is_expired
is_expired-unless_expired timeout now s = ground arith

reap_found :
    (now : ℕ) (t : Table) (j : String) (o : Option Session)
    → Distinct t.sessions
    → Keyed t.sessions
    → find j t.sessions ≡ o
    → find j (reap_idle now t).0.sessions ≡ unless_expired t.idle_timeout now o
unfolding reap_idle expired_ids
reap_found now t j none u q h =
    find-remove_each (expired_ids now t) j t
    ∙ ground (arith, picked-none (is_expired t.idle_timeout now) j t.sessions q h)
reap_found now t j (some s) u q h =
    find-remove_each (expired_ids now t) j t
    ∙ ground (arith, picked-some (is_expired t.idle_timeout now) j t.sessions s u q h, h)
    ∙ is_expired-unless_expired t.idle_timeout now s

-- After the reaper a session is in the table exactly if it was there, and a connection owns it or it
-- was not detached, or not as long ago as the idle timeout; and it is unchanged. Condition: the table's keys are different, and each is the id of its session.
pub find-reap_idle :
    (now : ℕ) (t : Table) (j : String)
    → Distinct t.sessions
    → Keyed t.sessions
    → find j (reap_idle now t).0.sessions ≡ unless_expired t.idle_timeout now (find j t.sessions)
find-reap_idle now t j u q = reap_found now t j (find j t.sessions) u q refl
