-- ===== src/Daemon/Leaving.antt =====
-- What a connection that ends leaves behind.
use blemees_daemon.Prelude.{
  false, sym, subst, Bool, Bool-cases, any, ◌&&◌, ◌||◌, ==_iff, ℕ, ◌==◌, ◌≡◌, refl, ap, ◌∙◌, not,
  Option, none, some, List, [], ◌∷◌, String, str_eq, eq_iff, arith, select, if◌then◌else◌, inl, inr,
  Option-cases,
}
use blemees_daemon.Session.{
  Session, BackendView, Writer, remove_watcher, pop_watcher, detach_writer, mark_finishing,
}
use blemees_daemon.Table.{
  Table, find, soft_detached, soften, detach_soft, detach_each, is_owned_by, owned_ids, unwatch_all,
  detach_all_for_connection, remove_all_watchers_for_connection,
}
use blemees_daemon.Table.Lookup.{find-put, Distinct}
use blemees_daemon.Table.Reaping.{Keyed, is_listed, picked-some}
use blemees_daemon.Daemon.{Daemon, Connection, Outside, find_connection}
use blemees_daemon.Daemon.Watching.{close_connection}

abbrev detached : ℕ → Option Session → Option Session
detached now none = none
detached now (some s) = some (soft_detached now s)

abbrev unwatched : ℕ → Option Session → Option Session
unwatched cid none = none
unwatched cid (some s) = some (remove_watcher cid s).0

soft_detached-soft_detached :
    (now : ℕ) (s : Session) → soft_detached now (soft_detached now s) ≡ soft_detached now s
unfolding soft_detached soften detach_writer mark_finishing
soft_detached-soft_detached now s = ground arith

detached-detached : (now : ℕ) (o : Option Session) → detached now (detached now o) ≡ detached now o
detached-detached now none = refl
detached-detached now (some s) = ap (λ r. some r) (soft_detached-soft_detached now s)

find-detach_soft :
    (now : ℕ) (sid j : String) (t : Table)
    → find j (detach_soft now sid t).sessions
      ≡ (if str_eq sid j then detached now (find j t.sessions) else find j t.sessions)
unfolding detach_soft
find-detach_soft now sid j t = elim (Option-cases (find sid t.sessions)) [
  | inl e ↦ ground (arith, e, eq_iff sid j)
  | inr (s, e) ↦ ground (arith, e, eq_iff sid j, find-put sid j (soft_detached now s) t.sessions)
]

find-detach_each :
    (now : ℕ) (ids : List String) (j : String) (t : Table)
    → find j (detach_each now ids t).sessions
      ≡ (if is_listed j ids then detached now (find j t.sessions) else find j t.sessions)
unfolding detach_each
find-detach_each now [] j t = refl
find-detach_each now (sid ∷ ids) j t =
    find-detach_each now ids j (detach_soft now sid t)
    ∙ ground (arith, find-detach_soft now sid j t, detached-detached now (find j t.sessions))

find-unwatch_all :
    (cid : ℕ) (j : String) (d : List (String × Session))
    → find j (unwatch_all cid d).0 ≡ unwatched cid (find j d)
unfolding unwatch_all find
find-unwatch_all cid j [] = refl
find-unwatch_all cid j ((i, s) ∷ d) = ground (arith, find-unwatch_all cid j d)

-- The connection owns the session.
abbrev pub has_owner : ℕ → Session → Bool
has_owner id s = elim s.connection_id [ none ↦ false | some owner ↦ owner == id ]

-- The backend runs, and a turn is in flight.
abbrev is_busy : Option BackendView → Bool
is_busy none = false
is_busy (some b) = b.running && b.turn_active

-- The watches of the other connections.
abbrev other_watchers : ℕ → List (ℕ × Writer) → List (ℕ × Writer)
other_watchers id ws = select (λ w. not (w.0 == id)) ws

-- A session without its owner: nobody is attached, a busy backend goes on and is marked to end with
-- its turn, another backend is given up.
abbrev without_owner : ℕ → Session → Session
without_owner now s = record s {
  connection_id = none;
  writer = none;
  detached_at = some now;
  backend = if is_busy s.backend then s.backend else none;
  finishing = s.finishing || is_busy s.backend;
}

abbrev without_watcher : ℕ → Session → Session
without_watcher id s = record s { watchers = other_watchers id s.watchers }

-- What a closed connection leaves of a session that is there.
abbrev pub left : ℕ → ℕ → Option Session → Option Session
left now id none = none
left now id (some s) = some (without_watcher id (if has_owner id s then without_owner now s else s))

-- No connection has two entries.
abbrev pub OneEach : List (ℕ × Writer) → Type 0
OneEach [] = Unit
OneEach ((j, w) ∷ ws) = (any (λ e. e.0 == j) ws ≡ false) × OneEach ws

select-absent :
    (id : ℕ) (ws : List (ℕ × Writer)) → any (λ e. e.0 == id) ws ≡ false → other_watchers id ws ≡ ws
unfolding select
select-absent id [] h = refl
select-absent id ((j, w) ∷ ws) h = ground (arith, select-absent id ws)

pop_watcher-select :
    (id : ℕ) (ws : List (ℕ × Writer)) → OneEach ws → (pop_watcher id ws).0 ≡ other_watchers id ws
unfolding pop_watcher select
pop_watcher-select id [] h = refl
pop_watcher-select id ((j, w) ∷ ws) h = elim (Bool-cases (j == id)) [
  | inl e ↦
      let same : j ≡ id = (==_iff j id).0 e in
      rw (e) (sym (select-absent id ws (subst (λ n. any (λ e. e.0 == n) ws ≡ false) same h.0)))
  | inr e ↦ rw (e, pop_watcher-select id ws h.1) refl
]

soften-without_owner : (now : ℕ) (s : Session) → soft_detached now s ≡ without_owner now s
unfolding soft_detached soften detach_writer mark_finishing
soften-without_owner now s = ground arith

-- The same by the table's methods.
abbrev by_code : ℕ → ℕ → Option Session → Option Session
by_code now id none = none
by_code now id (some s) =
    some (remove_watcher id (if is_owned_by id s then soft_detached now s else s)).0

without_owner-watchers :
    (now id : ℕ) (s : Session) → OneEach s.watchers → (remove_watcher id s).0 ≡ without_watcher id s
unfolding remove_watcher
without_owner-watchers now id s h =
    ap (λ ws. record s { watchers = ws }) (pop_watcher-select id s.watchers h)

by_code-left :
    (now id : ℕ) (o : Option Session)
    → ((s : Session) → o ≡ some s → OneEach s.watchers)
    → by_code now id o ≡ left now id o
unfolding is_owned_by
by_code-left now id none h = refl
by_code-left now id (some s) h = elim (Bool-cases (is_owned_by id s)) [
  | inl e ↦
      let gone = without_owner-watchers now id (without_owner now s) (h s refl) in
      rw (e, soften-without_owner now s, gone) refl
  | inr e ↦ rw (e, without_owner-watchers now id s (h s refl)) refl
]

released : (now id : ℕ) (s : Session) → is_owned_by id (soft_detached now s) ≡ false
unfolding is_owned_by soft_detached soften detach_writer mark_finishing
released now id s = ground arith

owned-remove_watcher :
    (id : ℕ) (s : Session) → is_owned_by id (remove_watcher id s).0 ≡ is_owned_by id s
unfolding is_owned_by remove_watcher
owned-remove_watcher id s = refl

owned-by_code :
    (now id : ℕ) (o : Option Session) (s : Session)
    → by_code now id o ≡ some s
    → is_owned_by id s ≡ false
owned-by_code now id none s h = cc
owned-by_code now id (some r) s h = ground (
  arith,
  h,
  owned-remove_watcher id (if is_owned_by id r then soft_detached now r else r),
  released now id r,
)

find-owned :
    (now id : ℕ) (j : String) (t : Table) (o : Option Session)
    → Distinct t.sessions
    → Keyed t.sessions
    → find j t.sessions ≡ o
    → unwatched id (
        if is_listed j (owned_ids id t)
        then detached now (find j t.sessions)
        else find j t.sessions)
      ≡ by_code now id o
unfolding owned_ids
find-owned now id j t none u q h = ground (arith, h)
find-owned now id j t (some s) u q h =
    ground (arith, h, picked-some (is_owned_by id) j t.sessions s u q h)

find_connection-select :
    (id : ℕ) (cs : List (ℕ × Connection))
    → find_connection id (select (λ e. not (e.0 == id)) cs) ≡ none
unfolding find_connection select
find_connection-select id [] = refl
find_connection-select id ((j, c) ∷ cs) = ground (arith, find_connection-select id cs)

found-close_connection :
    (o : Outside) (id : ℕ) (j : String) (d : Daemon)
    → Distinct d.table.sessions
    → Keyed d.table.sessions
    → find j (close_connection o id d).table.sessions ≡ by_code o.now id (find j d.table.sessions)
unfolding close_connection detach_all_for_connection remove_all_watchers_for_connection
found-close_connection o id j d u q =
    find-unwatch_all id j (detach_each o.now (owned_ids id d.table) d.table).sessions
    ∙ ap (unwatched id) (find-detach_each o.now (owned_ids id d.table) j d.table)
    ∙ find-owned o.now id j d.table (find j d.table.sessions) u q refl

-- When a connection ends, every session is as an independent description has it. A session that it
-- owns has no owner and no writer from then on and the time of its detachment, a busy backend goes on
-- and the session is marked to end it with its turn, any other backend is given up; the connection's
-- watch of the session is gone, and nothing else of the session differs. Of another session only that
-- watch is gone. No session is the connection's own any more, and the daemon forgets it. Conditions:
-- the table's keys are different, each is the id of its session, and no connection has two entries
-- among the watches of the session.
pub find-close_connection :
    (o : Outside) (id : ℕ) (j : String) (d : Daemon)
    → Distinct d.table.sessions
    → Keyed d.table.sessions
    → ((s : Session) → find j d.table.sessions ≡ some s → OneEach s.watchers)
    → (find j (close_connection o id d).table.sessions ≡ left o.now id (find j d.table.sessions))
      × ((s : Session)
          → find j (close_connection o id d).table.sessions ≡ some s
          → has_owner id s ≡ false)
      × (find_connection id (close_connection o id d).connections ≡ none)
unfolding is_owned_by close_connection detach_all_for_connection remove_all_watchers_for_connection
find-close_connection o id j d u q w =
    let same = found-close_connection o id j d u q in
    (
      same ∙ by_code-left o.now id (find j d.table.sessions) w,
      λ s h. owned-by_code o.now id (find j d.table.sessions) s (sym same ∙ h),
      find_connection-select id d.connections,
    )
