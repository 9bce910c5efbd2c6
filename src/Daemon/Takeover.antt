-- ===== src/Daemon/Takeover.antt =====
-- A second connection opens a session that another one owns.
use blemees_daemon.Prelude.{
  subst, ℕ, ==_iff, ◌≡◌, ◌≢◌, refl, sym, ap, ◌∙◌, Bool, true, false, Option, none, some, List, [],
  ◌∷◌, String, str_eq, eq_iff, eq_refl, arith, any, inl, inr, Option-cases, is_some,
}
use blemees_daemon.EventLog.{Frame}
use blemees_daemon.Protocol.{OpenMessage}
use blemees_daemon.Session.{Session, BackendView, Env, Sent, Writer, Attached, attach}
use blemees_daemon.Table.{Table, find, store}
use blemees_daemon.Table.Lookup.{find-put}
use blemees_daemon.Daemon.{
  Daemon, Connection, Outside, env, find_connection, change_connection, push_frame, emit_frame,
  emit_sent, owns, own, disown, Outcome, drop_text,
}
use blemees_daemon.Daemon.Sound.{table-emit_sent}
use blemees_daemon.Daemon.Opening.{
  notify_session_taken, taken_frame, take_over, handle_open, attach_owner, finish_open,
  opened_frame, or_zero, peer_pid_of,
}
use blemees_daemon.Daemon.Ownership.{find-change_connection}

pub owns-emit_frame :
    (id j : ℕ) (f : Frame) (sid : String) (d : Daemon)
    → owns j sid (emit_frame id f d) ≡ owns j sid d
unfolding emit_frame owns push_frame
owns-emit_frame id j f sid d =
    ground (arith, find-change_connection id j (push_frame f) d.connections, ==_iff id j)

owns-emit_sent :
    (sent : Sent) (j : ℕ) (sid : String) (d : Daemon) → owns j sid (emit_sent sent d) ≡ owns j sid d
unfolding emit_sent
owns-emit_sent [] j sid d = refl
owns-emit_sent ((w, f) ∷ rest) j sid d =
    owns-emit_sent rest j sid (emit_frame w f d) ∙ owns-emit_frame w j f sid d

attach_owner_id :
    (e : Env) (s : Session) (cid : ℕ) (w : Writer) (last : Option ℕ)
    → ((attach e s cid w last).session.connection_id ≡ some cid)
      × ((attach e s cid w last).session.session_id ≡ s.session_id)
unfolding attach
attach_owner_id e s cid w none = (refl, refl)
attach_owner_id e s cid w (some k) = (ground arith, ground arith)

finish_open_state :
    (a : Attached) (d : Daemon)
    → (finish_open a d).0 ≡ emit_sent a.sent (record d { table = store a.session d.table })
unfolding finish_open
finish_open_state a d = ground arith

any-drop_text :
    (sid : String) (xs : List String) → any (λ x. str_eq x sid) (drop_text sid xs) ≡ false
unfolding drop_text
any-drop_text sid [] = refl
any-drop_text sid (x ∷ xs) = ground (arith, any-drop_text sid xs)

owns-disown :
    (prev : ℕ) (sid : String) (d : Daemon)
    → owns prev sid (record d { connections = change_connection prev (disown sid) d.connections })
      ≡ false
unfolding owns disown
owns-disown prev sid d = elim (Option-cases (find_connection prev d.connections)) [
  | inl e ↦
      ground (arith, find-change_connection prev prev (disown sid) d.connections, ==_iff prev prev)
  | inr (c, e) ↦ ground (
    arith,
    find-change_connection prev prev (disown sid) d.connections,
    ==_iff prev prev,
    any-drop_text sid c.owned,
  )
]

owns-own :
    (id : ℕ) (sid : String) (d : Daemon) (c : Connection)
    → find_connection id d.connections ≡ some c
    → owns id sid (record d { connections = change_connection id (own sid) d.connections }) ≡ true
unfolding owns own
owns-own id sid d c h =
    ground (arith, find-change_connection id id (own sid) d.connections, ==_iff id id, eq_refl sid)

-- An ownership that another connection's change leaves alone.
owns_other :
    (k j : ℕ) (f : Connection → Connection) (sid : String) (d : Daemon)
    → k ≢ j
    → owns j sid (record d { connections = change_connection k f d.connections }) ≡ owns j sid d
unfolding owns
owns_other k j f sid d ne = ground (arith, find-change_connection k j f d.connections, ==_iff k j)

-- The connection owns the session, and the session belongs to it.
pub record Holds (id : ℕ) (sid : String) (d : Daemon) : Type 0 where
  pub owned : owns id sid d ≡ true
  pub session : Session
  pub found : find sid d.table.sessions ≡ some session
  pub connection : session.connection_id ≡ some id

pub owns_same_connections :
    (j : ℕ) (sid : String) (t : Table) (d : Daemon)
    → owns j sid (record d { table = t }) ≡ owns j sid d
unfolding owns
owns_same_connections j sid t d = refl

find-store :
    (s : Session) (t : Table) (sid : String)
    → s.session_id ≡ sid
    → find sid (store s t).sessions ≡ some s
unfolding store
find-store s t sid e =
    ground (arith, find-put s.session_id sid s t.sessions, eq_iff s.session_id sid)

finish_open-Holds :
    (id : ℕ) (sid : String) (a : Attached) (d : Daemon)
    → owns id sid d ≡ true
    → a.session.connection_id ≡ some id
    → a.session.session_id ≡ sid
    → Holds id sid (finish_open a d).0
finish_open-Holds id sid a d own_it conn same =
    let d' = record d { table = store a.session d.table } in
    subst (Holds id sid) (sym (finish_open_state a d)) (record {
      owned =
          owns-emit_sent a.sent id sid d'
          ∙ owns_same_connections id sid (store a.session d.table) d
          ∙ own_it;
      session = a.session;
      found =
          ap (λ (t : Table). find sid t.sessions) (table-emit_sent a.sent d')
          ∙ find-store a.session d.table sid same;
      connection = conn;
    })

owns-finish_open :
    (j : ℕ) (sid : String) (a : Attached) (d : Daemon)
    → owns j sid (finish_open a d).0 ≡ owns j sid d
owns-finish_open j sid a d =
    ap (owns j sid) (finish_open_state a d)
    ∙ owns-emit_sent a.sent j sid (record d { table = store a.session d.table })
    ∙ owns_same_connections j sid (store a.session d.table) d

pub attach_owner-Holds :
    (o : Outside) (id : ℕ) (m : OpenMessage) (s : Session) (d : Daemon) (c : Connection)
    → find_connection id d.connections ≡ some c
    → s.session_id ≡ m.session_id
    → Holds id m.session_id (attach_owner o id m s d).0
unfolding attach_owner
attach_owner-Holds o id m s d c h same =
    let d0 = record d { connections = change_connection id (own m.session_id) d.connections } in
    let last = some (or_zero m.last_seen_seq) in
    let (conn, kept) = attach_owner_id (env o) s id id last in
    finish_open-Holds id m.session_id (attach (env o) s id id last)
      (emit_frame id (opened_frame m s) d0)
      (owns-emit_frame id id (opened_frame m s) m.session_id d0 ∙ owns-own id m.session_id d c h)
      conn (kept ∙ same)

pub owns-attach_owner :
    (o : Outside) (id j : ℕ) (m : OpenMessage) (s : Session) (sid : String) (d : Daemon)
    → id ≢ j
    → owns j sid (attach_owner o id m s d).0 ≡ owns j sid d
unfolding attach_owner
owns-attach_owner o id j m s sid d ne =
    let d0 = record d { connections = change_connection id (own m.session_id) d.connections } in
    let last = some (or_zero m.last_seen_seq) in
    owns-finish_open j sid (attach (env o) s id id last) (emit_frame id (opened_frame m s) d0)
    ∙ owns-emit_frame id j (opened_frame m s) sid d0
    ∙ owns_other id j (own m.session_id) sid d ne

take_over_told :
    (id prev : ℕ) (s : Session) (d : Daemon)
    → s.connection_id ≡ some prev
    → prev ≢ id
    → take_over id s d ≡ notify_session_taken prev s.session_id (peer_pid_of id d) d
unfolding take_over
take_over_told id prev s d e ne = ground (arith, ==_iff prev id)

take_over_old :
    (id prev : ℕ) (s : Session) (d : Daemon)
    → s.connection_id ≡ some prev
    → prev ≢ id
    → owns prev s.session_id (take_over id s d) ≡ false
unfolding notify_session_taken
take_over_old id prev s d e ne =
    let d0 = record d {
      connections = change_connection prev (disown s.session_id) d.connections;
    } in
    ap (owns prev s.session_id) (take_over_told id prev s d e ne)
    ∙ owns-emit_frame prev prev (taken_frame s.session_id (peer_pid_of id d)) s.session_id d0
    ∙ owns-disown prev s.session_id d

some_of {ℓ} : {A : Type ℓ} (o : Option A) → is_some o ≡ true → (a : A) × (o ≡ some a)
some_of none h = cc
some_of (some a) h = (a, refl)

is_connected : ℕ → Daemon → Bool
is_connected id d = is_some (find_connection id d.connections)

connected-change :
    (k id : ℕ) (f : Connection → Connection) (d : Daemon)
    → is_connected id (record d { connections = change_connection k f d.connections })
      ≡ is_connected id d
unfolding is_connected
connected-change k id f d = ground (arith, find-change_connection k id f d.connections)

connected-emit_frame :
    (k id : ℕ) (f : Frame) (d : Daemon) → is_connected id (emit_frame k f d) ≡ is_connected id d
unfolding emit_frame
connected-emit_frame k id f d = connected-change k id (push_frame f) d

connected-take_over :
    (id prev : ℕ) (s : Session) (d : Daemon)
    → s.connection_id ≡ some prev
    → prev ≢ id
    → is_connected id (take_over id s d) ≡ is_connected id d
unfolding notify_session_taken
connected-take_over id prev s d e ne =
    ap (is_connected id) (take_over_told id prev s d e ne)
    ∙ connected-emit_frame prev id (taken_frame s.session_id (peer_pid_of id d))
        (record d { connections = change_connection prev (disown s.session_id) d.connections })
    ∙ connected-change prev id (disown s.session_id) d

find_after_take_over :
    (id prev : ℕ) (s : Session) (d : Daemon) (c : Connection)
    → s.connection_id ≡ some prev
    → prev ≢ id
    → find_connection id d.connections ≡ some c
    → (c' : Connection) × (find_connection id (take_over id s d).connections ≡ some c')
unfolding is_connected
find_after_take_over id prev s d c e ne h =
    some_of (find_connection id (take_over id s d).connections)
      (connected-take_over id prev s d e ne ∙ ap is_some h)

-- With `resume` a connection takes a session over whose backend runs: then it owns the session, the
-- session belongs to it, and the connection that owned it before does not own it.
pub handle_open-Holds :
    (o : Outside) (id prev : ℕ) (m : OpenMessage) (s : Session) (b : BackendView) (c : Connection)
    (d : Daemon)
    → find_connection id d.connections ≡ some c
    → find m.session_id d.table.sessions ≡ some s
    → s.session_id ≡ m.session_id
    → m.resume ≡ true
    → s.connection_id ≡ some prev
    → prev ≢ id
    → s.backend ≡ some b
    → b.running ≡ true
    → Holds id m.session_id (handle_open o id m d).0
      × (owns prev m.session_id (handle_open o id m d).0 ≡ false)
unfolding handle_open
handle_open-Holds o id prev m s b c d hc hs same resume hp ne hb runs =
    let s' = record s { open_msg = m } in
    let d' = record (take_over id s d) { table = store s' d.table } in
    let eq : handle_open o id m d ≡ attach_owner o id m s' d' =
      ground (arith, hs, resume, hb, runs) in
    let (c', hc') = find_after_take_over id prev s d c hp ne hc in
    let freed : owns prev m.session_id (attach_owner o id m s' d').0 ≡ false =
      owns-attach_owner o id prev m s' m.session_id d' (λ e. ne (sym e))
      ∙ owns_same_connections prev m.session_id (store s' d.table) (take_over id s d)
      ∙ subst (λ sid. owns prev sid (take_over id s d) ≡ false) same
          (take_over_old id prev s d hp ne) in
    subst (λ (r : Outcome). Holds id m.session_id r.0 × (owns prev m.session_id r.0 ≡ false))
      (sym eq) (attach_owner-Holds o id m s' d' c' hc' same, freed)
