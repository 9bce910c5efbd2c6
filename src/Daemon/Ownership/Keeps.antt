-- ===== src/Daemon/Ownership/Keeps.antt =====
-- blemees_agent/daemon.py: what the handlers do to a session that the caller does not own.
use blemees_daemon.Prelude.{
  ℕ, Bool, true, false, Option, none, some, String, ◌≡◌, ◌⊎◌, refl, sym, ap, ◌∙◌, inl, inr, str_eq,
  eq_iff, [], subst, if◌then◌else◌, Option-cases, Bool-cases,
}
use blemees_daemon.Errors.{BlemeesError, Result, ok, err}
use blemees_daemon.Protocol.{UserMessage, InterruptMessage}
use blemees_daemon.Session.{Session, BackendView, Sent, record_user_message}
use blemees_daemon.Table.{Table, find, store, try_get, get_session}
use blemees_daemon.Table.Lookup.{find-put}
use blemees_daemon.Table.Capacity.{IsSound}
use blemees_daemon.Daemon.{Daemon, Outside, Outcome, emit_frame, emit_sent, owns}
use blemees_daemon.Daemon.Turns.{
  handle_user, user_turn, respawn, send_turn, end_turn, is_turn_error, handle_interrupt,
  interrupt_session, interrupt_backend,
}
use blemees_daemon.Table.Reaping.{find-Keyed}
use blemees_daemon.Daemon.Sound.{table-emit_sent}

-- A session but for what a watcher may change: its watches, and the number of its last event, which a
-- gap notice raises.
abbrev pub essence : Option Session → Option Session
essence none = none
essence (some s) = some (record s { seq = 0; watchers = [] })

Result-cases {ℓ} :
    {A : Type ℓ} (r : Result A) → ((e : BlemeesError) × (r ≡ err e)) ⊎ ((a : A) × (r ≡ ok a))
Result-cases (ok a) = inr (a, refl)
Result-cases (err e) = inl (e, refl)

module _ (sid : String) (kept : Option Session) where
  -- The session is as it was.
  abbrev pub Keeps : Table → Type 0
  Keeps t = essence (find sid t.sessions) ≡ kept

  -- A session of another id, or one with the same essence as that in the table.
  abbrev pub Spares : Session → Table → Type 0
  Spares s t =
      (str_eq s.session_id sid ≡ false)
      ⊎ (essence (some s) ≡ essence (find s.session_id t.sessions))

  pub store-Keeps : (s : Session) (t : Table) → Spares s t → Keeps t → Keeps (store s t)
  unfolding store
  store-Keeps s t h k = elim (Bool-cases (str_eq s.session_id sid)) [
    | inr other ↦ ap essence (find-put s.session_id sid s t.sessions ∙ rw other refl) ∙ k
    | inl same ↦ elim h [
      | inl other ↦ cc
      | inr eq ↦
          ap essence {y = some s} (find-put s.session_id sid s t.sessions ∙ rw same refl)
          ∙ eq
          ∙ ap (λ j. essence (find j t.sessions)) ((eq_iff s.session_id sid).0 same)
          ∙ k
    ]
  ]

  pub Keeps-if :
      (c : Bool) (a b : Outcome)
      → Keeps a.0.table
      → Keeps b.0.table
      → Keeps (if c then a else b).0.table
  Keeps-if true a b h k = h
  Keeps-if false a b h k = k

  pub sent-Keeps :
      (xs : Sent) (s : Session) (d : Daemon)
      → Spares s d.table
      → Keeps d.table
      → Keeps (emit_sent xs (record d { table = store s d.table })).table
  sent-Keeps xs s d h k =
      subst Keeps (sym (table-emit_sent xs (record d { table = store s d.table })))
        (store-Keeps s d.table h k)

  -- Another session than the one that is kept.
  abbrev IsApart : Session → Type 0
  IsApart s = str_eq s.session_id sid ≡ false

  end_turn-Keeps :
      (o : Outside) (id : ℕ) (m : UserMessage) (s : Session) (e : Option BlemeesError) (d : Daemon)
      → IsApart s
      → Keeps d.table
      → Keeps (end_turn o id m s e d).0.table
  unfolding end_turn record_user_message
  end_turn-Keeps o id m s none d h k =
      store-Keeps (record_user_message m.message s) d.table (inl h) k
  end_turn-Keeps o id m s (some x) d h k =
      Keeps-if (is_turn_error x) _ _ (store-Keeps s d.table (inl h) k)
        (store-Keeps s d.table (inl h) k)

  send_turn-Keeps :
      (o : Outside) (id : ℕ) (m : UserMessage) (s : Session) (b : BackendView) (d : Daemon)
      → IsApart s
      → Keeps d.table
      → Keeps (send_turn o id m s b d).0.table
  unfolding send_turn
  send_turn-Keeps o id m s b d h k =
      let (r, b') = o.backends.send_user_turn b m.message in
      end_turn-Keeps o id m (record s { backend = some b' }) r d h k

  respawn-Keeps :
      (o : Outside) (id : ℕ) (m : UserMessage) (s : Session) (d : Daemon)
      → IsApart s
      → Keeps d.table
      → Keeps (respawn o id m s d).0.table
  unfolding respawn
  respawn-Keeps o id m s d h k = elim (Option-cases (o.backends.validate s.open_msg)) [
    | inr (x, refused) ↦ rw (refused, respawn) k
    | inl valid ↦ elim (Option-cases (o.backends.spawn s.open_msg true s.usage.native_session_id)) [
      | inl failed ↦ rw (valid, failed, respawn) k
      | inr (b, spawned) ↦ rw (valid, spawned, respawn) (send_turn-Keeps o id m s b d h k)
    ]
  ]

  user_turn-Keeps :
      (o : Outside) (id : ℕ) (m : UserMessage) (s : Session) (d : Daemon)
      → IsApart s
      → Keeps d.table
      → Keeps (user_turn o id m s d).0.table
  unfolding user_turn
  user_turn-Keeps o id m s d h k = elim (Option-cases s.backend) [
    | inl e ↦ rw (e, user_turn) (respawn-Keeps o id m s d h k)
    | inr (b, e) ↦
        rw (e, user_turn)
          (Keeps-if b.running _ _ (send_turn-Keeps o id m s b d h k) (respawn-Keeps o id m s d h k))
  ]

  -- What an owner may touch is another session.
  pub apart :
      (id : ℕ) (j : String) (d : Daemon)
      → owns id sid d ≡ false
      → owns id j d ≡ true
      → str_eq j sid ≡ false
  apart id j d h e = elim (Bool-cases (str_eq j sid)) [
    | inr other ↦ other
    | inl same ↦
        let owned : owns id sid d ≡ true =
          ap (λ x. owns id x d) (sym ((eq_iff j sid).0 same)) ∙ e in
        cc
  ]

  pub found-IsApart :
      (j : String) (s : Session) (d : Daemon)
      → IsSound d.table
      → find j d.table.sessions ≡ some s
      → str_eq j sid ≡ false
      → IsApart s
  found-IsApart j s d h e a = ap (λ x. str_eq x sid) (find-Keyed j d.table.sessions s h.keyed e) ∙ a

  pub handle_user-Keeps :
      (o : Outside) (id : ℕ) (m : UserMessage) (d : Daemon)
      → IsSound d.table
      → owns id sid d ≡ false
      → Keeps d.table
      → Keeps (handle_user o id m d).0.table
  unfolding handle_user get_session
  handle_user-Keeps o id m d h n k = elim (Bool-cases (owns id m.session_id d)) [
    | inr e ↦ rw (e, handle_user) k
    | inl e ↦ elim (Option-cases (find m.session_id d.table.sessions)) [
      | inl f ↦ rw (e, f, get_session, handle_user) k
      | inr (s, f) ↦
          rw (e, f, get_session, handle_user)
            (user_turn-Keeps o id m s d
              (found-IsApart m.session_id s d h f (apart id m.session_id d n e)) k)
    ]
  ]

  interrupt_backend-Keeps :
      (o : Outside) (id : ℕ) (j : String) (s : Session) (b : BackendView) (d : Daemon)
      → IsApart s
      → Keeps d.table
      → Keeps (interrupt_backend o id j s b d).0.table
  unfolding interrupt_backend emit_frame
  interrupt_backend-Keeps o id j s b d h k =
      let s' = record s { backend = some (o.backends.interrupt b).1 } in
      let stored = store-Keeps s' d.table (inl h) k in
      elim (Result-cases (o.backends.interrupt b).0) [
        | inl (x, e) ↦ rw (e, interrupt_backend) stored
        | inr (x, e) ↦ rw (e, interrupt_backend) stored
      ]

  interrupt_session-Keeps :
      (o : Outside) (id : ℕ) (j : String) (x : Option Session) (d : Daemon)
      → find j d.table.sessions ≡ x
      → IsSound d.table
      → str_eq j sid ≡ false
      → Keeps d.table
      → Keeps (interrupt_session o id j x d).0.table
  unfolding interrupt_session emit_frame
  interrupt_session-Keeps o id j none d e h a k = k
  interrupt_session-Keeps o id j (some s) d e h a k = elim (Option-cases s.backend) [
    | inl f ↦ rw (f, interrupt_session) k
    | inr (b, f) ↦
        rw (f, interrupt_session)
          (interrupt_backend-Keeps o id j s b d (found-IsApart j s d h e a) k)
  ]

  pub handle_interrupt-Keeps :
      (o : Outside) (id : ℕ) (m : InterruptMessage) (d : Daemon)
      → IsSound d.table
      → owns id sid d ≡ false
      → Keeps d.table
      → Keeps (handle_interrupt o id m d).0.table
  unfolding handle_interrupt try_get emit_frame
  handle_interrupt-Keeps o id m d h n k = elim (Bool-cases (owns id m.session_id d)) [
    | inr e ↦ rw (e, handle_interrupt) k
    | inl e ↦
        rw (e, handle_interrupt)
          (interrupt_session-Keeps o id m.session_id (find m.session_id d.table.sessions) d refl h
            (apart id m.session_id d n e) k)
  ]
