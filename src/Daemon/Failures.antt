-- ===== src/Daemon/Failures.antt =====
-- What an `agent.open` that fails leaves behind.
use blemees_daemon.Prelude.{
  ℕ, ◌<◌, ◌≡◌, refl, ap, ◌∙◌, true, false, none, some, String, eq_refl, arith, length,
}
use blemees_daemon.Protocol.{OpenMessage}
use blemees_daemon.Session.{Session}
use blemees_daemon.Table.{Table, find, put, new_session, fresh_session, is_expired, remove}
use blemees_daemon.Table.Lookup.{find-put}
use blemees_daemon.Daemon.{Daemon, Outside, owns, Failure, emit_frame, spawn_failure_frame}
use blemees_daemon.Daemon.Opening.{handle_open, needs_spawn, take_over}
use blemees_daemon.Daemon.Takeover.{owns-emit_frame, owns_same_connections}
use blemees_daemon.Daemon.Ownership.{table-emit_frame}
use blemees_daemon.Table.Reaping.{find-remove}

-- The session is in the table, and no reaper takes it out.
pub record Stranded (sid : String) (d : Daemon) : Type 0 where
  pub session : Session
  pub found : find sid d.table.sessions ≡ some session
  pub unowned : session.connection_id ≡ none
  pub kept : (timeout now : ℕ) → is_expired timeout now session ≡ false

-- Where the backend of an open for a new session is not constructed, as its options are refused or
-- another exception is raised, that is after the session was registered: it stays in the table with no owner, and never expires. Conditions: the daemon
-- writes no event log, the id is new, the table has room, and the construction raises.
pub handle_open-Stranded :
    (o : Outside) (id : ℕ) (m : OpenMessage) (e : Failure) (d : Daemon)
    → d.table.logging ≡ false
    → find m.session_id d.table.sessions ≡ none
    → length d.table.sessions < d.table.max_concurrent
    → o.backends.validate m ≡ some e
    → ((handle_open o id m d).1 ≡ some e) × Stranded m.session_id (handle_open o id m d).0
unfolding handle_open new_session fresh_session is_expired
handle_open-Stranded o id m e d quiet absent room bad =
    let s = fresh_session d.table.ring_buffer_size o.now_ms m in
    (
      ground (arith, quiet, absent, room, bad),
      record {
        session = s;
        found = ground (
          arith,
          quiet,
          absent,
          room,
          bad,
          find-put m.session_id m.session_id s d.table.sessions,
          eq_refl m.session_id,
        );
        unowned = refl;
        kept = λ timeout now. refl;
      },
    )

-- Where the owner opens its session again and the spawn fails, the session is removed, and yet the
-- connection goes on to own its id. Conditions: the session is the caller's, its backend does not
-- run, the options pass, and the spawn fails.
pub owns-handle_open_failed :
    (o : Outside) (id : ℕ) (m : OpenMessage) (s : Session) (d : Daemon)
    → owns id m.session_id d ≡ true
    → find m.session_id d.table.sessions ≡ some s
    → s.session_id ≡ m.session_id
    → s.connection_id ≡ some id
    → m.resume ≡ true
    → needs_spawn s ≡ true
    → o.backends.validate m ≡ none
    → o.backends.spawn m true s.usage.native_session_id ≡ none
    → (find m.session_id (handle_open o id m d).0.table.sessions ≡ none)
      × (owns id m.session_id (handle_open o id m d).0 ≡ true)
unfolding handle_open take_over
owns-handle_open_failed o id m s d own_it found same conn resume dead passes fails =
    let s' = record s { open_msg = m } in
    let t' = record d.table { sessions = put s.session_id s' d.table.sessions } in
    let d' = record d { table = (remove m.session_id false t').0 } in
    let frame = spawn_failure_frame o m.id m.session_id in
    let eq : (handle_open o id m d).0 ≡ emit_frame id frame d' =
      ground (arith, found, resume, dead, passes, fails) in
    (
      ap (λ (x : Daemon). find m.session_id x.table.sessions) eq
          ∙ ap (λ (t : Table). find m.session_id t.sessions) (table-emit_frame id frame d')
          ∙ find-remove m.session_id m.session_id false t'
          ∙ ground (arith, eq_refl m.session_id),
      ap (owns id m.session_id) eq
          ∙ owns-emit_frame id id frame m.session_id d'
          ∙ owns_same_connections id m.session_id (remove m.session_id false t').0 d
          ∙ own_it,
    )
