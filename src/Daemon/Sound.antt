-- ===== src/Daemon/Sound.antt =====
-- blemees_agent/daemon.py: the session table under the handlers.
pub mod Handlers
pub mod Opens
pub mod Steps
use blemees_daemon.Prelude.{
  ℕ, Bool, true, false, not, Option, none, some, List, [], ◌∷◌, String, ◌≡◌, refl, sym, ap, ◌∙◌,
  subst, inl, inr, str_eq, eq_refl, eq_iff, arith, if◌then◌else◌, Option-cases, Bool-cases, ◌==◌,
}
use blemees_daemon.Json.{Fields}
use blemees_daemon.Errors.{BlemeesError, Result, ok, err}
use blemees_daemon.EventLog.{Frame}
use blemees_daemon.Protocol.{
  OpenMessage, UserMessage, InterruptMessage, CloseMessage, WatchMessage, UnwatchMessage,
}
use blemees_daemon.Session.{
  Session, BackendView, Attached, Sent, Env, on_event, attach, add_watcher, remove_watcher,
  record_user_message, broadcast_to_watchers,
}
use blemees_daemon.Table.{
  Table, find, put, store, try_get, get_session, register, new_session, remove, reap_idle,
  remove_each,
}
use blemees_daemon.Table.Lookup.{find-put, length-put_old, put-Distinct}
use blemees_daemon.Table.Reaping.{Keyed, find-Keyed}
use blemees_daemon.Table.Capacity.{IsSound, put-Keyed, remove-IsSound}
use blemees_daemon.Daemon.{Daemon, Outside, Outcome, env, emit_frame, emit_sent, owns}

-- A session that is stored under an id that is there leaves the table sound.
pub store-IsSound :
    (s r : Session) (t : Table)
    → find s.session_id t.sessions ≡ some r
    → IsSound t
    → IsSound (store s t)
unfolding store
store-IsSound s r t e h = record {
  distinct = put-Distinct s.session_id s t.sessions h.distinct;
  keyed = put-Keyed s t.sessions h.keyed;
  within = ground (arith, length-put_old s.session_id s r t.sessions e, h.within);
}

pub find-store : (s : Session) (t : Table) → find s.session_id (store s t).sessions ≡ some s
unfolding store
find-store s t = find-put s.session_id s.session_id s t.sessions ∙ rw (eq_refl s.session_id) refl

-- The session stands in the table under its own id.
pub find_self :
    (sid : String) (t : Table) (s : Session)
    → IsSound t
    → find sid t.sessions ≡ some s
    → find s.session_id t.sessions ≡ some s
find_self sid t s h e =
    ap (λ (k : String). find k t.sessions) (find-Keyed sid t.sessions s h.keyed e) ∙ e

pub table-emit_sent : (xs : Sent) (d : Daemon) → (emit_sent xs d).table ≡ d.table
unfolding emit_sent emit_frame
table-emit_sent [] d = refl
table-emit_sent ((w, f) ∷ rest) d = table-emit_sent rest (emit_frame w f d)

pub IsSound-if :
    (c : Bool) (a b : Outcome)
    → IsSound a.0.table
    → IsSound b.0.table
    → IsSound (if c then a else b).0.table
IsSound-if true a b h k = h
IsSound-if false a b h k = k

-- What a session hands out, and the session stored.
pub sent-IsSound :
    (xs : Sent) (s r : Session) (d : Daemon)
    → find s.session_id d.table.sessions ≡ some r
    → IsSound d.table
    → IsSound (emit_sent xs (record d { table = store s d.table })).table
sent-IsSound xs s r d e h =
    subst IsSound (sym (table-emit_sent xs (record d { table = store s d.table })))
      (store-IsSound s r d.table e h)
