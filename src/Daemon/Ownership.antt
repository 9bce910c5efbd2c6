-- ===== src/Daemon/Ownership.antt =====
-- blemees_agent/daemon.py: what a frame to one connection leaves of the daemon.
pub mod Keeps
pub mod Watched
pub mod Outsiders
use mathlib.Core.Option
use blemees_daemon.Prelude.{
  ℕ, ◌==◌, ==_iff, ◌≡◌, ◌≢◌, refl, true, false, some, List, [], ◌∷◌, String, arith, if◌then◌else◌,
}
use blemees_daemon.Errors.{session_unknown_error}
use blemees_daemon.EventLog.{Frame}
use blemees_daemon.Protocol.{UserMessage, InterruptMessage, CloseMessage}
use blemees_daemon.Daemon.{
  Daemon, Connection, Outside, find_connection, change_connection, push_frame, emit_frame, known,
  owns,
}
use blemees_daemon.Daemon.Turns.{handle_user, handle_interrupt, interrupted_frame}
use blemees_daemon.Daemon.Watching.{handle_close, closed_frame}

pub find-change_connection :
    (k j : ℕ) (f : Connection → Connection) (cs : List (ℕ × Connection))
    → find_connection j (change_connection k f cs)
      ≡ (if k == j then Option.map f (find_connection j cs) else find_connection j cs)
unfolding find_connection change_connection
find-change_connection k j f [] = ground arith
find-change_connection k j f ((i, c) ∷ cs) = ground (arith, find-change_connection k j f cs)

pub table-emit_frame : (id : ℕ) (f : Frame) (d : Daemon) → (emit_frame id f d).table ≡ d.table
unfolding emit_frame
table-emit_frame id f d = refl

-- Nothing but the caller's own queue differs.
pub record OnlyQueue (id : ℕ) (d d' : Daemon) : Type 0 where
  pub table : d'.table ≡ d.table
  pub others : (j : ℕ) → j ≢ id → find_connection j d'.connections ≡ find_connection j d.connections
  pub owned : (sid : String) → owns id sid d' ≡ owns id sid d

pub emit_frame-OnlyQueue : (id : ℕ) (f : Frame) (d : Daemon) → OnlyQueue id d (emit_frame id f d)
unfolding emit_frame owns push_frame
emit_frame-OnlyQueue id f d = record {
  table = refl;
  others =
      λ j ne. ground (arith, find-change_connection id j (push_frame f) d.connections, ==_iff id j);
  owned = λ sid.
      ground (arith, find-change_connection id id (push_frame f) d.connections, ==_iff id id);
}
