-- ===== src/Table/Lives.antt =====
-- blemees_agent/session.py: a session from the moment that the table makes it. The abstract view is the
-- unbounded journal of all frames that were emitted; the session has a ring and a number.
use blemees_daemon.Prelude.{ℕ, Option, List, [], ◌∷◌, ◌++◌}
use blemees_daemon.Json.{Fields}
use blemees_daemon.EventLog.{Frame}
use blemees_daemon.Session.{
  Session, Env, Writer, tag, on_event, attach, add_watcher, remove_watcher, detach_writer,
  mark_finishing, broadcast_to_watchers, record_user_message,
}

-- What is done with a session: an event of its backend, and the calls of the daemon.
pub data Move : Type 0 where
  event : Env → Frame → Move
  join : Env → ℕ → Writer → Option ℕ → Move
  watch : Env → ℕ → Writer → Option ℕ → Move
  unwatch : ℕ → Move
  detach : ℕ → Move
  finish : Move
  announce : Env → Frame → Move
  message : Fields → Move

unfoldable pub move : Move → Session → Session
unfolding on_event attach add_watcher remove_watcher detach_writer mark_finishing
    broadcast_to_watchers record_user_message
move (event e f) s = (on_event e s f).session
move (join e cid w last) s = (attach e s cid w last).session
move (watch e cid w last) s = (add_watcher e s cid w last).session
move (unwatch cid) s = (remove_watcher cid s).0
move (detach now) s = detach_writer now s
move finish s = mark_finishing s
move (announce e f) s = (broadcast_to_watchers e s f).0
move (message m) s = record_user_message m s

-- The entries of the journal: an event, as it was numbered.
unfoldable pub entries : Move → Session → List Frame
entries (event e f) s = tag s f ∷ []
entries (join e cid w last) s = []
entries (watch e cid w last) s = []
entries (unwatch cid) s = []
entries (detach now) s = []
entries finish s = []
entries (announce e f) s = []
entries (message m) s = []

unfoldable pub live : List Move → Session → Session
unfolding move
live [] s = s
live (m ∷ ms) s = live ms (move m s)

unfoldable pub journal : List Move → Session → List Frame
unfolding entries move
journal [] s = []
journal (m ∷ ms) s = entries m s ++ journal ms (move m s)
