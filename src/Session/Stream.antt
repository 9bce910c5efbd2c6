-- ===== src/Session/Stream.antt =====
-- The event stream: numbers rise, and the ring holds the last frames of all that were emitted.
use blemees_daemon.Prelude.{
  ℕ, suc, ◌≤◌, ◌<◌, ◌≡◌, refl, List, Option, some, none, arith, take_right,
}
use blemees_daemon.Json.{num}
use blemees_daemon.Json.Laws.{get-insert_self}
use blemees_daemon.EventLog.{Frame}
use blemees_daemon.EventLog.Replay.{HasSeq, Ascending, Ascending-raise}
use blemees_daemon.Session.{Session, Env, Writer, tag, attach, add_watcher}

-- `h` is every frame that `on_event` emitted, in order: the ring holds its end.
pub record Tracks (h : List Frame) (s : Session) : Type 0 where
  pub room : 0 < s.ring.capacity
  pub kept : s.ring.buf ≡ take_right s.ring.capacity h
  pub rising : Ascending 0 h s.seq

pub tag-HasSeq : (s : Session) (f : Frame) → HasSeq (tag s f) (suc s.seq)
unfolding tag
tag-HasSeq s f = get-insert_self "seq" (num (suc s.seq)) _

-- An operation that leaves the ring and does not lower the number.
pub record Keeps (s t : Session) : Type 0 where
  pub ring : t.ring ≡ s.ring
  pub seq : s.seq ≤ t.seq

pub Keeps-Tracks : (h : List Frame) (s t : Session) → Keeps s t → Tracks h s → Tracks h t
Keeps-Tracks h s t k v = record {
  room = rw k.ring v.room;
  kept = rw k.ring v.kept;
  rising = Ascending-raise 0 s.seq t.seq h k.seq v.rising;
}

pub attach-Keeps :
    (e : Env) (s : Session) (cid : ℕ) (w : Writer) (last : Option ℕ)
    → Keeps s (attach e s cid w last).session
unfolding attach
attach-Keeps e s cid w none = record { ring = refl; seq = omega arith }
attach-Keeps e s cid w (some k) = record { ring = ground arith; seq = ground arith }

pub add_watcher-Keeps :
    (e : Env) (s : Session) (cid : ℕ) (w : Writer) (last : Option ℕ)
    → Keeps s (add_watcher e s cid w last).session
unfolding add_watcher
add_watcher-Keeps e s cid w none = record { ring = refl; seq = omega arith }
add_watcher-Keeps e s cid w (some k) = record { ring = ground arith; seq = ground arith }
