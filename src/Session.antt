-- ===== src/Session.antt =====
-- blemees_agent/session.py, class Session: the event stream of one session. Each method takes the
-- session and returns the new one, with the frames that it handed to writers, in order.
pub mod Counters
pub mod Title
pub mod Rows
pub mod TitleBounds
pub mod OneLine
pub mod TitleLine
pub mod Totals
pub mod Finishing
pub mod Stream
pub mod Replay
pub mod Delivery
use blemees_daemon.Prelude.{
  ℕ, suc, ◌+◌, ◌-◌, ltb, ◌==◌, ◌&&◌, Bool, true, false, not, Option, none, some, List, [], ◌∷◌,
  ◌++◌, String, length, if◌then◌else◌, is_some,
}
use mathlib.Core.Option
use blemees_daemon.Prelude.Int.{pos_part}
use blemees_daemon.Json.{
  Value, Fields, null, str, end, field, get, insert, set_default, num, as_int,
}
use blemees_daemon.EventLog.{
  Frame, RingBuffer, append, extend, since, earliest_seq, latest_seq, exceeds, Codec, append_line,
  tail,
}
use blemees_daemon.Protocol.{OpenMessage, truthy}
use Counters.{Usage, update_usage, load_sidecar, has_type}
use Title.{Text, record_title}

-- What the daemon sees of an AgentBackend.
pub record BackendView : Type 0 where
  pub running : Bool
  pub turn_active : Bool
  pub pid : Option ℕ

-- A writer callback is known by a number, the id of the connection that it belongs to.
abbrev pub Writer : Type 0
Writer = ℕ

pub record Session : Type 0 where
  pub session_id : String
  pub open_msg : OpenMessage
  pub cwd : Value
  pub backend_name : String
  pub connection_id : Option ℕ
  pub backend : Option BackendView
  pub detached_at : Option ℕ
  pub seq : ℕ
  pub ring : RingBuffer
  pub log : Option (List ℕ)
  pub writer : Option Writer
  pub finishing : Bool
  pub watchers : List (ℕ × Writer)
  pub usage : Usage
  pub started_at_ms : Option ℕ
  pub title : Option Text

-- The outside of one call: the JSON codec, whether a writer takes a frame or raises, whether the
-- log and the sidecar can be written, and the wall clock.
pub record Env : Type 0 where
  pub codec : Codec
  pub accepts : Writer → Frame → Bool
  pub log_writable : Bool
  pub sidecar_writable : Bool
  pub now_ms : ℕ

abbrev pub Sent : Type 0
Sent = List (Writer × Frame)

-- The frame as it goes out: with the session's id, and the next number in place of any it had.
unfoldable pub tag : Session → Frame → Frame
tag s f = insert "seq" (num (suc s.seq)) (set_default "session_id" (str s.session_id) f)

-- An OSError of the log is passed over.
log_frame : Env → Frame → Option (List ℕ) → Option (List ℕ)
log_frame e f none = none
log_frame e f (some file) = some (if e.log_writable then append_line e.codec file f else file)

write_to : Env → Frame → Option Writer → Option Writer × Sent
write_to e f none = (none, [])
write_to e f (some w) = if e.accepts w f then (some w, (w, f) ∷ []) else (none, [])

-- The fan-out: a watcher whose writer raises is dropped.
unfoldable pub fan_out : Env → Frame → List (ℕ × Writer) → List (ℕ × Writer) × Sent
fan_out e f [] = ([], [])
fan_out e f ((id, w) ∷ ws) =
    let (kept, sent) = fan_out e f ws in
    if e.accepts w f then ((id, w) ∷ kept, (w, f) ∷ sent) else (kept, sent)

pub record Emitted : Type 0 where
  pub session : Session
  pub sent : Sent
  -- A task that closes the backend is scheduled.
  pub soft_kill : Bool

ends_finishing : Session → Frame → Bool
ends_finishing s f = s.finishing && has_type "agent.result" f

-- Session.on_event
unfoldable pub on_event : Env → Session → Frame → Emitted
unfolding tag log_frame write_to ends_finishing
on_event e s frame =
    let f = tag s frame in
    let (writer', sent) = write_to e f s.writer in
    let (watchers', fanned) = fan_out e f s.watchers in
    record {
      session = record s {
        seq = suc s.seq;
        ring = append s.ring f;
        log = log_frame e f s.log;
        usage = update_usage e.sidecar_writable e.now_ms s.session_id f s.usage;
        writer = writer';
        watchers = watchers';
        finishing = s.finishing && not (has_type "agent.result" f);
      };
      sent = sent ++ fanned;
      soft_kill = ends_finishing s f && is_some s.backend;
    }

pub record Summary : Type 0 where
  pub replayed : ℕ
  pub gap_from : ℕ
  pub gap_to : ℕ

abbrev pub no_replay : Summary
no_replay = record { replayed = 0; gap_from = 0; gap_to = 0 }

-- `attach` and `add_watcher` let an exception through: then there is no summary.
pub record Attached : Type 0 where
  pub session : Session
  pub sent : Sent
  pub summary : Option Summary

-- for frame in to_replay: await writer(frame); the flag is false if the writer raised
unfoldable pub send_all : Env → Writer → List Frame → Sent × Bool
send_all e w [] = ([], true)
send_all e w (f ∷ fs) =
    let (sent, done) = send_all e w fs in
    if e.accepts w f then ((w, f) ∷ sent, done) else ([], false)

unfoldable pub gap_frame : String → ℕ → Value → ℕ → Frame
gap_frame sid since_seq first n = field "type" (str "agent.replay_gap") (
    field "session_id" (str sid) (
      field "since_seq" (num since_seq)
        (field "first_available_seq" first (field "seq" (num n) end))))

-- earliest is not None and earliest > last_seen_seq + 1; `none` is a TypeError
unfoldable pub gap_test : Value → ℕ → Option Bool
gap_test null k = some false
gap_test v k = exceeds v (k + 1)

-- earliest - 1, of an earliest number that is above the gap's start
before : Value → ℕ
before v = elim (as_int v) [ none ↦ 0 | some n ↦ pos_part n - 1 ]

send_gap : Env → Session → Writer → Frame → Sent → Summary → Attached
send_gap e s w g sent summary =
    if e.accepts w g
    then record {
      session = record s { seq = suc s.seq };
      sent = sent ++ (w, g) ∷ [];
      summary = some summary;
    }
    else record { session = record s { seq = suc s.seq }; sent = sent; summary = none }

-- The notice after the replay, for frames that the ring dropped.
unfoldable pub notice_dropped : Env → Session → Writer → ℕ → ℕ → Sent → Attached
unfolding send_gap gap_frame before
notice_dropped e s w k replayed sent =
    let first = earliest_seq s.ring.buf in
    send_gap e s w (gap_frame s.session_id k first (suc s.seq)) sent
      (record { replayed = replayed; gap_from = k + 1; gap_to = before first })

-- The notice where the ring has nothing after the number, and the session is past it.
unfoldable pub notice_rolled : Env → Session → Writer → ℕ → ℕ → Sent → Attached
unfolding send_gap gap_frame
notice_rolled e s w k replayed sent =
    send_gap e s w (gap_frame s.session_id k (num (suc (suc s.seq))) (suc s.seq)) sent
      (record { replayed = replayed; gap_from = k + 1; gap_to = s.seq })

abbrev pub replay_done : Session → ℕ → Sent → Attached
replay_done s n sent = record {
  session = s;
  sent = sent;
  summary = some (record no_replay { replayed = n });
}

abbrev pub raised : Session → Sent → Attached
raised s sent = record { session = s; sent = sent; summary = none }

is_empty : List Frame → Bool
is_empty [] = true
is_empty (f ∷ fs) = false

attach_gap : Env → Session → Writer → ℕ → List Frame → Sent → Attached
unfolding notice_dropped notice_rolled gap_test is_empty
attach_gap e s w k fs sent = elim (gap_test (earliest_seq s.ring.buf) k) [
  | none ↦ raised s sent
  | some true ↦ notice_dropped e s w k (length fs) sent
  | some false ↦
      if is_empty fs && ltb k s.seq
      then notice_rolled e s w k (length fs) sent
      else replay_done s (length fs) sent
]

attach_replay : Env → Session → Writer → ℕ → List Frame → Attached
unfolding send_all attach_gap
attach_replay e s w k fs =
    let (sent, done) = send_all e w fs in if done then attach_gap e s w k fs sent else raised s sent

abbrev owned_by : ℕ → Writer → Session → Session
owned_by cid w s = record s { connection_id = some cid; detached_at = none; writer = some w }

attach_from : Env → Session → Writer → Option ℕ → Attached
unfolding attach_replay
attach_from e s w none = record { session = s; sent = []; summary = some no_replay }
attach_from e s w (some k) = elim (since k s.ring.buf) [
  | none ↦ raised s []
  | some fs ↦ attach_replay e s w k fs
]

-- Session.attach
unfoldable pub attach : Env → Session → ℕ → Writer → Option ℕ → Attached
unfolding attach_from
attach e s cid w last_seen_seq = attach_from e (owned_by cid w s) w last_seen_seq

-- Session.detach_writer, at a monotonic time
unfoldable pub detach_writer : ℕ → Session → Session
detach_writer now s = record s { writer = none; connection_id = none; detached_at = some now }

-- Session.mark_finishing
unfoldable pub mark_finishing : Session → Session
mark_finishing s = record s { finishing = true }

-- self._watchers[connection_id] = writer
unfoldable pub set_watcher : ℕ → Writer → List (ℕ × Writer) → List (ℕ × Writer)
set_watcher id w [] = (id, w) ∷ []
set_watcher id w ((j, v) ∷ ws) = if j == id then (j, w) ∷ ws else (j, v) ∷ set_watcher id w ws

-- self._watchers.pop(connection_id, None), and whether it was there
unfoldable pub pop_watcher : ℕ → List (ℕ × Writer) → List (ℕ × Writer) × Bool
pop_watcher id [] = ([], false)
pop_watcher id ((j, v) ∷ ws) =
    let (rest, found) = pop_watcher id ws in if j == id then (ws, true) else ((j, v) ∷ rest, found)

watch_gap : Env → Session → Writer → ℕ → List Frame → Sent → Attached
unfolding notice_dropped gap_test
watch_gap e s w k fs sent = elim (gap_test (earliest_seq s.ring.buf) k) [
  | none ↦ raised s sent
  | some true ↦ notice_dropped e s w k (length fs) sent
  | some false ↦ replay_done s (length fs) sent
]

watch_replay : Env → Session → Writer → ℕ → List Frame → Attached
unfolding send_all watch_gap
watch_replay e s w k fs =
    let (sent, done) = send_all e w fs in if done then watch_gap e s w k fs sent else raised s sent

watch_from : Env → Session → Writer → Option ℕ → Attached
unfolding watch_replay
watch_from e s w none = record { session = s; sent = []; summary = some no_replay }
watch_from e s w (some k) = elim (since k s.ring.buf) [
  | none ↦ raised s []
  | some fs ↦ watch_replay e s w k fs
]

-- Session.add_watcher
unfoldable pub add_watcher : Env → Session → ℕ → Writer → Option ℕ → Attached
unfolding watch_from set_watcher
add_watcher e s cid w last_seen_seq =
    watch_from e (record s { watchers = set_watcher cid w s.watchers }) w last_seen_seq

-- Session.remove_watcher
unfoldable pub remove_watcher : ℕ → Session → Session × Bool
unfolding pop_watcher
remove_watcher cid s =
    let (ws, found) = pop_watcher cid s.watchers in (record s { watchers = ws }, found)

-- Session.broadcast_to_watchers: the frame has no number, and is not kept.
unfoldable pub broadcast_to_watchers : Env → Session → Frame → Session × Sent
unfolding fan_out
broadcast_to_watchers e s f =
    let (ws, sent) = fan_out e f s.watchers in (record s { watchers = ws }, sent)

-- Session.record_user_message
unfoldable pub record_user_message : Fields → Session → Session
record_user_message message s = record s { title = record_title s.title message }

-- latest = latest_seq() or 0; if latest > self.seq: self.seq = latest. `none` is a TypeError.
raise_seq : Value → Session → Option Session
unfolding truthy
raise_seq v s =
    if truthy v
    then (elim (as_int v) [
      | none ↦ none
      | some n ↦ some (if ltb s.seq (pos_part n) then record s { seq = pos_part n } else s)
    ])
    else some s

abbrev with_log : List ℕ → Option Value → Session → Session
with_log file sidecar s = record s {
  log = some file;
  usage = load_sidecar (record s.usage { has_path = true; sidecar = sidecar });
}

-- Where the log has a tail, the ring is filled from it, and the number goes on from its last.
seed : List Frame → Session → Option Session
unfolding raise_seq
seed [] s = some s
seed (f ∷ fs) s =
    let ring = extend s.ring (f ∷ fs) in raise_seq (latest_seq ring.buf) (record s { ring = ring })

-- Session.enable_durable_log, over the bytes of the log file and the contents of the sidecar
unfoldable pub enable_durable_log : Codec → List ℕ → Option Value → Session → Option Session
unfolding seed
enable_durable_log c file sidecar s =
    Option.map (with_log file sidecar) (seed (tail c file s.ring.capacity) s)
