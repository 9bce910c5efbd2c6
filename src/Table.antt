-- ===== src/Table.antt =====
-- blemees_agent/session.py, class SessionTable: the registry of open sessions, over the daemon's
-- event log directory.
pub mod Lives
pub mod Lookup
pub mod Reaping
pub mod Capacity
pub mod Removal
use blemees_daemon.Prelude.{
  ℕ, suc, ◌+◌, leb, ◌==◌, ◌&&◌, Bool, false, Option, none, some, List, [], ◌∷◌, map, String, str_eq,
  length, select, if◌then◌else◌, is_some,
}
use blemees_daemon.Json.{Value, null, get, str}
use blemees_daemon.EventLog.{Codec, new_ring}
use blemees_daemon.Protocol.{OpenMessage}
use blemees_daemon.Errors.{Result, ok, err, session_exists_error, session_unknown_error}
use blemees_daemon.Session.{
  Session, BackendView, detach_writer, mark_finishing, remove_watcher, enable_durable_log,
}
use blemees_daemon.Session.Counters.{new_usage}

-- The daemon's own files of one session: `<id>.jsonl` and `<id>.usage.json`.
pub record Files : Type 0 where
  pub log : List ℕ
  pub sidecar : Option Value

pub record Table : Type 0 where
  pub sessions : List (String × Session)
  pub idle_timeout : ℕ
  pub max_concurrent : ℕ
  pub ring_buffer_size : ℕ
  pub logging : Bool
  -- The files that no open session holds.
  pub disk : List (String × Files)

module _ {ℓ} {A : Type ℓ} where
  -- d.get(k)
  unfoldable pub find : String → List (String × A) → Option A
  find k [] = none
  find k ((j, a) ∷ d) = if str_eq j k then some a else find k d

  -- d[k] = a
  unfoldable pub put : String → A → List (String × A) → List (String × A)
  put k a [] = (k, a) ∷ []
  put k a ((j, b) ∷ d) = if str_eq j k then (j, a) ∷ d else (j, b) ∷ put k a d

  -- d.pop(k, None)
  unfoldable pub discard : String → List (String × A) → List (String × A)
  discard k [] = []
  discard k ((j, a) ∷ d) = let rest = discard k d in if str_eq j k then rest else (j, a) ∷ rest

abbrev pub no_files : Files
no_files = record { log = []; sidecar = none }

files_of : Option Files → Files
files_of none = no_files
files_of (some f) = f

-- Session(...) with the table's defaults
unfoldable pub fresh_session : ℕ → ℕ → OpenMessage → Session
unfolding new_ring new_usage
fresh_session ring_size now m = record {
  session_id = m.session_id;
  open_msg = m;
  cwd = elim (get "cwd" m.options) [ none ↦ null | some v ↦ v ];
  backend_name = m.backend;
  connection_id = none;
  backend = none;
  detached_at = none;
  seq = 0;
  ring = new_ring ring_size;
  log = none;
  writer = none;
  finishing = false;
  watchers = [];
  usage = new_usage;
  started_at_ms = some now;
  title = none;
}

-- SessionTable.new_session; `none` is the TypeError of a log whose last number is no number.
unfoldable pub new_session : Codec → ℕ → Table → OpenMessage → Option Session
unfolding fresh_session find files_of
new_session c now t m =
    let s = fresh_session t.ring_buffer_size now m in
    let files = files_of (find m.session_id t.disk) in
    if t.logging then enable_durable_log c files.log files.sidecar s else some s

-- The text that stands for a session id where the table is full.
abbrev pub full : String
full = "max_concurrent_sessions reached"

-- SessionTable.register
unfoldable pub register : Table → Session → Result Table
unfolding find put
register t s =
    if is_some (find s.session_id t.sessions)
    then err (session_exists_error s.session_id)
    else (if leb t.max_concurrent (length t.sessions)
        then err (session_exists_error full)
        else ok (record t {
          sessions = put s.session_id s t.sessions;
          disk = discard s.session_id t.disk;
        }))

-- SessionTable.try_get
unfoldable pub try_get : Table → String → Option Session
unfolding find
try_get t sid = find sid t.sessions

-- SessionTable.get
unfoldable pub get_session : Table → String → Result Session
unfolding find
get_session t sid = elim (find sid t.sessions) [
  | none ↦ err (session_unknown_error sid)
  | some s ↦ ok s
]

-- A method changed the session in place.
unfoldable pub store : Session → Table → Table
unfolding put
store s t = record t { sessions = put s.session_id s t.sessions }

unfoldable pub list_ids : Table → List String
list_ids t = map (λ e. e.0) t.sessions

-- s.cwd == cwd, for a text
abbrev same_cwd : String → Session → Bool
same_cwd cwd s = elim s.cwd [ str c ↦ str_eq c cwd | _ ↦ false ]

unfoldable pub iter_by_cwd : Table → String → List Session
unfolding select
iter_by_cwd t cwd = select (same_cwd cwd) (map (λ e. e.1) t.sessions)

-- s.backend is not None and s.backend.running and s.backend.turn_active
abbrev pub has_active_turn : Session → Bool
has_active_turn s = elim s.backend [ none ↦ false | some b ↦ b.running && b.turn_active ]

unfoldable pub iter_with_active_turn : Table → List Session
unfolding select
iter_with_active_turn t = select has_active_turn (map (λ e. e.1) t.sessions)

-- What `detach_soft` does to a session: a turn in flight runs on to its result, an idle child is
-- closed, and a dead one forgotten.
unfoldable pub soften : BackendView → Session → Session
soften b s =
    if b.running
    then (if b.turn_active then mark_finishing s else record s { backend = none })
    else record s { backend = none }

unfoldable pub soft_detached : ℕ → Session → Session
unfolding soften
soft_detached now s =
    let s' = detach_writer now s in elim s.backend [ none ↦ s' | some b ↦ soften b s' ]

-- SessionTable.detach_soft
unfoldable pub detach_soft : ℕ → String → Table → Table
unfolding soft_detached store
detach_soft now sid t = elim (find sid t.sessions) [
  | none ↦ t
  | some s ↦ record t { sessions = put sid (soft_detached now s) t.sessions }
]

unfoldable pub is_owned_by : ℕ → Session → Bool
is_owned_by cid s = elim s.connection_id [ none ↦ false | some id ↦ id == cid ]

unfoldable pub detach_each : ℕ → List String → Table → Table
unfolding detach_soft
detach_each now [] t = t
detach_each now (sid ∷ ids) t = detach_each now ids (detach_soft now sid t)

abbrev entry_ids : List (String × Session) → List String
entry_ids = map (λ e. e.1.session_id)

unfoldable pub owned_ids : ℕ → Table → List String
unfolding is_owned_by
owned_ids cid t = entry_ids (select (λ e. is_owned_by cid e.1) t.sessions)

-- SessionTable.detach_all_for_connection
unfoldable pub detach_all_for_connection : ℕ → ℕ → Table → Table × List String
unfolding owned_ids detach_each
detach_all_for_connection now cid t = let ids = owned_ids cid t in (detach_each now ids t, ids)

unfoldable pub unwatch_all : ℕ → List (String × Session) → List (String × Session) × ℕ
unwatch_all cid [] = ([], 0)
unwatch_all cid ((sid, s) ∷ rest) =
    let (s', found) = remove_watcher cid s in
    let (rest', n) = unwatch_all cid rest in ((sid, s') ∷ rest', if found then suc n else n)

-- SessionTable.remove_all_watchers_for_connection
unfoldable pub remove_all_watchers_for_connection : ℕ → Table → Table × ℕ
unfolding unwatch_all
remove_all_watchers_for_connection cid t =
    let (ss, n) = unwatch_all cid t.sessions in (record t { sessions = ss }, n)

-- The files that a removed session leaves: an open log is closed, or unlinked with the sidecar.
leave_files : Bool → Session → List (String × Files) → List (String × Files)
leave_files delete_file s disk = elim s.log [
  | none ↦ disk
  | some file ↦
      if delete_file
      then discard s.session_id disk
      else put s.session_id (record { log = file; sidecar = s.usage.sidecar }) disk
]

-- SessionTable.remove. Beside the table it returns the backend that it closes, if there is one.
unfoldable pub remove : String → Bool → Table → Table × Option BackendView
unfolding leave_files
remove sid delete_file t = elim (find sid t.sessions) [
  | none ↦ (t, none)
  | some s ↦ (
    record t { sessions = discard sid t.sessions; disk = leave_files delete_file s t.disk },
    s.backend,
  )
]

unfoldable pub remove_each : List String → Table → Table
unfolding remove
remove_each [] t = t
remove_each (sid ∷ ids) t = remove_each ids (remove sid false t).0

-- Detached, and for the idle timeout at least.
unfoldable pub is_expired : ℕ → ℕ → Session → Bool
is_expired timeout now s = elim s.connection_id [
  | some _ ↦ false
  | none ↦ elim s.detached_at [ none ↦ false | some at ↦ leb (at + timeout) now ]
]

unfoldable pub expired_ids : ℕ → Table → List String
unfolding is_expired
expired_ids now t = entry_ids (select (λ e. is_expired t.idle_timeout now e.1) t.sessions)

-- SessionTable.reap_idle
unfoldable pub reap_idle : ℕ → Table → Table × List String
unfolding expired_ids remove_each
reap_idle now t = let ids = expired_ids now t in (remove_each ids t, ids)

-- SessionTable.shutdown
unfoldable pub shutdown : Table → Table
unfolding remove_each list_ids
shutdown t = remove_each (list_ids t) t
