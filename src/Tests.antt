-- ===== src/Tests.antt =====
-- Concrete sessions, tables and connections, on which the theorems are applied.
pub mod Translators
pub mod ClaudeTurns
pub mod Configs
pub mod CodexTurns
pub mod Streams
pub mod Tables
pub mod Daemons
pub mod Frontends
use blemees_daemon.Prelude.{ℕ, Bool, true, false, Option, none, some, List, [], ◌∷◌, String}
use blemees_daemon.Json.{Value, Fields, null, str, obj, arr, nil, cons, num, end, field}
use blemees_daemon.EventLog.{Frame, RingBuffer, Codec}
use blemees_daemon.Errors.{BlemeesError, ok}
use blemees_daemon.Protocol.{OpenMessage}
use blemees_daemon.Session.{Session, BackendView, Env}
use blemees_daemon.Session.Counters.{Usage, new_usage}
use blemees_daemon.Table.{Table}
use blemees_daemon.Daemon.{Connection, Daemon, Backends, Outside, Failure}

-- A codec that writes nothing and reads nothing.
abbrev pub codec : Codec
codec = record { dumps = λ f. []; loads = λ bs. none }

abbrev pub quiet_env : Env
quiet_env = record {
  codec = codec;
  accepts = λ w f. true;
  log_writable = true;
  sidecar_writable = true;
  now_ms = 9;
}

abbrev pub open_message : String → OpenMessage
open_message sid = record {
  id = some "r1";
  session_id = sid;
  backend = "claude";
  options = end;
  resume = true;
  last_seen_seq = none;
  alias = none;
}

abbrev pub child : BackendView
child = record { running = true; turn_active = true; pid = some 7 }

abbrev pub delta : String → Frame
delta text = field "type" (str "agent.delta") (field "text" (str text) end)

-- A frame as it stands in the ring of the session "a".
abbrev pub numbered : ℕ → Frame
numbered n =
    field "type" (str "agent.delta")
      (field "session_id" (str "a") (field "backend" (str "claude") (field "seq" (num n) end)))

-- A session that emitted five frames; its ring holds three.
abbrev pub session_a : Session
session_a = record {
  session_id = "a";
  open_msg = open_message "a";
  cwd = null;
  backend_name = "claude";
  connection_id = some 1;
  backend = some child;
  detached_at = none;
  seq = 5;
  ring = record { capacity = 3; buf = numbered 3 ∷ numbered 4 ∷ numbered 5 ∷ [] };
  log = none;
  writer = some 1;
  finishing = false;
  watchers = [];
  usage = new_usage;
  started_at_ms = some 0;
  title = none;
}

abbrev pub history : List Frame
history = numbered 1 ∷ numbered 2 ∷ numbered 3 ∷ numbered 4 ∷ numbered 5 ∷ []

-- A session that its connection left at the time 10.
abbrev pub session_b : Session
session_b = record session_a {
  session_id = "b";
  open_msg = open_message "b";
  connection_id = none;
  backend = none;
  detached_at = some 10;
  writer = none;
}

abbrev pub two_sessions : Table
two_sessions = record {
  sessions = ("a", session_a) ∷ ("b", session_b) ∷ [];
  idle_timeout = 60;
  max_concurrent = 3;
  ring_buffer_size = 3;
  logging = false;
  disk = [];
}

abbrev pub connection : List String → Connection
connection ids = record { alive = true; owned = ids; watched = []; peer_pid = some 5; queue = [] }

-- The connection 1 owns "a", the connection 2 nothing.
abbrev pub daemon : Daemon
daemon = record {
  table = two_sessions;
  connections = (1, connection ("a" ∷ [])) ∷ (2, connection []) ∷ [];
}

-- Backends that refuse the options, or not, and cannot start a child.
abbrev pub backends : Option Failure → Backends
backends refused = record {
  validate = λ m. refused;
  spawn = λ m resume thread. none;
  send_user_turn = λ b m. (none, b);
  interrupt = λ b. (ok true, b);
}

abbrev pub outside : Option Failure → Outside
outside refused = record {
  backends = backends refused;
  codec = codec;
  now = 100;
  now_ms = 100000;
  log_writable = true;
  sidecar_writable = true;
  wording = λ e. "refused";
}
