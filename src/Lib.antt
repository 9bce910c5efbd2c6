-- ===== src/Lib.antt =====
-- A model of blemees-agentd, the daemon that runs coding agents (Claude Code, Codex) as children
-- and lets clients on a Unix socket open, drive, watch and list their sessions. Paths are those of
-- the repository.
--
-- The parts, and how they interact. A client's line is parsed to a JSON object
-- (blemees_agent/protocol.py) and routed to a handler of its connection (blemees_agent/daemon.py).
-- The handlers work on the session table and its sessions (blemees_agent/session.py). A session's
-- backend (blemees_agent/backends/) emits events, which `Session.on_event` numbers, keeps in the
-- ring and in the log (blemees_agent/event_log.py) and hands to the owner and the watchers. A
-- client that comes back gives the last number that it has seen, and is sent the rest.
--
-- The files:
--   Prelude, Prelude/Tests, Prelude/Lists, Prelude/Int: shared names, Boolean tests, lists and
--     integers over the native numbers.
--   Json, Json/Laws: JSON values and Python's `dict` of text keys.
--   EventLog: blemees_agent/event_log.py. `RingBuffer` is the deque (`append`, `extend`, `since`,
--     `earliest_seq`, `latest_seq`); the durable log is the list of its file's bytes (`append_line`,
--     `tail`). Its children prove what the ring keeps (Ring), what is replayed
--     (Replay) and what is read from the log (Tail).
--   Errors: blemees_agent/errors.py, and the result of fallible code.
--   Protocol: the messages and the `parse_*` functions of blemees_agent/protocol.py, with proofs in
--     Protocol/Opens.
--   Session: the class `Session`: `on_event`, `attach`, `detach_writer`, `add_watcher`,
--     `remove_watcher`, `broadcast_to_watchers`, `mark_finishing`, `enable_durable_log`. Of its
--     children, Counters models the usage counters and their sidecar file, Title
--     `record_user_message`, and Rows `live_summary` and `usage_snapshot`; Stream, Replay, Delivery,
--     Finishing, TitleBounds, OneLine, TitleLine and Totals hold proofs.
--   Table: the class `SessionTable`, and its proofs in Lookup, Reaping, Capacity and Removal; Lives follows a
--     session from its making.
--   Daemon: `Connection` and `Daemon` of blemees_agent/daemon.py as one state, the table and the
--     connections with their output queues. Opening, Turns, Watching, Listing and Info hold the
--     handlers, Dispatch the routing and the other steps; Ownership with its children, Takeover,
--     Leaving and Failures hold proofs, Sound and its children those of the table under each handler, and
--     Reach those of all the daemon's steps.
--   Frames: what the two translators share, the building of a frame field by field; Frames/Types
--     proves which frames end a turn.
--   Config: `load` of blemees_agent/config.py, with proofs in Config/Precedence.
--   Backend: what the two backends share: the state of a child's process, the frames of errors and
--     of stderr, and `build_spawn_env` of blemees_agent/backends/__init__.py.
--   Claude: Options models `validate_options`, `build_argv` and `argv_to_resume` of
--     blemees_agent/backends/claude.py; Translate models blemees_agent/backends/translate_claude.py,
--     with proofs in Options/Resume, Options/Safety and Translate/TurnEnd; Limiter models
--     `_StderrRateLimiter`, with its proof in Limiter/Window. Runtime models the class
--     `ClaudeBackend`: the calls of the daemon (`spawn`, `send_user_turn`, `interrupt`, `close`), in
--     Readers the tasks that read the child and wait for its exit, and in Steps any order of both;
--     Balance, Calls, Ledger, Exits, Orderly and Muted hold the proofs.
--   Codex: Events, Items, Results and Translate model blemees_agent/backends/translate_codex.py,
--     with proofs in Translate/TurnEnd and Translate/Fresh. Options models the options, argument
--     builders and error tests of blemees_agent/backends/codex.py, and Runtime the class
--     `CodexBackend`: in Handshake the start of a child, in Rpc `_dispatch_rpc` and what it calls,
--     in Readers the lines of the child and its exit, in Steps any order of them; Balance, Ledger,
--     Turns, Late and Stale hold the proofs.
--   Tests: concrete states, and the theorems applied to them.
--
-- How the code is modelled. A handler is a function from the daemon's state to the state after it
-- and the exception that it lets through; a handler that raises keeps what it changed before. The
-- handlers run one after the other: an `await` inside one is not split, and the wait of a full
-- output queue is left out. A writer callback is known by the number of its connection; the
-- daemon's callback raises nothing, while the theorems on sessions take any test of whether a
-- writer accepts a frame. An object that two places share (a session and the table) is written
-- back where the code changes it. A backend's calls and the messages of its child are steps that
-- can come in any order; `interrupt` of Claude waits for the child in the middle and is two of
-- them, and so is each wait of the Codex handshake. Between two waits a call runs whole: the wait
-- of `_on_event` is left out, and the wait of `stdin.drain()` in `send_user_turn` and in
-- `_write_line` is merged into its step, whose flag says whether the pipe took the line; what
-- another task does during that wait comes before or after the step. A child is its return code and the lines written to it. Clocks are
-- arguments. Numbers are unbounded, as in Python. Loops run over lists, so no function needs fuel.
--
-- What stands for other code, as parameters: the JSON encoder and decoder (`Codec`, `Printer`),
-- the text methods of Python (`Texts`), the backends' processes (`Backends`), the scans of on-disk
-- transcripts (`DiskRows`, `InfoSources`), the parsers of TOML and of arguments, `int()`, and the
-- wording of exceptions and crashes. Floats are kept as their text: a comparison of a float number is
-- taken as a TypeError. A write to the durable log fails by an OSError only, which `on_event` passes
-- over: a frame whose text cannot be encoded, as it has a lone surrogate, has no path. Of a spawn, a
-- turn and an interrupt the daemon meets the exceptions of blemees_agent/errors.py only; the
-- construction of a backend may raise any.
--
-- Not modelled: sockets, pipes, signals and files (the state holds a file's content), the
-- handshake and the shutdown of the daemon, the scans of on-disk sessions of both backends, the
-- command line, the client, the logging, the benchmark and the scripts. They are input and output,
-- or are left to the parameters above. The daemon's steps take a backend as the parameter
-- `Backends`; they are not yet run together with the models of the two backends. Log calls are
-- left out.
pub mod Prelude
pub mod Json
pub mod EventLog
pub mod Errors
pub mod Protocol
pub mod Session
pub mod Table
pub mod Daemon
pub mod Frames
pub mod Backend
pub mod Config
pub mod Claude
pub mod Codex
pub mod Tests
