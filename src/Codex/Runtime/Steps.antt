-- ===== src/Codex/Runtime/Steps.antt =====
-- blemees_agent/backends/codex.py, CodexBackend: what happens to a backend, as steps in any order.
use blemees_daemon.Prelude.{
  ℕ, ◌+◌, Bool, Option, none, some, List, [], ◌∷◌, ◌++◌, String, if◌then◌else◌,
}
use blemees_daemon.Prelude.Int.{ℤ}
use blemees_daemon.Json.{Fields}
use blemees_daemon.Errors.{BlemeesError}
use blemees_daemon.Frames.{Texts}
use blemees_daemon.Backend.{Crash}
use blemees_daemon.Codex.Runtime.{CodexBackend, send_user_turn, interrupt, close}
use blemees_daemon.Codex.Runtime.Handshake.{begin_spawn, on_initialize, on_tools}
use blemees_daemon.Codex.Runtime.Rpc.{dispatch_rpc}
use blemees_daemon.Codex.Runtime.Readers.{read_stderr, watch_exit}

pub data Action : Type 0 where
  -- Whether the child can be launched.
  launch : Bool → Action
  -- The handshake goes on with the reply to a request, or its time is over.
  greeted : ℕ → Action
  listed : ℕ → Action
  -- Whether the pipe takes the line, and the message.
  user : Bool → Fields → Action
  cancel : Action
  leave : Action
  -- An object that the child sends.
  message : Fields → Action
  stderr : ℕ → String → Action
  exit : ℤ → Action

module _ (texts : Texts) (crash : Crash) where
  unfoldable pub step : Action → CodexBackend → CodexBackend × List Fields
  unfolding begin_spawn on_initialize on_tools send_user_turn interrupt close dispatch_rpc
      read_stderr watch_exit
  step (launch launched) b = ((begin_spawn launched b).0, [])
  step (greeted id) b = ((on_initialize id b).0, [])
  step (listed id) b = ((on_tools id b).0, [])
  step (user drained text) b = ((send_user_turn drained text b).0, [])
  step cancel b = ((interrupt b).0, [])
  step leave b = ((close b).0, [])
  step (message object) b = dispatch_rpc texts object b
  step (stderr now line) b = read_stderr texts now line b
  step (exit rc) b = watch_exit crash rc b

  unfoldable pub run : List Action → CodexBackend → CodexBackend × List Fields
  unfolding step
  run [] b = (b, [])
  run (a ∷ later) b =
      let (next, out) = step a b in let (last, rest) = run later next in (last, out ++ rest)

unfoldable pub count_ok : Option BlemeesError → ℕ
count_ok none = 1
count_ok (some e) = 0

-- 1 where the action is a user message that is accepted
unfoldable pub accepted : Action → CodexBackend → ℕ
unfolding count_ok send_user_turn
accepted (user drained text) b = count_ok (send_user_turn drained text b).1
accepted (launch launched) b = 0
accepted (greeted id) b = 0
accepted (listed id) b = 0
accepted cancel b = 0
accepted leave b = 0
accepted (message object) b = 0
accepted (stderr now line) b = 0
accepted (exit rc) b = 0

module _ (texts : Texts) (crash : Crash) where
  -- The number of turns that were begun.
  unfoldable pub turns : List Action → CodexBackend → ℕ
  unfolding accepted step
  turns [] b = 0
  turns (a ∷ later) b = accepted a b + turns later (step texts crash a b).0

-- 1 while a turn runs
unfoldable pub active : CodexBackend → ℕ
active b = if b.turn_active then 1 else 0
