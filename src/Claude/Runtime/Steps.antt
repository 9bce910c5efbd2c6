-- ===== src/Claude/Runtime/Steps.antt =====
-- blemees_agent/backends/claude.py, ClaudeBackend: what happens to a backend, as steps in any order. An
-- `interrupt` is two steps, with those of the readers between them.
use blemees_daemon.Prelude.{
  ℕ, ◌+◌, Bool, Option, none, some, List, [], ◌∷◌, ◌++◌, String, if◌then◌else◌,
}
use blemees_daemon.Prelude.Int.{ℤ}
use blemees_daemon.Json.{Fields}
use blemees_daemon.Errors.{BlemeesError}
use blemees_daemon.Backend.{Crash}
use blemees_daemon.Frames.{Texts}
use blemees_daemon.Claude.Runtime.{
  ClaudeBackend, spawn, respawn_with_resume, send_user_turn, begin_interrupt, finish_interrupt,
  close,
}
use blemees_daemon.Claude.Runtime.Readers.{read_stdout, read_stderr, watch_exit}

pub data Action : Type 0 where
  -- Whether the child can be launched, as new or to resume its session.
  launch : Bool → Action
  relaunch : Bool → Action
  -- A turn id, the time, whether the pipe takes the line, and the message.
  user : String → ℕ → Bool → Fields → Action
  interrupt : Action
  -- Whether the child can be launched again.
  resume : Bool → Action
  leave : Action
  -- The transcript's path, the time, and the event.
  stdout : Option String → ℕ → Fields → Action
  stderr : ℕ → String → Action
  exit : ℤ → Action

-- An interrupt goes on where one was begun.
unfoldable pub resume_interrupt : Bool → Option Fields → ClaudeBackend → ClaudeBackend × List Fields
unfolding finish_interrupt
resume_interrupt launched none b = (b, [])
resume_interrupt launched (some f) b =
    let (next, out, failure) = finish_interrupt launched f b in (next, out)

module _ (texts : Texts) (crash : Crash) where
  unfoldable pub step : Action → ClaudeBackend → ClaudeBackend × List Fields
  unfolding spawn respawn_with_resume send_user_turn begin_interrupt resume_interrupt close
      read_stdout read_stderr watch_exit
  step (launch launched) b = ((spawn launched b).0, [])
  step (relaunch launched) b = ((respawn_with_resume launched b).0, [])
  step (user id now drained message) b =
      let (next, out, failure) = send_user_turn id now drained message b in (next, out)
  step interrupt b = let (next, stopped) = begin_interrupt b in (next, [])
  step (resume launched) b = resume_interrupt launched b.synth b
  step leave b = (close b, [])
  step (stdout rollout now event) b = read_stdout texts rollout now event b
  step (stderr now line) b = read_stderr texts now line b
  step (exit rc) b = watch_exit crash rc b

  unfoldable pub run : List Action → ClaudeBackend → ClaudeBackend × List Fields
  unfolding step
  run [] b = (b, [])
  run (a ∷ later) b =
      let (next, out) = step a b in let (last, rest) = run later next in (last, out ++ rest)

unfoldable pub count_ok : Option BlemeesError → ℕ
count_ok none = 1
count_ok (some e) = 0

-- 1 where the action is a user message that is accepted
unfoldable pub accepted : Action → ClaudeBackend → ℕ
unfolding count_ok send_user_turn
accepted (user id now drained message) b = count_ok (send_user_turn id now drained message b).2
accepted (launch launched) b = 0
accepted (relaunch launched) b = 0
accepted interrupt b = 0
accepted (resume launched) b = 0
accepted leave b = 0
accepted (stdout rollout now event) b = 0
accepted (stderr now line) b = 0
accepted (exit rc) b = 0

module _ (texts : Texts) (crash : Crash) where
  -- The number of turns that were begun.
  unfoldable pub turns : List Action → ClaudeBackend → ℕ
  unfolding accepted step
  turns [] b = 0
  turns (a ∷ later) b = accepted a b + turns later (step texts crash a b).0

-- 1 while a turn runs
unfoldable pub active : ClaudeBackend → ℕ
active b = if b.turn_active then 1 else 0
