-- ===== src/Claude/Runtime/Exits.antt =====
-- blemees_agent/backends/claude.py, ClaudeBackend: turns whose child dies, and an interrupt whose child
-- cannot be launched again.
use blemees_daemon.Prelude.{true, false, [], ◌∷◌, ◌≡◌, arith}
use blemees_daemon.Backend.{Crash}
use blemees_daemon.Frames.{Texts}
use blemees_daemon.Claude.Runtime.{
  ClaudeBackend, begin_interrupt, finish_interrupt, stop_turn, reset_turn_state, resumed,
  respawn_with_resume, spawn,
}
use blemees_daemon.Claude.Runtime.Steps.{interrupt, resume, resume_interrupt, step, run, active}

-- An interrupt of a running turn whose child cannot be launched again ends the turn, and emits no result
-- for it.
pub run-interrupt_failed :
    (x : Texts) (crash : Crash) (b : ClaudeBackend)
    → b.turn_active ≡ true
    → ((run x crash (interrupt ∷ resume false ∷ []) b).1 ≡ [])
      × (active (run x crash (interrupt ∷ resume false ∷ []) b).0 ≡ 0)
unfolding run step begin_interrupt resume_interrupt finish_interrupt stop_turn reset_turn_state
    resumed respawn_with_resume spawn active
run-interrupt_failed x crash b e = ground (arith, e)
