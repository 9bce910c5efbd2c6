-- ===== src/Tests/ClaudeTurns.antt =====
-- Witnesses for the turns of a Claude child.
use blemees_daemon.Prelude.{◌+◌, ◌≡◌, refl, List, [], ◌∷◌, true, false}
use blemees_daemon.Json.{Fields, str, field, end}
use blemees_daemon.Frames.Types.{turn_ends}
use blemees_daemon.Backend.{Crash, live, is_live}
use blemees_daemon.Claude.Runtime.{
  ClaudeBackend, new_backend, spawn, running, send_user_turn, begin_turn, announce, begin_interrupt,
  stop_turn, reset_turn_state, resumed, finish_interrupt, respawn_with_resume,
}
use blemees_daemon.Claude.Runtime.Steps.{
  Action, launch, user, interrupt, resume, resume_interrupt, step, run, turns, active,
}
use blemees_daemon.Claude.Runtime.Exits.{run-interrupt_failed}
use blemees_daemon.Claude.Runtime.Orderly.{is_orderly, all_orderly, turns-eq-results}
use blemees_daemon.Tests.Translators.{texts}

abbrev crash : Crash
crash = record { message = λ tail rc. "stderr tail" }

abbrev started : ClaudeBackend
started = new_backend "a" [] end false 50 10

abbrev result_event : Fields
result_event = field "type" (str "result") end

-- A turn that is interrupted, and one that still runs.
abbrev two_turns : List Action
two_turns =
    launch true ∷ user "t1" 100 true end ∷ interrupt ∷ resume true ∷ user "t2" 200 true end ∷ []

turns-eq-results_example :
    turns texts crash two_turns started
    ≡ turn_ends (run texts crash two_turns started).1 + active (run texts crash two_turns started).0
unfolding all_orderly is_orderly step spawn send_user_turn running is_live begin_turn announce
    begin_interrupt resume_interrupt finish_interrupt stop_turn reset_turn_state resumed
    respawn_with_resume new_backend
turns-eq-results_example = turns-eq-results texts crash two_turns "a" [] end false 50 10 refl

abbrev busy : ClaudeBackend
busy = record started { proc = live; turn_active = true }

run-interrupt_failed_example :
    ((run texts crash (interrupt ∷ resume false ∷ []) busy).1 ≡ [])
    × (active (run texts crash (interrupt ∷ resume false ∷ []) busy).0 ≡ 0)
run-interrupt_failed_example = run-interrupt_failed texts crash busy refl

abbrev logged_out : ClaudeBackend
logged_out = record started { proc = live; auth_emitted = true }
