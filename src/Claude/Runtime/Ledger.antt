-- ===== src/Claude/Runtime/Ledger.antt =====
-- blemees_agent/backends/claude.py, ClaudeBackend: over any steps, the turns that were begun and the
-- results that were emitted.
use blemees_daemon.Prelude.{
  ℕ, ◌+◌, ◌≤◌, Bool, true, false, Option, none, some, List, [], ◌∷◌, String, is_some, if◌then◌else◌,
  ◌≡◌, refl, All, arith,
}
use blemees_daemon.Json.{Fields}
use blemees_daemon.Backend.{Crash}
use blemees_daemon.Frames.{Texts}
use blemees_daemon.Frames.Types.{turn_ends, turn_ends-append, no_frames}
use blemees_daemon.Claude.Options.{argv_to_resume}
use blemees_daemon.Claude.Translate.{translate_event}
use blemees_daemon.Claude.Runtime.{
  ClaudeBackend, new_backend, stop_turn, reset_turn_state, resumed, finish_interrupt,
  respawn_with_resume, spawn,
}
use blemees_daemon.Claude.Runtime.Readers.{flushed, translated, read_stdout}
use blemees_daemon.Claude.Runtime.Steps.{
  Action, launch, relaunch, user, interrupt, resume, leave, stdout, stderr, exit, resume_interrupt,
  step, run, accepted, turns, active,
}
use blemees_daemon.Claude.Runtime.Balance.{IsSound, IsSound-read_frames}
use blemees_daemon.Claude.Runtime.Calls.{
  Exact, Exact-spawn, Exact-send, Exact-begin, Exact-close, Exact-stderr, Exact-exit,
}

-- The turns begun, with the one that runs before, are no more than those that got a result and the one
-- that runs after.
pub record Paid (n : ℕ) (b : ClaudeBackend) (r : ClaudeBackend × List Fields) : Type 0 where
  pub sound : IsSound r.0
  pub enough : (n + active b) ≤ (turn_ends r.1 + active r.0)

Paid-Exact :
    (n : ℕ) (b : ClaudeBackend) (r : ClaudeBackend × List Fields) → Exact n b r → Paid n b r
Paid-Exact n b r h = record { sound = h.sound; enough = omega (arith, h.equal) }

-- The child of an interrupt can be launched again.
unfoldable pub relaunches : Action → Bool
relaunches (resume launched) = launched
relaunches _ = true

pub stop_turn-IsSound :
    (b : ClaudeBackend) → IsSound b → IsSound (respawn_with_resume true (stop_turn b)).0
unfolding respawn_with_resume spawn stop_turn reset_turn_state flushed
stop_turn-IsSound b h = record { running = refl; notice = no_frames; result = no_frames }

Paid-resume :
    (o : Option Fields) (b : ClaudeBackend)
    → IsSound b
    → turn_ends (flushed o) ≡ (if is_some o then 1 else 0)
    → Paid 0 b (resume_interrupt true o b)
unfolding resume_interrupt finish_interrupt flushed respawn_with_resume spawn resumed active
Paid-resume none b h e = record { sound = h; enough = omega (arith) }
Paid-resume (some f) b h e = record { sound = stop_turn-IsSound b h; enough = ground (arith, e) }

Paid-stdout :
    (x : Texts) (p : Option String) (now : ℕ) (event : Fields) (b : ClaudeBackend)
    → IsSound b
    → Paid 0 b (read_stdout x p now event b)
unfolding read_stdout active
Paid-stdout x p now event b h =
    let r = IsSound-read_frames p now (translated (translate_event x b.include_raw event)) b h in
    record { sound = r.sound; enough = ground (arith, r.results, r.left) }

module _ (x : Texts) (crash : Crash) where
  step-Paid :
      (a : Action) (b : ClaudeBackend)
      → IsSound b
      → relaunches a ≡ true
      → Paid (accepted a b) b (step x crash a b)
  unfolding step accepted relaunches respawn_with_resume active
  step-Paid (user id now drained message) b h e =
      let s = Paid-Exact _ b _ (Exact-send id now drained message b h) in
      record { sound = s.sound; enough = s.enough }
  step-Paid (launch launched) b h e = Paid-Exact 0 b _ (Exact-spawn launched b h)
  step-Paid (relaunch launched) b h e =
      let s =
        Exact-spawn launched (record b { argv = argv_to_resume b.argv b.session_id })
          (record { running = h.running; notice = h.notice; result = h.result }) in
      Paid-Exact 0 b _ (record { sound = s.sound; equal = s.equal })
  step-Paid interrupt b h e = Paid-Exact 0 b _ (Exact-begin b h)
  step-Paid (resume true) b h e = Paid-resume b.synth b h h.result
  step-Paid (resume false) b h e = ground (arith, e)
  step-Paid leave b h e = Paid-Exact 0 b _ (Exact-close b h)
  step-Paid (stdout p now event) b h e = Paid-stdout x p now event b h
  step-Paid (stderr now line) b h e = Paid-Exact 0 b _ (Exact-stderr x now line b h)
  step-Paid (exit rc) b h e = Paid-Exact 0 b _ (Exact-exit crash rc b h)

  pub run-Paid :
      (later : List Action) (b : ClaudeBackend)
      → IsSound b
      → All (λ a. relaunches a ≡ true) later
      → Paid (turns x crash later b) b (run x crash later b)
  unfolding run turns
  run-Paid [] b h e = record { sound = h; enough = omega (arith) }
  run-Paid (a ∷ later) b h e =
      let first = step-Paid a b h e.0 in
      let (next, out) = step x crash a b in
      let rest = run-Paid later next first.sound e.1 in
      record {
        sound = rest.sound;
        enough =
            omega
              (arith, first.enough, rest.enough, turn_ends-append out (run x crash later next).1);
      }

pub new_backend-IsSound :
    (sid : String) (argv : List String) (options : Fields) (raw : Bool) (lines window : ℕ)
    → IsSound (new_backend sid argv options raw lines window)
unfolding new_backend flushed
new_backend-IsSound sid argv options raw lines window = record {
  running = refl;
  notice = no_frames;
  result = no_frames;
}
