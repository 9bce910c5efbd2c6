-- ===== src/Claude/Runtime/Orderly.antt =====
-- blemees_agent/backends/claude.py, ClaudeBackend: a child that ends each turn once, and is not spoken
-- to while it is interrupted.
use blemees_daemon.Prelude.{
  ℕ, ◌+◌, Bool, true, false, not, ◌&&◌, ◌||◌, Option, none, some, List, [], ◌∷◌, ◌++◌, String,
  is_some, if◌then◌else◌, ◌≡◌, refl, ◌∙◌, leb, take_right, arith,
}
use blemees_daemon.Prelude.Int.{ℤ}
use blemees_daemon.Json.{Fields}
use blemees_daemon.Backend.{Crash}
use blemees_daemon.Frames.{Texts}
use blemees_daemon.Frames.Types.{turn_ends, turn_ends-append}
use blemees_daemon.Claude.Limiter.{allow}
use blemees_daemon.Claude.Options.{argv_to_resume}
use blemees_daemon.Claude.Translate.{translate_event}
use blemees_daemon.Claude.Runtime.{
  ClaudeBackend, new_backend, begin_turn, announce, send_user_turn, begin_interrupt, close,
  stop_turn, reset_turn_state, resumed, finish_interrupt, respawn_with_resume, spawn,
}
use blemees_daemon.Claude.Runtime.Readers.{
  flushed, translated, read_frame, note_first_token, end_turn, flush_pending, finalized, limit_line,
  pass_line, read_frames, read_stdout, read_stderr, watch_exit, is_auth_failure,
}
use blemees_daemon.Claude.Runtime.Steps.{
  Action, launch, relaunch, user, interrupt, resume, leave, stdout, stderr, exit, resume_interrupt,
  step, run, accepted, turns, active,
}
use blemees_daemon.Claude.Runtime.Balance.{IsSound, IsSound-read_frames}
use blemees_daemon.Claude.Runtime.Calls.{
  Exact, Exact-spawn, Exact-send, Exact-begin, Exact-close, Exact-stderr, Exact-exit,
}
use blemees_daemon.Claude.Runtime.Ledger.{stop_turn-IsSound, new_backend-IsSound}

module _ (x : Texts) where
  -- The step comes when it is due: the child sends a result only for the running turn, and at most one;
  -- while an interrupt waits, there is no result, no failed login and no other call, and then the child
  -- is launched again.
  unfoldable pub is_orderly : Action → ClaudeBackend → Bool
  unfolding translated active turn_ends is_auth_failure
  is_orderly (user id now drained message) b = not (is_some b.synth)
  is_orderly (launch launched) b = true
  is_orderly (relaunch launched) b = true
  is_orderly interrupt b = not (is_some b.synth)
  is_orderly (resume launched) b = launched
  is_orderly leave b = true
  is_orderly (stdout p now event) b =
      leb (turn_ends (translated (translate_event x b.include_raw event)))
        (if is_some b.synth then 0 else active b)
  is_orderly (stderr now line) b = not (is_some b.synth) || not (is_auth_failure x line)
  is_orderly (exit rc) b = true

module _ (x : Texts) (crash : Crash) where
  unfoldable pub all_orderly : List Action → ClaudeBackend → Bool
  unfolding is_orderly step
  all_orderly [] b = true
  all_orderly (a ∷ later) b =
      let rest = all_orderly later (step x crash a b).0 in is_orderly x a b && rest

-- An interrupt that waits has a turn to end, and suppresses the report of a crash.
unfoldable is_driven : ClaudeBackend → Bool
is_driven b = not (is_some b.synth) || b.turn_active && b.closing

-- The readers leave an interrupt as it is.
record Keeps (b c : ClaudeBackend) : Type 0 where
  synth : c.synth ≡ b.synth
  closing : c.closing ≡ b.closing

read_frame-Keeps :
    (p : Option String) (now : ℕ) (f : Fields) (b : ClaudeBackend)
    → Keeps b (read_frame p now f b).0
unfolding read_frame note_first_token end_turn flush_pending reset_turn_state
read_frame-Keeps p now f b = record { synth = ground (arith); closing = ground (arith) }

read_frames-Keeps :
    (p : Option String) (now : ℕ) (fs : List Fields) (b : ClaudeBackend)
    → Keeps b (read_frames p now fs b).0
unfolding read_frames
read_frames-Keeps p now [] b = record { synth = refl; closing = refl }
read_frames-Keeps p now (f ∷ fs) b =
    let first = read_frame-Keeps p now f b in
    let rest = read_frames-Keeps p now fs (read_frame p now f b).0 in
    record { synth = rest.synth ∙ first.synth; closing = rest.closing ∙ first.closing }

is_driven-send :
    (id : String) (now : ℕ) (drained : Bool) (message : Fields) (b : ClaudeBackend)
    → is_some b.synth ≡ false
    → is_driven (send_user_turn id now drained message b).0 ≡ true
unfolding send_user_turn begin_turn announce reset_turn_state is_driven
is_driven-send id now drained message b e = ground (arith, e)

is_driven-spawn :
    (launched : Bool) (b : ClaudeBackend)
    → is_driven b ≡ true
    → is_driven (spawn launched b).0 ≡ true
unfolding spawn is_driven
is_driven-spawn launched b d = ground (arith, d)

is_driven-close : (b : ClaudeBackend) → is_driven b ≡ true → is_driven (close b) ≡ true
unfolding close is_driven
is_driven-close b d = ground (arith, d)

is_driven-begin : (b : ClaudeBackend) → is_driven b ≡ true → is_driven (begin_interrupt b).0 ≡ true
unfolding begin_interrupt is_driven
is_driven-begin b d = ground (arith, d)

is_driven-pass :
    (line : String) (ok : Bool) (b : ClaudeBackend)
    → is_driven (pass_line line (b, ok)).0 ≡ is_driven b
unfolding pass_line
is_driven-pass line true b = refl
is_driven-pass line false b = refl

is_driven-stderr :
    (x : Texts) (now : ℕ) (line : String) (b : ClaudeBackend)
    → is_driven b ≡ true
    → (not (is_some b.synth) || not (is_auth_failure x line)) ≡ true
    → is_driven (read_stderr x now line b).0 ≡ true
unfolding read_stderr finalized limit_line reset_turn_state is_driven
is_driven-stderr x now line b d o = ground (
  arith,
  d,
  o,
  is_driven-pass line (allow now b.stderr_limit).1 (record b {
    stderr_tail = take_right 20 (b.stderr_tail ++ line ∷ []);
    stderr_limit = (allow now b.stderr_limit).0;
  }),
)

is_driven-exit :
    (crash : Crash) (rc : ℤ) (b : ClaudeBackend)
    → is_driven b ≡ true
    → is_driven (watch_exit crash rc b).0 ≡ true
unfolding watch_exit finalized reset_turn_state is_driven
is_driven-exit crash rc b d = ground (arith, d)

Exact-stdout :
    (x : Texts) (p : Option String) (now : ℕ) (event : Fields) (b : ClaudeBackend)
    → IsSound b
    → is_driven b ≡ true
    → is_orderly x (stdout p now event) b ≡ true
    → Exact 0 b (read_stdout x p now event b) × (is_driven (read_stdout x p now event b).0 ≡ true)
unfolding read_stdout is_orderly is_driven active
Exact-stdout x p now event b h d o =
    let fs = translated (translate_event x b.include_raw event) in
    let r = IsSound-read_frames p now fs b h in
    let k = read_frames-Keeps p now fs b in
    (
      record { sound = r.sound; equal = ground (arith, r.results, r.left, o) },
      ground (arith, r.left, k.synth, k.closing, d, o),
    )

Exact-resume :
    (o : Option Fields) (b : ClaudeBackend)
    → IsSound b
    → (not (is_some o) || b.turn_active && b.closing) ≡ true
    → turn_ends (flushed o) ≡ (if is_some o then 1 else 0)
    → Exact 0 b (resume_interrupt true o b)
unfolding resume_interrupt finish_interrupt flushed respawn_with_resume spawn resumed active
    turn_ends
Exact-resume none b h d e = record { sound = h; equal = refl }
Exact-resume (some f) b h d e = record {
  sound = stop_turn-IsSound b h;
  equal = ground (arith, e, d);
}

is_driven-resume :
    (o : Option Fields) (b : ClaudeBackend)
    → (o ≡ b.synth)
    → is_driven b ≡ true
    → is_driven (resume_interrupt true o b).0 ≡ true
unfolding resume_interrupt finish_interrupt respawn_with_resume spawn resumed stop_turn
    reset_turn_state is_driven
is_driven-resume none b e d = d
is_driven-resume (some f) b e d = refl

module _ (x : Texts) (crash : Crash) where
  step-Exact :
      (a : Action) (b : ClaudeBackend)
      → IsSound b
      → is_driven b ≡ true
      → is_orderly x a b ≡ true
      → Exact (accepted a b) b (step x crash a b) × (is_driven (step x crash a b).0 ≡ true)
  unfolding step accepted is_orderly is_driven respawn_with_resume active
  step-Exact (user id now drained message) b h d o =
      let e = Exact-send id now drained message b h in
      (
        record { sound = e.sound; equal = e.equal },
        is_driven-send id now drained message b (ground (arith, o)),
      )
  step-Exact (launch launched) b h d o = (Exact-spawn launched b h, is_driven-spawn launched b d)
  step-Exact (relaunch launched) b h d o =
      let c = record b { argv = argv_to_resume b.argv b.session_id } in
      let s =
        Exact-spawn launched c
          (record { running = h.running; notice = h.notice; result = h.result }) in
      (record { sound = s.sound; equal = s.equal }, is_driven-spawn launched c d)
  step-Exact interrupt b h d o = (Exact-begin b h, is_driven-begin b d)
  step-Exact (resume true) b h d o =
      (Exact-resume b.synth b h d h.result, is_driven-resume b.synth b refl d)
  step-Exact (resume false) b h d o = ground (arith, o)
  step-Exact leave b h d o = (Exact-close b h, is_driven-close b d)
  step-Exact (stdout p now event) b h d o = Exact-stdout x p now event b h d o
  step-Exact (stderr now line) b h d o =
      (Exact-stderr x now line b h, is_driven-stderr x now line b d o)
  step-Exact (exit rc) b h d o = (Exact-exit crash rc b h, is_driven-exit crash rc b d)

  run-Exact :
      (later : List Action) (b : ClaudeBackend)
      → IsSound b
      → is_driven b ≡ true
      → all_orderly x crash later b ≡ true
      → Exact (turns x crash later b) b (run x crash later b)
  unfolding run turns all_orderly
  run-Exact [] b h d o = record { sound = h; equal = refl }
  run-Exact (a ∷ later) b h d o =
      let (next, out) = step x crash a b in
      let first = step-Exact a b h d (ground (arith, o)) in
      let rest = run-Exact later next first.0.sound first.1 (ground (arith, o)) in
      record {
        sound = rest.sound;
        equal =
            omega
              (arith, first.0.equal, rest.equal, turn_ends-append out (run x crash later next).1);
      }

-- In an orderly run of a new backend, the turns that were accepted are exactly those that have had a
-- result, and the one that still runs: there is one result for each turn, of whatever kind.
pub turns-eq-results :
    (x : Texts) (crash : Crash) (later : List Action) (sid : String) (argv : List String)
    (options : Fields) (raw : Bool) (lines window : ℕ)
    → all_orderly x crash later (new_backend sid argv options raw lines window) ≡ true
    → turns x crash later (new_backend sid argv options raw lines window)
      ≡ turn_ends (run x crash later (new_backend sid argv options raw lines window)).1
        + active (run x crash later (new_backend sid argv options raw lines window)).0
unfolding active new_backend is_driven
turns-eq-results x crash later sid argv options raw lines window o =
    let b = new_backend sid argv options raw lines window in
    let e =
      run-Exact x crash later b (new_backend-IsSound sid argv options raw lines window) refl o in
    ground (arith, e.equal)
