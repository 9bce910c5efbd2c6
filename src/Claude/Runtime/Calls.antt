-- ===== src/Claude/Runtime/Calls.antt =====
-- blemees_agent/backends/claude.py, ClaudeBackend: for each step but those of stdout, the turns that it
-- begins and the results that it emits.
use blemees_daemon.Prelude.{
  ℕ, ◌+◌, Bool, true, false, not, ◌&&◌, ◌||◌, none, some, List, [], ◌∷◌, ◌++◌, String, take_right,
  if◌then◌else◌, ◌≡◌, refl, arith,
}
use blemees_daemon.Prelude.Int.{ℤ}
use blemees_daemon.Json.{Fields, get}
use blemees_daemon.Errors.{code_text, auth_failed, backend_crashed}
use blemees_daemon.Frames.{Texts, is_text, ends_turn}
use blemees_daemon.Frames.Types.{turn_ends, no_frames}
use blemees_daemon.Backend.{Crash, exited, error_frame, error_fields, stderr_frame, is_zero}
use blemees_daemon.Claude.Limiter.{allow}
use blemees_daemon.Claude.Runtime.{
  ClaudeBackend, Called, task_started_notice, announce, begin_turn, reset_turn_state,
  send_user_turn, begin_interrupt, spawn, close,
}
use blemees_daemon.Claude.Runtime.Readers.{
  flushed, synth_frames, finalized, pass_line, limit_line, read_stderr, watch_exit, is_auth_failure,
  auth_message,
}
use blemees_daemon.Claude.Runtime.Steps.{count_ok, active}
use blemees_daemon.Claude.Runtime.Balance.{IsSound, type-build_synth_result}

-- The turns begun, with the one that runs before, are those that got a result and the one that runs after.
pub record Exact (n : ℕ) (b : ClaudeBackend) (r : ClaudeBackend × List Fields) : Type 0 where
  pub sound : IsSound r.0
  pub equal : n + active b ≡ turn_ends r.1 + active r.0

abbrev shown : Called → ClaudeBackend × List Fields
shown r = (r.0, r.1)

no_result-notice : (id : String) (now : ℕ) → turn_ends (task_started_notice id now ∷ []) ≡ 0
unfolding task_started_notice turn_ends ends_turn is_text get
no_result-notice id now = refl

announced :
    (notice : Fields) (b : ClaudeBackend)
    → turn_ends (notice ∷ []) ≡ 0
    → IsSound b
    → IsSound (announce notice b).0
      × (count_ok (announce notice b).2 ≡ 1)
      × (turn_ends (announce notice b).1 ≡ 0)
      × (active (announce notice b).0 ≡ active b)
unfolding announce flushed active count_ok
announced notice b e h = (
  record {
    running = ground (arith, h.running);
    notice = ground (arith, h.notice, e);
    result = ground (arith, h.result);
  },
  ground (arith),
  ground (arith, e, no_frames),
  ground (arith),
)

pub Exact-send :
    (id : String) (now : ℕ) (drained : Bool) (message : Fields) (b : ClaudeBackend)
    → IsSound b
    → Exact
        (count_ok (send_user_turn id now drained message b).2)
        b
        (shown (send_user_turn id now drained message b))
unfolding send_user_turn begin_turn reset_turn_state active count_ok
Exact-send id now drained message b h =
    let begun : IsSound (begin_turn id now message b) = record {
      running = refl;
      notice = h.notice;
      result = h.result;
    } in
    let a =
      announced (task_started_notice id now) (begin_turn id now message b) (no_result-notice id now)
        begun in
    record {
      sound = record {
        running = ground (arith, h.running, a.0.running);
        notice = ground (arith, h.notice, a.0.notice);
        result = ground (arith, h.result, a.0.result);
      };
      equal = ground (arith, a.1, a.2, a.3, no_frames);
    }

pub Exact-spawn :
    (launched : Bool) (b : ClaudeBackend) → IsSound b → Exact 0 b ((spawn launched b).0, [])
unfolding spawn active flushed turn_ends
Exact-spawn launched b h = record {
  sound = record {
    running = ground (arith, h.running);
    notice = ground (arith);
    result = ground (arith, h.result);
  };
  equal = ground (arith);
}

pub Exact-begin : (b : ClaudeBackend) → IsSound b → Exact 0 b ((begin_interrupt b).0, [])
unfolding begin_interrupt active flushed turn_ends
Exact-begin b h = record {
  sound = record {
    running = ground (arith, h.running);
    notice = ground (arith, h.notice);
    result = ground (arith, h.result, type-build_synth_result "interrupted" none b);
  };
  equal = ground (arith);
}

pub Exact-close : (b : ClaudeBackend) → IsSound b → Exact 0 b (close b, [])
unfolding close active turn_ends
Exact-close b h = record {
  sound = record { running = h.running; notice = h.notice; result = h.result };
  equal = refl;
}

turn_ends-synth :
    (code message : String) (b : ClaudeBackend)
    → IsSound b
    → turn_ends (synth_frames code message b) ≡ active b
unfolding synth_frames active turn_ends
turn_ends-synth code message b h =
    ground (arith, h.running, type-build_synth_result "error" (some (error_fields code message)) b)

finalized-IsSound :
    (b : ClaudeBackend) → IsSound b → IsSound (finalized b) × (active (finalized b) ≡ 0)
unfolding finalized reset_turn_state active
finalized-IsSound b h = (
  record {
    running = ground (arith, h.running);
    notice = ground (arith, h.notice);
    result = ground (arith, h.result);
  },
  ground (arith, h.running),
)

no_result-error :
    (sid code message : String) → ends_turn (error_frame "claude" sid code message) ≡ false
unfolding error_frame ends_turn is_text get
no_result-error sid code message = refl

pub no_result-stderr : (sid line : String) → ends_turn (stderr_frame sid line) ≡ false
unfolding stderr_frame ends_turn is_text get
no_result-stderr sid line = refl

Exact-pass :
    (line : String) (ok : Bool) (b : ClaudeBackend) → IsSound b → Exact 0 b (pass_line line (b, ok))
unfolding pass_line turn_ends
Exact-pass line true b h = record {
  sound = h;
  equal = ground (arith, no_result-stderr b.session_id line);
}
Exact-pass line false b h = record { sound = h; equal = refl }

Exact-if :
    (n : ℕ) (b : ClaudeBackend) (c : Bool) (r s : ClaudeBackend × List Fields)
    → Exact n b r
    → (c ≡ false → Exact n b s)
    → Exact n b (if c then r else s)
Exact-if n b true r s h k = h
Exact-if n b false r s h k = k refl

-- An error, and the result of the turn that it cuts off.
Exact-error :
    (sid code message : String) (b c : ClaudeBackend)
    → IsSound b
    → IsSound c
    → active c ≡ 0
    → Exact 0 b (c, error_frame "claude" sid code message ∷ synth_frames code message b)
unfolding turn_ends
Exact-error sid code message b c h k e = record {
  sound = k;
  equal = ground (arith, e, no_result-error sid code message, turn_ends-synth code message b h);
}

pub Exact-stderr :
    (x : Texts) (now : ℕ) (line : String) (b : ClaudeBackend)
    → IsSound b
    → Exact 0 b (read_stderr x now line b)
unfolding read_stderr limit_line turn_ends active
Exact-stderr x now line b h =
    let kept = record b { stderr_tail = take_right 20 (b.stderr_tail ++ line ∷ []) } in
    let k : IsSound kept = record { running = h.running; notice = h.notice; result = h.result } in
    let told = record kept { auth_emitted = true } in
    let t : IsSound told = record { running = h.running; notice = h.notice; result = h.result } in
    let f = finalized-IsSound told t in
    let l : IsSound (record kept { stderr_limit = (allow now b.stderr_limit).0 }) = record {
      running = h.running;
      notice = h.notice;
      result = h.result;
    } in
    let e =
      Exact-error b.session_id (code_text auth_failed) auth_message kept (finalized told) k f.0
        f.1 in
    let p =
      Exact-pass line (allow now b.stderr_limit).1
        (record kept { stderr_limit = (allow now b.stderr_limit).0 }) l in
    Exact-if 0 b (not b.auth_emitted && is_auth_failure x line) _ _
      (record { sound = e.sound; equal = e.equal })
      (λ _. record { sound = p.sound; equal = p.equal })

pub Exact-exit :
    (crash : Crash) (rc : ℤ) (b : ClaudeBackend) → IsSound b → Exact 0 b (watch_exit crash rc b)
unfolding watch_exit turn_ends active
Exact-exit crash rc b h =
    let gone = record b { proc = exited rc } in
    let g : IsSound gone = record { running = h.running; notice = h.notice; result = h.result } in
    let f = finalized-IsSound gone g in
    let idle : IsSound (record (finalized gone) { turn_active = false }) = record {
      running = refl;
      notice = f.0.notice;
      result = f.0.result;
    } in
    let e =
      Exact-error b.session_id (code_text backend_crashed) (crash.message b.stderr_tail rc) gone
        (record (finalized gone) { turn_active = false }) g idle refl in
    let quiet : IsSound (record gone { turn_active = false }) = record {
      running = refl;
      notice = h.notice;
      result = h.result;
    } in
    Exact-if 0 b b.closing _ _ (record { sound = g; equal = refl })
      (λ _.
        Exact-if 0 b (b.turn_active || not (is_zero rc)) _ _
          (record { sound = e.sound; equal = e.equal })
          (λ idle_before. record { sound = quiet; equal = ground (arith, idle_before) }))
