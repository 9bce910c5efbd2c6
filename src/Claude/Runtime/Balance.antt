-- ===== src/Claude/Runtime/Balance.antt =====
-- blemees_agent/backends/claude.py, ClaudeBackend: the results that are emitted for the turns.
use blemees_daemon.Prelude.{
  ℕ, ◌-◌, ◌==◌, Bool, true, false, ◌&&◌, Option, none, some, List, [], ◌∷◌, String, is_some,
  if◌then◌else◌, ◌≡◌, refl, ◌∙◌, arith,
}
use blemees_daemon.Json.{Fields, str, obj, get, insert, num}
use blemees_daemon.Frames.{is_text, ends_turn}
use blemees_daemon.Frames.Types.{
  turn_ends, turn_ends-append, type-insert, type-set_default, type-with_fields, no_frames,
}
use blemees_daemon.Claude.Runtime.{
  ClaudeBackend, stamp_turn_id, stamp_first_token, stamp_turn_metadata, with_error,
  build_synth_result,
}
use blemees_daemon.Claude.Runtime.Readers.{
  inject_capabilities, note_first_token, end_turn, flushed, flush_pending, read_frame, read_frames,
}
use blemees_daemon.Claude.Runtime.Steps.{active}

type-stamp_turn_id : (o : Option String) (f : Fields) → ends_turn (stamp_turn_id o f) ≡ ends_turn f
unfolding stamp_turn_id
type-stamp_turn_id none f = refl
type-stamp_turn_id (some id) f = type-set_default "turn_id" (str id) f refl

type-stamp_first_token :
    (o p : Option ℕ) (f : Fields) → ends_turn (stamp_first_token o p f) ≡ ends_turn f
unfolding stamp_first_token
type-stamp_first_token none p f = refl
type-stamp_first_token (some m) none f = refl
type-stamp_first_token (some m) (some n) f =
    ground (arith, type-set_default "time_to_first_token_ms" (num (m - n)) f refl)

type-stamp_turn_metadata :
    (b : ClaudeBackend) (f : Fields) → ends_turn (stamp_turn_metadata b f) ≡ ends_turn f
unfolding stamp_turn_metadata
type-stamp_turn_metadata b f =
    type-stamp_first_token b.first_token_at_ms b.turn_started_at_ms
      (stamp_turn_id b.current_turn_id f)
    ∙ type-stamp_turn_id b.current_turn_id f

type-with_error : (e : Option Fields) (f : Fields) → ends_turn (with_error e f) ≡ ends_turn f
unfolding with_error
type-with_error none f = refl
type-with_error (some e) f = type-insert "error" (obj e) f refl

pub type-build_synth_result :
    (s : String) (e : Option Fields) (b : ClaudeBackend)
    → ends_turn (build_synth_result s e b) ≡ true
unfolding build_synth_result ends_turn
type-build_synth_result s e b = type-stamp_turn_metadata b _ ∙ type-with_error e _ ∙ refl

type-inject_capabilities :
    (p : Option String) (o f : Fields) → ends_turn (inject_capabilities p o f) ≡ ends_turn f
unfolding inject_capabilities
type-inject_capabilities p o f = type-with_fields "capabilities" _ f refl

-- What the state keeps for later frames: the notice that waits is no result, the result that waits is
-- one, and no running turn has had its result.
pub record IsSound (b : ClaudeBackend) : Type 0 where
  pub running : (b.turn_active && b.turn_finalized) ≡ false
  pub notice : turn_ends (flushed b.pending_task_started) ≡ 0
  pub result : turn_ends (flushed b.synth) ≡ (if is_some b.synth then 1 else 0)

IsSound-note :
    (now : ℕ) (f : Fields) (b : ClaudeBackend)
    → IsSound b
    → IsSound (note_first_token now f b) × (active (note_first_token now f b) ≡ active b)
unfolding note_first_token active
IsSound-note now f b h = (
  record {
    running = ground (arith, h.running);
    notice = ground (arith, h.notice);
    result = ground (arith, h.result);
  },
  ground (arith),
)

IsSound-timed :
    (i : Bool) (now : ℕ) (f : Fields) (b : ClaudeBackend)
    → IsSound b
    → IsSound (if i then b else note_first_token now f b)
      × (active (if i then b else note_first_token now f b) ≡ active b)
IsSound-timed true now f b h = (h, refl)
IsSound-timed false now f b h = IsSound-note now f b h

IsSound-end :
    (f : Fields) (b : ClaudeBackend)
    → IsSound b
    → IsSound (end_turn f b).0
      × (active (end_turn f b).0 ≡ (if ends_turn f then 0 else active b))
      × (ends_turn (end_turn f b).1 ≡ ends_turn f)
unfolding end_turn active
IsSound-end f b h = (
  record {
    running = ground (arith, h.running);
    notice = ground (arith, h.notice);
    result = ground (arith, h.result);
  },
  ground (arith),
  ground (arith, type-stamp_turn_metadata b f),
)

IsSound-flush :
    (i : Bool) (b : ClaudeBackend)
    → IsSound b
    → IsSound (flush_pending i b).0
      × (active (flush_pending i b).0 ≡ active b)
      × (turn_ends (flush_pending i b).1 ≡ 0)
unfolding flush_pending flushed active
IsSound-flush i b h = (
  record {
    running = ground (arith, h.running);
    notice = ground (arith, h.notice, no_frames);
    result = ground (arith, h.result);
  },
  ground (arith),
  ground (arith, h.notice, no_frames),
)

-- What was emitted ends as many turns as what was read, and leaves the turn open if that is none.
pub record Passes (n : ℕ) (b : ClaudeBackend) (r : ClaudeBackend × List Fields) : Type 0 where
  pub sound : IsSound r.0
  pub results : turn_ends r.1 ≡ n
  pub left : active r.0 ≡ (if n == 0 then active b else 0)

IsSound-read_frame :
    (p : Option String) (now : ℕ) (f : Fields) (b : ClaudeBackend)
    → IsSound b
    → Passes (turn_ends (f ∷ [])) b (read_frame p now f b)
unfolding read_frame turn_ends
IsSound-read_frame p now f b h =
    let g = insert "backend" (str "claude") f in
    let is_init = is_text "agent.system_init" (get "type" g) in
    let shown = if is_init then inject_capabilities p b.options g else g in
    let same : ends_turn shown ≡ ends_turn f = ground (
      arith,
      type-inject_capabilities p b.options g,
      type-insert "backend" (str "claude") f refl,
    ) in
    let timed = if is_init then b else note_first_token now g b in
    let first = IsSound-timed is_init now g b h in
    let second = IsSound-end shown timed first.0 in
    let third = IsSound-flush is_init (end_turn shown timed).0 second.0 in
    record {
      sound = third.0;
      results = ground (arith, third.2, second.2, same);
      left = ground (arith, third.1, second.1, first.1, same);
    }

pub IsSound-read_frames :
    (p : Option String) (now : ℕ) (fs : List Fields) (b : ClaudeBackend)
    → IsSound b
    → Passes (turn_ends fs) b (read_frames p now fs b)
unfolding read_frames turn_ends
IsSound-read_frames p now [] b h = record { sound = h; results = refl; left = refl }
IsSound-read_frames p now (f ∷ fs) b h =
    let first = IsSound-read_frame p now f b h in
    let (next, out) = read_frame p now f b in
    let rest = IsSound-read_frames p now fs next first.sound in
    record {
      sound = rest.sound;
      results =
          turn_ends-append out (read_frames p now fs next).1
          ∙ ground (arith, first.results, rest.results);
      left = ground (arith, first.left, rest.left);
    }
