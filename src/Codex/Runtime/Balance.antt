-- ===== src/Codex/Runtime/Balance.antt =====
-- blemees_agent/backends/codex.py, CodexBackend: the results that the events of a child and the end of a
-- turn emit.
use blemees_daemon.Prelude.{
  ℕ, ◌+◌, Bool, true, false, ◌&&◌, Option, none, some, List, [], ◌∷◌, String, is_some,
  if◌then◌else◌, ◌≡◌, refl, ◌∙◌, arith,
}
use blemees_daemon.Json.{Fields, str, end}
use blemees_daemon.Frames.{Texts, ends_turn}
use blemees_daemon.Frames.Types.{turn_ends, turn_ends-append, ends_of, type-insert}
use blemees_daemon.Codex.Events.{Translator, Translated}
use blemees_daemon.Codex.Results.{finalize, finalize_interrupted}
use blemees_daemon.Codex.Translate.TurnEnd.{ends-translate_event}
use blemees_daemon.Codex.Runtime.{CodexBackend}
use blemees_daemon.Codex.Runtime.Rpc.{
  Read, emitted, adopt_thread, thread_of_frame, emit_frames, end_turn, end_aborted, emit_event,
}
use blemees_daemon.Codex.Runtime.Steps.{active}

-- A turn runs as long as it has a request; the turns begun, with the one that runs before, are those that
-- got a result and the one that runs after.
pub record Exact (n : ℕ) (b : CodexBackend) (r : Read) : Type 0 where
  pub linked : is_some r.0.active_turn_id ≡ r.0.turn_active
  pub equal : n + active b ≡ turn_ends r.1 + active r.0

abbrev pub Linked : CodexBackend → Type 0
Linked b = is_some b.active_turn_id ≡ b.turn_active

module _ (n : ℕ) (b : CodexBackend) where
  pub Exact-if :
      (c : Bool) (r s : Read)
      → (c ≡ true → Exact n b r)
      → (c ≡ false → Exact n b s)
      → Exact n b (if c then r else s)
  Exact-if true r s h k = h refl
  Exact-if false r s h k = k refl

pub type-emitted : (f : Fields) → ends_turn (emitted f) ≡ ends_turn f
unfolding emitted
type-emitted f = type-insert "backend" (str "codex") f refl

pub type-finalize :
    (x : Texts) (s : String) (e : Option Fields) (t : Translator)
    → ends_turn (finalize s e t).1 ≡ true
type-finalize x s e t = (ends-translate_event x t t end none s e).1

-- Nothing that the two turns depend on has changed.
pub record Calm (b c : CodexBackend) : Type 0 where
  pub turn : c.turn_active ≡ b.turn_active
  pub request : c.active_turn_id ≡ b.active_turn_id

pub adopt_thread-Calm : (o : Option String) (b : CodexBackend) → Calm b (adopt_thread o b)
unfolding adopt_thread
adopt_thread-Calm none b = record { turn = refl; request = refl }
adopt_thread-Calm (some s) b = record { turn = ground (arith); request = ground (arith) }

emit_frames-Calm : (fs : List Fields) (b : CodexBackend) → Calm b (emit_frames fs b).0
unfolding emit_frames
emit_frames-Calm [] b = record { turn = refl; request = refl }
emit_frames-Calm (f ∷ fs) b =
    let first = adopt_thread-Calm (thread_of_frame f) b in
    let rest = emit_frames-Calm fs (adopt_thread (thread_of_frame f) b) in
    record { turn = rest.turn ∙ first.turn; request = rest.request ∙ first.request }

turn_ends-emit_frames :
    (fs : List Fields) (b : CodexBackend) → turn_ends (emit_frames fs b).1 ≡ turn_ends fs
unfolding emit_frames turn_ends
turn_ends-emit_frames [] b = refl
turn_ends-emit_frames (f ∷ fs) b =
    ground (arith, type-emitted f, turn_ends-emit_frames fs (adopt_thread (thread_of_frame f) b))

-- A frame that closes a running turn.
pub Exact-end :
    (t : Translator × Fields) (b : CodexBackend)
    → ends_turn t.1 ≡ true
    → b.turn_active ≡ true
    → Exact 0 b (end_turn t b)
unfolding end_turn active turn_ends
Exact-end t b e h = record { linked = refl; equal = ground (arith, type-emitted t.1, e, h) }

Exact-end_aborted :
    (x : Texts) (aborted : Bool) (b : CodexBackend) → Linked b → Exact 0 b (end_aborted aborted b)
unfolding end_aborted finalize_interrupted turn_ends
Exact-end_aborted x aborted b l =
    Exact-if 0 b (aborted && b.turn_active) _ _
      (λ e.
        Exact-end (finalize_interrupted b.translator) b
          (type-finalize x "interrupted" none b.translator) (ground (arith, e)))
      (λ e. record { linked = l; equal = refl })

pub Exact-emit_event :
    (x : Texts) (aborted : Bool) (r : Translated) (b : CodexBackend)
    → ends_of r.1 ≡ 0
    → Linked b
    → Exact 0 b (emit_event aborted r b)
unfolding emit_event ends_of turn_ends active
Exact-emit_event x aborted (t, none) b e l = record { linked = l; equal = refl }
Exact-emit_event x aborted (t, some fs) b e l =
    let told = record b { translator = t } in
    let c = emit_frames-Calm fs told in
    let n = turn_ends-emit_frames fs told in
    let (shown, out) = emit_frames fs told in
    let rest = Exact-end_aborted x aborted shown (ground (arith, c.turn, c.request, l)) in
    record {
      linked = rest.linked;
      equal =
          ground
            (arith, rest.equal, n, e, c.turn, turn_ends-append out (end_aborted aborted shown).1);
    }
