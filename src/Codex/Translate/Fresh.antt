-- ===== src/Codex/Translate/Fresh.antt =====
-- What one turn of a Codex child leaves to the result of the next.
use blemees_daemon.Prelude.{
  ◌≡◌, refl, ◌∙◌, Bool, false, ◌||◌, Option, none, some, List, [], ◌∷◌, String, str_eq, All, arith,
}
use blemees_daemon.Json.{Fields, get_str}
use blemees_daemon.Frames.{Texts}
use blemees_daemon.Codex.Events.{
  Translator, raw_for, session_configured, configured_thread, task_started, notice_if,
}
use blemees_daemon.Codex.Results.{
  finalize, reset_turn, populate, build_usage, with_cause, bare_result,
}
use blemees_daemon.Codex.Translate.{translate_typed, translate_of, translate_event}

-- The same two buffers.
record Buffers (t u : Translator) : Type 0 where
  usage : u.last_token_usage ≡ t.last_token_usage
  complete : u.task_complete ≡ t.task_complete

-- The events that a result is made of.
unfoldable pub is_buffered : String → Bool
is_buffered k = str_eq k "task_complete" || str_eq k "turn_aborted" || str_eq k "token_count"

notice_if-Buffers :
    (t : Translator) (c : String) (raw d : Option Fields) → Buffers t (notice_if t c raw d).0
unfolding notice_if
notice_if-Buffers t c raw none = record { usage = refl; complete = refl }
notice_if-Buffers t c raw (some d) = record { usage = refl; complete = refl }

configured-Buffers : (t : Translator) (o : Option String) → Buffers t (configured_thread o t)
unfolding configured_thread
configured-Buffers t none = record { usage = refl; complete = refl }
configured-Buffers t (some sid) = record { usage = refl; complete = refl }

task_started-Buffers :
    (x : Texts) (t : Translator) (msg : Fields) (raw : Option Fields)
    → Buffers t (task_started x t msg raw).0
unfolding task_started
task_started-Buffers x t msg raw =
    let b = notice_if-Buffers (record t { pending_window = _ }) "task_started" raw _ in
    record { usage = b.usage; complete = b.complete }

session_configured-Buffers :
    (t : Translator) (msg : Fields) (raw : Option Fields)
    → Buffers t (session_configured t msg raw).0
unfolding session_configured
session_configured-Buffers t msg raw =
    let b = configured-Buffers t (get_str "session_id" msg) in
    record { usage = b.usage; complete = b.complete }

translate_typed-Buffers :
    (x : Texts) (k : String) (t : Translator) (msg : Fields) (raw : Option Fields)
    → is_buffered k ≡ false
    → Buffers t (translate_typed x k t msg raw).0
unfolding translate_typed is_buffered
translate_typed-Buffers x k t msg raw h =
    ground (arith, session_configured-Buffers t msg raw, task_started-Buffers x t msg raw)

unfoldable pub buffered_type : Option String → Bool
unfolding is_buffered
buffered_type none = false
buffered_type (some k) = is_buffered k

translate_of-Buffers :
    (x : Texts) (o : Option String) (t : Translator) (msg : Fields) (raw : Option Fields)
    → buffered_type o ≡ false
    → Buffers t (translate_of x o t msg raw).0
unfolding translate_of buffered_type
translate_of-Buffers x none t msg raw h = record { usage = refl; complete = refl }
translate_of-Buffers x (some k) t msg raw h = translate_typed-Buffers x k t msg raw h

-- The event is none of those that a result is made of.
unfoldable pub Plain : Fields × Option Fields → Type 0
unfolding buffered_type
Plain e = buffered_type (get_str "type" e.0) ≡ false

-- The translator after the events of a turn, each with its `_meta`.
unfoldable pub translate_all : Texts → List (Fields × Option Fields) → Translator → Translator
unfolding translate_event
translate_all x [] t = t
translate_all x ((msg, meta) ∷ es) t = translate_all x es (translate_event x t msg meta).0

translate_all-Buffers :
    (x : Texts) (es : List (Fields × Option Fields)) (t : Translator)
    → All Plain es
    → Buffers t (translate_all x es t)
unfolding translate_all translate_event Plain buffered_type
translate_all-Buffers x [] t h = record { usage = refl; complete = refl }
translate_all-Buffers x ((msg, meta) ∷ es) t h =
    let first = translate_of-Buffers x (get_str "type" msg) t msg (raw_for t msg meta) h.0 in
    let rest = translate_all-Buffers x es (translate_event x t msg meta).0 h.1 in
    record { usage = rest.usage ∙ first.usage; complete = rest.complete ∙ first.complete }

-- After a turn was closed, in whatever way, a turn whose events bring no `token_count`, no
-- `task_complete` and no `turn_aborted` is closed by a result with the bare fields and its own error
-- only: nothing of the earlier turn is left in it.
pub finalize-translate_all :
    (x : Texts) (es : List (Fields × Option Fields)) (s s' : String) (e e' : Option Fields)
    (t : Translator)
    → All Plain es
    → (finalize s' e' (translate_all x es (finalize s e t).0)).1 ≡ with_cause e' (bare_result s')
unfolding finalize populate build_usage
finalize-translate_all x es s s' e e' t h =
    let b = translate_all-Buffers x es (reset_turn t) h in rw (b.usage, b.complete) refl
