-- ===== src/Codex/Runtime/Stale.antt =====
-- blemees_agent/backends/codex.py, CodexBackend._handle_notification: events of a call other than that of
-- the running turn.
use blemees_daemon.Prelude.{
  ℕ, Bool, true, false, Option, none, some, List, [], ◌∷◌, String, if◌then◌else◌, ◌≡◌, refl, ap,
  ◌∙◌, arith,
}
use blemees_daemon.Prelude.Int.{ℤ}
use blemees_daemon.Json.{Fields, get}
use blemees_daemon.Frames.{Texts, is_text}
use blemees_daemon.Codex.Events.{Translated}
use blemees_daemon.Codex.Translate.{translate_event}
use blemees_daemon.Codex.Options.{flatten_content_to_text}
use blemees_daemon.Codex.Runtime.{
  CodexBackend, send_user_turn, prompt_turn, begin_turn, write_request, write_line, allocate_id,
}
use blemees_daemon.Codex.Runtime.Rpc.{
  adopt_thread, thread_of_meta, request_of_meta, differs, is_stale, translate_message, emit_event,
  emit_frames, end_aborted, thread_of_frame, handle_event,
}

adopted :
    (o : Option String) (b : CodexBackend)
    → ((adopt_thread o b).translator ≡ b.translator)
      × ((adopt_thread o b).active_turn_id ≡ b.active_turn_id)
      × ((adopt_thread o b).turn_active ≡ b.turn_active)
unfolding adopt_thread
adopted none b = (refl, refl, refl)
adopted (some s) b = (ground (arith), ground (arith), ground (arith))

differs-none : (o : Option ℤ) (p : Option ℕ) → p ≡ none → differs o p ≡ false
unfolding differs
differs-none o (some id) e = ground (arith, e)
differs-none none none e = refl
differs-none (some request) none e = refl

emit_frames-translator :
    (fs : List Fields) (b : CodexBackend) → (emit_frames fs b).0.translator ≡ b.translator
unfolding emit_frames
emit_frames-translator [] b = refl
emit_frames-translator (f ∷ fs) b =
    emit_frames-translator fs (adopt_thread (thread_of_frame f) b)
    ∙ (adopted (thread_of_frame f) b).0

emit_frames-turn_active :
    (fs : List Fields) (b : CodexBackend) → (emit_frames fs b).0.turn_active ≡ b.turn_active
unfolding emit_frames
emit_frames-turn_active [] b = refl
emit_frames-turn_active (f ∷ fs) b =
    emit_frames-turn_active fs (adopt_thread (thread_of_frame f) b)
    ∙ (adopted (thread_of_frame f) b).2

emit_event-translator :
    (aborted : Bool) (r : Translated) (b : CodexBackend)
    → b.turn_active ≡ false
    → (emit_event aborted r b).0.translator ≡ r.0
unfolding emit_event end_aborted
emit_event-translator aborted (t, none) b e = refl
emit_event-translator aborted (t, some fs) b e = ground (
  arith,
  e,
  emit_frames-translator fs (record b { translator = t }),
  emit_frames-turn_active fs (record b { translator = t }),
)

prompt_turn-translator :
    (drained : Bool) (o : Option String) (b : CodexBackend)
    → (prompt_turn drained o b).0.translator ≡ b.translator
unfolding prompt_turn begin_turn write_request write_line allocate_id
prompt_turn-translator drained none b = refl
prompt_turn-translator true (some p) b = refl
prompt_turn-translator false (some p) b = refl

send_user_turn-translator :
    (drained : Bool) (text : Fields) (b : CodexBackend)
    → (send_user_turn drained text b).0.translator ≡ b.translator
unfolding send_user_turn
send_user_turn-translator drained text b =
    ground (arith, prompt_turn-translator drained (flatten_content_to_text (get "content" text)) b)

handled :
    (x : Texts) (msg : Fields) (meta : Option Fields) (known : CodexBackend)
    → is_stale meta known ≡ false
    → (if is_stale meta known then (known, []) else translate_message x msg meta known).0
      ≡ (translate_message x msg meta known).0
handled x msg meta known e = rw e refl

-- Between two turns, an event is not held back, whatever request it is tagged with: what it leaves for a
-- result is still there when the next message has been sent.
pub translator-late_event :
    (x : Texts) (msg : Fields) (meta : Option Fields) (drained : Bool) (text : Fields)
    (b : CodexBackend)
    → b.active_turn_id ≡ none
    → b.turn_active ≡ false
    → (send_user_turn drained text (handle_event x (some msg) meta b).0).0.translator
      ≡ (translate_event x b.translator msg meta).0
unfolding handle_event is_stale translate_message
translator-late_event x msg meta drained text b e idle =
    let a = adopted (thread_of_meta meta) b in
    let known = adopt_thread (thread_of_meta meta) b in
    let fresh = differs-none (request_of_meta meta) known.active_turn_id (a.1 ∙ e) in
    send_user_turn-translator drained text (handle_event x (some msg) meta b).0
    ∙ ap (λ c. c.translator) (handled x msg meta known fresh)
    ∙ emit_event-translator (is_text "turn_aborted" (get "type" msg))
        (translate_event x known.translator msg meta) known (a.2 ∙ idle)
    ∙ ap (λ t. (translate_event x t msg meta).0) a.0
