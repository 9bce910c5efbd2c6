-- ===== src/Codex/Translate/TurnEnd.antt =====
-- blemees_agent/backends/translate_codex.py: no event ends a turn by itself; the synthesised result does.
use blemees_daemon.Prelude.{
  ◌≡◌, refl, ◌∙◌, Bool, true, false, Option, none, some, List, [], ◌∷◌, String, str_eq, All, arith,
}
use blemees_daemon.Json.{Value, Fields, null, bool, int, float, str, arr, obj, end, get, get_str}
use Prim.Native.String.{◌++◌ as text_append}
use blemees_daemon.Frames.{
  Texts, is_text, with_raw, value_or, notice, copy_present, dict_or_empty, put_present, ends_turn,
}
use blemees_daemon.Frames.Types.{
  turn_ends, ends_of, no_frames, type-field, type-insert, type-with_raw, type-with_text,
  type-with_fields, type-put_present, type-notice, one_frame,
}
use blemees_daemon.Codex.Events.{
  Translator, dropped, raw_for, with_window, init_frame, session_configured, notice_with, notice_if,
  put_if_there, task_started, task_completed, turn_aborted, token_info, token_count, mcp_startup,
  delta_frame, content_delta,
}
use blemees_daemon.Codex.Items.{
  user_echo_frames, message_frame, item_frames, item_completed, exec_begin, with_failed, exec_end,
  exec_command,
}
use blemees_daemon.Codex.Results.{populate, build_usage, with_cause, bare_result, finalize}
use blemees_daemon.Codex.Translate.{
  kept, stateless_frames, translate_typed, translate_of, translate_event,
}

type-with_window : (v : Option Value) (f : Fields) → ends_turn (with_window v f) ≡ ends_turn f
unfolding with_window
type-with_window none f = refl
type-with_window (some n) f = type-insert "context_window" n f refl

type-with_failed : (v : Option Value) (f : Fields) → ends_turn (with_failed v f) ≡ ends_turn f
unfolding with_failed
type-with_failed none f = refl
type-with_failed (some v) f = type-insert "is_error" _ f refl

type-with_cause : (e : Option Fields) (f : Fields) → ends_turn (with_cause e f) ≡ ends_turn f
unfolding with_cause
type-with_cause none f = refl
type-with_cause (some e) f = type-insert "error" (obj e) f refl

type-copy_present :
    (ks : List String) (d f : Fields)
    → All (λ k. str_eq k "type" ≡ false) ks
    → ends_turn (copy_present ks d f) ≡ ends_turn f
unfolding copy_present
type-copy_present [] d f h = refl
type-copy_present (k ∷ ks) d f h =
    type-copy_present ks d (put_present k (get k d) f) h.1 ∙ type-put_present k (get k d) f h.0

type-populate : (tc : Option Fields) (f : Fields) → ends_turn (populate tc f) ≡ ends_turn f
unfolding populate
type-populate none f = refl
type-populate (some tc) f =
    type-copy_present ("duration_ms" ∷ "turn_id" ∷ "time_to_first_token_ms" ∷ []) tc f
      (refl, (refl, (refl, tt)))

type-bare_result : (subtype : String) → ends_turn (bare_result subtype) ≡ true
unfolding bare_result ends_turn is_text get
type-bare_result subtype = refl

type-init :
    (t : Translator) (msg : Fields) (raw : Option Fields) → ends_turn (init_frame t msg raw) ≡ false
unfolding init_frame
type-init t msg raw =
    type-with_raw raw _
    ∙ type-with_window t.pending_window _
    ∙ type-with_fields "capabilities" _ _ refl
    ∙ type-with_text "native_session_id" (get "session_id" msg) _ refl
    ∙ type-with_text "cwd" (get "cwd" msg) _ refl
    ∙ type-with_text "model" (get "model" msg) _ refl
    ∙ type-field "agent.system_init" _ refl

ends-configured :
    (t : Translator) (msg : Fields) (raw : Option Fields)
    → ends_of (session_configured t msg raw).1 ≡ 0
unfolding session_configured ends_of
ends-configured t msg raw = one_frame _ (type-init t msg raw)

type-notice_with :
    (c : String) (raw : Option Fields) (d : Fields) → ends_turn (notice_with c raw d) ≡ false
unfolding notice_with
type-notice_with c raw d = type-with_raw raw _ ∙ type-with_fields "data" d _ refl ∙ type-notice c

ends-notice_if :
    (t : Translator) (c : String) (raw d : Option Fields) → ends_of (notice_if t c raw d).1 ≡ 0
unfolding notice_if ends_of
ends-notice_if t c raw none = refl
ends-notice_if t c raw (some d) = one_frame _ (type-notice_with c raw d)

ends-task_started :
    (x : Texts) (t : Translator) (msg : Fields) (raw : Option Fields)
    → ends_of (task_started x t msg raw).1 ≡ 0
unfolding task_started
ends-task_started x t msg raw = ends-notice_if _ "task_started" raw _

ends-dropped : (t : Translator) → ends_of (dropped t).1 ≡ 0
unfolding ends_of
ends-dropped t = no_frames

ends-token_info :
    (x : Texts) (t : Translator) (msg : Fields) (raw : Option Fields) (o : Option Value)
    → ends_of (token_info x t msg raw o).1 ≡ 0
unfolding token_info
ends-token_info x t msg raw none = ends-notice_if t "rate_limits" raw _
ends-token_info x t msg raw (some null) = ends-notice_if t "rate_limits" raw _
ends-token_info x t msg raw (some (obj d)) = ends-dropped (record t { last_token_usage = some d })
ends-token_info x t msg raw (some (bool b)) = ends-dropped t
ends-token_info x t msg raw (some (int n)) = ends-dropped t
ends-token_info x t msg raw (some (float s)) = ends-dropped t
ends-token_info x t msg raw (some (str s)) = ends-dropped t
ends-token_info x t msg raw (some (arr vs)) = ends-dropped t

type-mcp :
    (k : String) (msg : Fields) (raw : Option Fields) → turn_ends (mcp_startup k msg raw ∷ []) ≡ 0
unfolding mcp_startup
type-mcp k msg raw = one_frame _ (
    ground (
      arith,
      type-notice_with "backend_mcp_startup" raw
          (put_if_there "status" (get "status" msg) (put_if_there "server" (get "server" msg) end)),
      type-notice_with "backend_mcp_startup_complete" raw
          (copy_present ("ready" ∷ "failed" ∷ "cancelled" ∷ []) msg end),
    ))

type-delta :
    (msg : Fields) (raw : Option Fields) (v : Value) → turn_ends (delta_frame msg raw v) ≡ 0
unfolding delta_frame
type-delta msg raw (str s) = one_frame _ (
    type-with_raw raw _
    ∙ type-with_text "item_id" (get "item_id" msg) _ refl
    ∙ type-field "agent.delta" _ refl)
type-delta msg raw null = no_frames
type-delta msg raw (bool b) = no_frames
type-delta msg raw (int n) = no_frames
type-delta msg raw (float s) = no_frames
type-delta msg raw (arr vs) = no_frames
type-delta msg raw (obj d) = no_frames

type-echo :
    (x : Texts) (w : Bool) (item : Fields) (raw : Option Fields)
    → turn_ends (user_echo_frames x w item raw) ≡ 0
unfolding user_echo_frames
type-echo x false item raw = no_frames
type-echo x true item raw = one_frame _ (type-with_raw raw _ ∙ type-field "agent.user_echo" _ refl)

type-message :
    (x : Texts) (item : Fields) (raw : Option Fields)
    → turn_ends (message_frame x item raw ∷ []) ≡ 0
unfolding message_frame
type-message x item raw = one_frame _ (
    type-with_raw raw _
    ∙ type-with_text "phase" (get "phase" item) _ refl
    ∙ type-field "agent.message" _ refl)

type-item : (x : Texts) (w : Bool) (raw o : Option Fields) → turn_ends (item_frames x w raw o) ≡ 0
unfolding item_frames
type-item x w raw none = no_frames
type-item x w raw (some item) =
    ground (arith, type-echo x w item raw, type-message x item raw, no_frames)

type-exec_begin :
    (msg : Fields) (raw : Option Fields) (o : Option String) → turn_ends (exec_begin msg raw o) ≡ 0
unfolding exec_begin
type-exec_begin msg raw none = no_frames
type-exec_begin msg raw (some id) =
    one_frame _ (type-with_raw raw _ ∙ type-field "agent.tool_use" _ refl)

type-exec_end :
    (msg : Fields) (raw : Option Fields) (o : Option String) → turn_ends (exec_end msg raw o) ≡ 0
unfolding exec_end
type-exec_end msg raw none = no_frames
type-exec_end msg raw (some id) = one_frame _ (
    type-with_raw raw _
    ∙ type-with_failed (get "is_error" msg) _
    ∙ type-field "agent.tool_result" _ refl)

type-raw_notice : (c : String) (raw : Option Fields) → turn_ends (with_raw raw (notice c) ∷ []) ≡ 0
type-raw_notice c raw = one_frame _ (type-with_raw raw _ ∙ type-notice c)

type-exec :
    (k : String) (msg : Fields) (raw : Option Fields) → turn_ends (exec_command k msg raw) ≡ 0
unfolding exec_command
type-exec k msg raw = ground (
  arith,
  type-exec_begin msg raw (get_str "call_id" msg),
  type-exec_end msg raw (get_str "call_id" msg),
  type-raw_notice (text_append "codex_" k) raw,
)

type-stateless :
    (x : Texts) (k : String) (w : Bool) (msg : Fields) (raw : Option Fields)
    → turn_ends (stateless_frames x k w msg raw) ≡ 0
unfolding stateless_frames item_completed content_delta
type-stateless x k w msg raw = ground (
  arith,
  no_frames,
  type-mcp k msg raw,
  type-delta msg raw (value_or (str "") (get "delta" msg)),
  type-item x w raw (dict_or_empty (get "item" msg)),
  type-exec k msg raw,
  type-raw_notice (text_append "codex_unknown_" k) raw,
)

ends-kept : (t : Translator) (fs : List Fields) → turn_ends fs ≡ 0 → ends_of (kept t fs).1 ≡ 0
unfolding ends_of
ends-kept t fs h = h

ends-typed :
    (x : Texts) (k : String) (t : Translator) (msg : Fields) (raw : Option Fields)
    → ends_of (translate_typed x k t msg raw).1 ≡ 0
unfolding translate_typed task_completed turn_aborted token_count
ends-typed x k t msg raw = ground (
  arith,
  ends-configured t msg raw,
  ends-task_started x t msg raw,
  ends-dropped (task_completed t msg).0,
  ends-dropped (turn_aborted t msg).0,
  ends-token_info x t msg raw (get "info" msg),
  ends-kept t (stateless_frames x k t.user_echo msg raw) (type-stateless x k t.user_echo msg raw),
)

ends-translate_of :
    (x : Texts) (o : Option String) (t : Translator) (msg : Fields) (raw : Option Fields)
    → ends_of (translate_of x o t msg raw).1 ≡ 0
unfolding translate_of
ends-translate_of x none t msg raw = ends-dropped t
ends-translate_of x (some k) t msg raw = ends-typed x k t msg raw

-- No event of a Codex child, whatever it is, is translated to a frame that ends the turn; the frame
-- that closes a turn, by success, error or interrupt, ends it.
pub ends-translate_event :
    (x : Texts) (t t' : Translator) (msg : Fields) (meta : Option Fields) (subtype : String)
    (e : Option Fields)
    → (ends_of (translate_event x t msg meta).1 ≡ 0) × (ends_turn (finalize subtype e t').1 ≡ true)
unfolding translate_event finalize
ends-translate_event x t t' msg meta subtype e = (
  ends-translate_of x (get_str "type" msg) t msg (raw_for t msg meta),
  type-with_cause e _
      ∙ type-with_fields "usage" (build_usage t'.last_token_usage) _ refl
      ∙ type-populate t'.task_complete _
      ∙ type-bare_result subtype,
)
