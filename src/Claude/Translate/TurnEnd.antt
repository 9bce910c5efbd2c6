-- ===== src/Claude/Translate/TurnEnd.antt =====
-- blemees_agent/backends/translate_claude.py, TURN_END_TYPES: which native events end a turn.
use blemees_daemon.Prelude.{
  Bool, true, false, Option, none, some, List, [], ◌∷◌, String, str_eq, eq_iff, if◌then◌else◌, ◌≡◌,
  refl, sym, subst, ◌∙◌, arith, Bool-cases, inl, inr,
}
use blemees_daemon.Json.{
  Value, Fields, Items, null, bool, int, float, str, arr, obj, nil, cons, get, insert, get_str,
  get_obj, as_str, and_then,
}
use blemees_daemon.Claude.Translate.{
  with_model, with_tools, init_frame, system_notice, translate_system, tool_use_frame, block_start,
  block_delta, delta_frame, unknown_delta, on_block, inner_frames, translate_stream_event,
  with_phase, assistant_frame, with_error, tool_result_frame, split_blocks, echo_frame, with_echo,
  user_frames, limit_of, rate_limit_notice, translate_rate_limit, with_usage, translate_result,
  unknown_event, translate_typed, translate_of, translate_event,
}
use blemees_daemon.Frames.{is_text, with_int, value_or, notice, Texts, dict_or_empty, ends_turn}
use blemees_daemon.Frames.Types.{
  ends_of, turn_ends, no_frames, type-field, type-insert, type-with_raw, type-with_int,
  type-with_text, type-with_fields, turn_ends-append, type-notice, one_frame,
}

type-with_model :
    (x : Texts) (v : Option Value) (f : Fields) → ends_turn (with_model x v f) ≡ ends_turn f
unfolding with_model
type-with_model x none f = refl
type-with_model x (some (str m)) f =
    type-insert "context_window" _ _ refl ∙ type-insert "model" _ f refl
type-with_model x (some null) f = refl
type-with_model x (some (bool b)) f = refl
type-with_model x (some (int n)) f = refl
type-with_model x (some (float t)) f = refl
type-with_model x (some (arr vs)) f = refl
type-with_model x (some (obj d)) f = refl

type-with_tools :
    (x : Texts) (v : Option Value) (f : Fields) → ends_turn (with_tools x v f) ≡ ends_turn f
unfolding with_tools
type-with_tools x none f = refl
type-with_tools x (some (arr vs)) f = type-insert "tools" _ f refl
type-with_tools x (some null) f = refl
type-with_tools x (some (bool b)) f = refl
type-with_tools x (some (int n)) f = refl
type-with_tools x (some (float t)) f = refl
type-with_tools x (some (str m)) f = refl
type-with_tools x (some (obj d)) f = refl

type-with_usage : (v : Option Value) (f : Fields) → ends_turn (with_usage v f) ≡ ends_turn f
unfolding with_usage
type-with_usage none f = refl
type-with_usage (some (obj d)) f = type-insert "usage" _ f refl
type-with_usage (some null) f = refl
type-with_usage (some (bool b)) f = refl
type-with_usage (some (int n)) f = refl
type-with_usage (some (float t)) f = refl
type-with_usage (some (str m)) f = refl
type-with_usage (some (arr vs)) f = refl

type-init : (x : Texts) (event : Fields) → ends_turn (init_frame x event) ≡ false
unfolding init_frame ends_turn is_text get
type-init x event =
    rw
      (
        type-with_tools x (get "tools" event) _,
        type-with_text "cwd" (get "cwd" event) _ refl,
        type-with_model x (get "model" event) _,
      )
      refl

type-system_notice : (x : Texts) (event : Fields) → ends_turn (system_notice x event) ≡ false
unfolding system_notice ends_turn is_text get notice
type-system_notice x event = rw (type-with_fields "data" _ _ refl) refl

type-system :
    (x : Texts) (event : Fields) (raw : Option Fields)
    → turn_ends (translate_system x event raw) ≡ 0
unfolding translate_system
type-system x event raw =
    one_frame _
      (type-with_raw raw _ ∙ ground (arith, type-init x event, type-system_notice x event))

type-tool_use :
    (id name : Option String) (b : Fields) (i : Option Value) (raw : Option Fields)
    → turn_ends (tool_use_frame id name b i raw) ≡ 0
unfolding tool_use_frame
type-tool_use none name b i raw = no_frames
type-tool_use (some id) none b i raw = no_frames
type-tool_use (some id) (some name) b i raw =
    one_frame _
      (type-with_raw raw _ ∙ type-with_int "index" i _ refl ∙ type-field "agent.tool_use" _ refl)

type-block_start :
    (b : Fields) (i : Option Value) (raw : Option Fields) → turn_ends (block_start b i raw) ≡ 0
unfolding block_start
type-block_start b i raw =
    ground (arith, type-tool_use (get_str "id" b) (get_str "name" b) b i raw, no_frames)

type-delta_frame :
    (kind key : String) (v : Value) (i : Option Value)
    → ends_turn (with_int "index" i (delta_frame kind key v)) ≡ false
unfolding delta_frame ends_turn is_text get
type-delta_frame kind key v i = type-with_int "index" i _ refl

type-unknown_delta : (d : Fields) (i : Option Value) → ends_turn (unknown_delta d i) ≡ false
unfolding unknown_delta notice ends_turn is_text get insert
type-unknown_delta d i = refl

type-block_delta :
    (d : Fields) (i : Option Value) (raw : Option Fields) → turn_ends (block_delta d i raw ∷ []) ≡ 0
unfolding block_delta
type-block_delta d i raw = one_frame _ (
    type-with_raw raw _
    ∙ ground (
      arith,
      type-unknown_delta d i,
      type-delta_frame "text" "text" (value_or (str "") (get "text" d)) i,
      type-delta_frame "thinking" "text" (value_or (str "") (get "thinking" d)) i,
      type-delta_frame "tool_input" "partial_json" (value_or (str "") (get "partial_json" d)) i,
    ))

ends-on_block :
    (f : Fields → List Fields) (b : Option Fields)
    → ((d : Fields) → turn_ends (f d) ≡ 0)
    → ends_of (on_block f b) ≡ 0
unfolding on_block ends_of
ends-on_block f none h = refl
ends-on_block f (some d) h = h d

ends-and_then :
    {A : Type 0} (f : A → List Fields) (b : Option A)
    → ((d : A) → turn_ends (f d) ≡ 0)
    → ends_of (and_then b (λ d. some (f d))) ≡ 0
unfolding ends_of
ends-and_then f none h = refl
ends-and_then f (some d) h = h d

ends-stream : (e : Option Value) (raw : Option Fields) → ends_of (translate_stream_event e raw) ≡ 0
unfolding translate_stream_event inner_frames ends_of turn_ends
ends-stream none raw = refl
ends-stream (some (obj d)) raw = ground (
  arith,
  ends-on_block (λ b. block_start b (get "index" d) raw) (dict_or_empty (get "content_block" d))
      (λ b. type-block_start b (get "index" d) raw),
  ends-on_block (λ b. block_delta b (get "index" d) raw ∷ []) (dict_or_empty (get "delta" d))
      (λ b. type-block_delta b (get "index" d) raw),
)
ends-stream (some null) raw = refl
ends-stream (some (bool b)) raw = refl
ends-stream (some (int n)) raw = refl
ends-stream (some (float t)) raw = refl
ends-stream (some (str m)) raw = refl
ends-stream (some (arr vs)) raw = refl

type-with_phase : (vs : Items) (f : Fields) → ends_turn (with_phase vs f) ≡ ends_turn f
unfolding with_phase
type-with_phase vs f = ground (arith, type-insert "phase" (str "final_answer") f refl)

type-assistant : (raw : Option Fields) (m : Fields) → turn_ends (assistant_frame raw m ∷ []) ≡ 0
unfolding assistant_frame ends_turn is_text get
type-assistant raw m = one_frame _ (type-with_raw raw _ ∙ type-with_phase _ _)

type-with_error : (v : Option Value) (f : Fields) → ends_turn (with_error v f) ≡ ends_turn f
unfolding with_error
type-with_error none f = refl
type-with_error (some v) f = type-insert "is_error" _ f refl

type-tool_result :
    (id : Option String) (b : Fields) (raw : Option Fields)
    → turn_ends (tool_result_frame id b raw) ≡ 0
unfolding tool_result_frame
type-tool_result none b raw = no_frames
type-tool_result (some id) b raw = one_frame _ (
    type-with_raw raw _
    ∙ type-with_error (get "is_error" b) _
    ∙ type-field "agent.tool_result" _ refl)

type-split_blocks : (raw : Option Fields) (vs : Items) → turn_ends (split_blocks raw vs).0 ≡ 0
unfolding split_blocks turn_ends
type-split_blocks raw nil = refl
type-split_blocks raw (cons (obj b) vs) = ground (
  arith,
  type-split_blocks raw vs,
  type-tool_result (get_str "tool_use_id" b) b raw,
  turn_ends-append (tool_result_frame (get_str "tool_use_id" b) b raw) (split_blocks raw vs).0,
)
type-split_blocks raw (cons null vs) = type-split_blocks raw vs
type-split_blocks raw (cons (bool b) vs) = type-split_blocks raw vs
type-split_blocks raw (cons (int n) vs) = type-split_blocks raw vs
type-split_blocks raw (cons (float t) vs) = type-split_blocks raw vs
type-split_blocks raw (cons (str m) vs) = type-split_blocks raw vs
type-split_blocks raw (cons (arr ws) vs) = type-split_blocks raw vs

type-echo : (raw : Option Fields) (v : Value) → turn_ends (echo_frame raw v ∷ []) ≡ 0
unfolding echo_frame ends_turn is_text get
type-echo raw v = one_frame _ (type-with_raw raw _)

type-with_echo :
    (raw : Option Fields) (fs : List Fields) (vs : Items)
    → turn_ends fs ≡ 0
    → turn_ends (with_echo raw fs vs) ≡ 0
unfolding with_echo
type-with_echo raw fs (cons v vs) h = ground (
  arith,
  turn_ends-append fs (echo_frame raw (arr (cons v vs)) ∷ []),
  type-echo raw (arr (cons v vs)),
)
type-with_echo raw [] nil h = type-echo raw (arr nil)
type-with_echo raw (f ∷ fs) nil h = h

type-user : (raw : Option Fields) (v : Option Value) → turn_ends (user_frames raw v) ≡ 0
unfolding user_frames
type-user raw none = type-echo raw _
type-user raw (some (arr vs)) =
    type-with_echo raw (split_blocks raw vs).0 (split_blocks raw vs).1 (type-split_blocks raw vs)
type-user raw (some (str s)) = type-echo raw _
type-user raw (some null) = type-echo raw _
type-user raw (some (bool b)) = type-echo raw _
type-user raw (some (int n)) = type-echo raw _
type-user raw (some (float t)) = type-echo raw _
type-user raw (some (obj d)) = type-echo raw _

type-rate_limit :
    (event limit : Fields) (raw : Option Fields)
    → turn_ends (rate_limit_notice event raw limit ∷ []) ≡ 0
unfolding rate_limit_notice
type-rate_limit event limit raw =
    one_frame _ (type-with_raw raw _ ∙ type-with_fields "data" _ _ refl ∙ type-notice "rate_limits")

type-unknown : (t : String) (raw : Option Fields) → turn_ends (unknown_event t raw ∷ []) ≡ 0
unfolding unknown_event notice ends_turn is_text get
type-unknown t raw = one_frame _ (type-with_raw raw _)

type-result : (event : Fields) (raw : Option Fields) → ends_turn (translate_result event raw) ≡ true
unfolding translate_result ends_turn is_text get
type-result event raw =
    type-with_raw raw _
    ∙ type-with_usage (get "usage" event) _
    ∙ type-with_int "num_turns" (get "num_turns" event) _ refl
    ∙ type-with_int "duration_ms" (get "duration_ms" event) _ refl

ends-result :
    (x : Texts) (event : Fields) (raw : Option Fields)
    → ends_of (translate_typed x "result" event raw) ≡ 1
unfolding translate_typed ends_of turn_ends
ends-result x event raw = ground (arith, type-result event raw)

ends-typed :
    (x : Texts) (t : String) (event : Fields) (raw : Option Fields)
    → ends_of (translate_typed x t event raw) ≡ (if str_eq t "result" then 1 else 0)
unfolding translate_typed ends_of translate_rate_limit
ends-typed x t event raw = elim (Bool-cases (str_eq t "result")) [
  | inl e ↦
      subst (λ s. ends_of (translate_typed x s event raw) ≡ (if str_eq s "result" then 1 else 0))
        (sym ((eq_iff t "result").0 e)) (ends-result x event raw)
  | inr e ↦ ground (
    arith,
    e,
    type-system x event raw,
    ends-stream (get "event" event) raw,
    ends-and_then (λ m. assistant_frame raw m ∷ []) (dict_or_empty (get "message" event))
        (type-assistant raw),
    ends-and_then (λ m. user_frames raw (get "content" m)) (dict_or_empty (get "message" event))
        (λ m. type-user raw (get "content" m)),
    ends-and_then (λ l. rate_limit_notice event raw l ∷ [])
        (limit_of x.float_ms (get_obj "rate_limit_info" event)) (λ l. type-rate_limit event l raw),
    no_frames,
    type-unknown t raw,
  )
]

ends-translate_of :
    (x : Texts) (event : Fields) (raw : Option Fields) (t : Option Value)
    → ends_of (translate_of x (and_then t as_str) event raw) ≡ (if is_text "result" t then 1 else 0)
unfolding translate_of is_text ends_of
ends-translate_of x event raw none = no_frames
ends-translate_of x event raw (some (str t)) = ends-typed x t event raw
ends-translate_of x event raw (some null) = no_frames
ends-translate_of x event raw (some (bool b)) = no_frames
ends-translate_of x event raw (some (int n)) = no_frames
ends-translate_of x event raw (some (float t)) = no_frames
ends-translate_of x event raw (some (arr vs)) = no_frames
ends-translate_of x event raw (some (obj d)) = no_frames

-- A native event of type "result" is translated to frames of which exactly one ends the turn; any
-- other event, whatever fields it has, is translated to frames of which none does.
pub translate_event-turn_ends :
    (texts : Texts) (include_raw : Bool) (event : Fields)
    → ends_of (translate_event texts include_raw event)
      ≡ (if is_text "result" (get "type" event) then 1 else 0)
unfolding translate_event
translate_event-turn_ends texts include_raw event =
    ends-translate_of texts event (if include_raw then some event else none) (get "type" event)
