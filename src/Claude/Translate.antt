-- ===== src/Claude/Translate.antt =====
-- blemees_agent/backends/translate_claude.py: one native event of a Claude child as `agent.*` frames.
-- `none` stands for the exception of a `.get` on what is no dict.
pub mod TurnEnd
use blemees_daemon.Prelude.{
  ℕ, ◌+◌, ◌*◌, Bool, true, false, ◌&&◌, ◌||◌, Option, none, some, List, [], ◌∷◌, ◌++◌, String,
  str_eq, if◌then◌else◌, any,
}
use blemees_daemon.Prelude.Int.{ℤ, pos, negsuc}
use blemees_daemon.Json.{
  Value, Fields, Items, null, bool, int, float, str, arr, obj, nil, cons, end, field, get, insert,
  update, items, get_str, get_obj, and_then, as_int, num,
}
use blemees_daemon.Protocol.{truthy}
use blemees_daemon.Frames.{
  Texts, is_text, with_raw, with_text, keep_int, with_int, with_fields, value_or, or_empty,
  dict_or_empty, without, notice, category_of, with_ms,
}
use Prim.Native.String.{◌++◌ as text_append}

module _ (texts : Texts) where
  -- _claude_context_window
  unfoldable pub context_window : String → ℕ
  context_window model =
      let lowered = texts.lower model in
      if texts.contains "1m" lowered
        && (texts.contains "[1m]" lowered
            || texts.ends_with "-1m" lowered
            || texts.contains "-1m-" lowered)
      then 1000000
      else 200000

  with_model : Option Value → Fields → Fields
  unfolding insert context_window
  with_model (some (str m)) f =
      insert "context_window" (num (context_window m)) (insert "model" (str m) f)
  with_model _ f = f

  texts_of : Items → Items
  texts_of nil = nil
  texts_of (cons (str s) vs) = cons (str s) (texts_of vs)
  texts_of (cons v vs) = texts_of vs

  with_tools : Option Value → Fields → Fields
  unfolding insert texts_of
  with_tools (some (arr vs)) f = insert "tools" (arr (texts_of vs)) f
  with_tools _ f = f

  unfoldable pub init_frame : Fields → Fields
  unfolding with_model with_text with_tools
  init_frame event = with_tools (get "tools" event) (
      with_text "cwd" (get "cwd" event)
        (with_model (get "model" event) (field "type" (str "agent.system_init") end)))

  unfoldable pub system_notice : Fields → Fields
  unfolding with_fields without notice category_of
  system_notice event =
      with_fields "data" (without ("type" ∷ "subtype" ∷ []) event)
        (notice (category_of "claude_system" (get "subtype" event)))

  -- _translate_system
  unfoldable pub translate_system : Fields → Option Fields → List Fields
  unfolding with_raw is_text init_frame system_notice
  translate_system event raw =
      with_raw raw
        (if is_text "init" (get "subtype" event) then init_frame event else system_notice event)
      ∷ []

tool_use_frame : Option String → Option String → Fields → Option Value → Option Fields → List Fields
unfolding or_empty with_int with_raw
tool_use_frame (some id) (some name) block index raw =
    with_raw raw (
      with_int "index" index (
        field "type" (str "agent.tool_use") (
          field "tool_use_id" (str id)
            (field "name" (str name) (field "input" (or_empty (get "input" block)) end)))))
    ∷ []
tool_use_frame _ _ block index raw = []

unfoldable pub block_start : Fields → Option Value → Option Fields → List Fields
unfolding is_text tool_use_frame
block_start block index raw =
    if is_text "tool_use" (get "type" block)
    then tool_use_frame (get_str "id" block) (get_str "name" block) block index raw
    else []

delta_frame : String → String → Value → Fields
delta_frame kind key v =
    field "type" (str "agent.delta") (field "kind" (str kind) (field key v end))

unknown_delta : Fields → Option Value → Fields
unfolding notice category_of insert value_or
unknown_delta delta index =
    insert "data" (obj (field "delta" (obj delta) (field "index" (value_or null index) end)))
      (notice (category_of "claude_delta" (get "type" delta)))

unfoldable pub block_delta : Fields → Option Value → Option Fields → Fields
unfolding is_text delta_frame unknown_delta with_int with_raw value_or
block_delta delta index raw =
    let t = get "type" delta in
    with_raw raw (
      if is_text "text_delta" t
      then with_int "index" index (delta_frame "text" "text" (value_or (str "") (get "text" delta)))
      else (if is_text "thinking_delta" t
          then with_int "index" index
              (delta_frame "thinking" "text" (value_or (str "") (get "thinking" delta)))
          else (if is_text "input_json_delta" t
              then with_int "index" index (
                  delta_frame "tool_input" "partial_json"
                    (value_or (str "") (get "partial_json" delta)))
              else unknown_delta delta index)))

on_block : (Fields → List Fields) → Option Fields → Option (List Fields)
on_block f none = none
on_block f (some block) = some (f block)

inner_frames : Fields → Option Fields → Option (List Fields)
unfolding on_block dict_or_empty is_text block_start block_delta
inner_frames inner raw =
    let index = get "index" inner in
    if is_text "content_block_start" (get "type" inner)
    then on_block (λ b. block_start b index raw) (dict_or_empty (get "content_block" inner))
    else (if is_text "content_block_delta" (get "type" inner)
        then on_block (λ b. block_delta b index raw ∷ []) (dict_or_empty (get "delta" inner))
        else some [])

-- _translate_stream_event
unfoldable pub translate_stream_event : Option Value → Option Fields → Option (List Fields)
unfolding inner_frames
translate_stream_event (some (obj inner)) raw = inner_frames inner raw
translate_stream_event _ raw = some []

content_items : Option Value → Items
content_items (some (arr vs)) = vs
content_items (some (str s)) = cons (obj (field "type" (str "text") (field "text" (str s) end))) nil
content_items _ = nil

unfoldable pub is_block : String → Value → Bool
unfolding is_text
is_block t (obj d) = is_text t (get "type" d)
is_block t _ = false

with_phase : Items → Fields → Fields
unfolding is_block insert
with_phase vs f =
    if any (is_block "tool_use") (items vs) then f else insert "phase" (str "final_answer") f

-- _translate_assistant, of its message
unfoldable pub assistant_frame : Option Fields → Fields → Fields
unfolding content_items with_phase with_raw
assistant_frame raw message =
    let content = content_items (get "content" message) in
    with_raw raw (
      with_phase content (
        field "type" (str "agent.message")
          (field "role" (str "assistant") (field "content" (arr content) end))))

with_error : Option Value → Fields → Fields
unfolding insert truthy
with_error none f = f
with_error (some v) f = insert "is_error" (bool (truthy v)) f

tool_result_frame : Option String → Fields → Option Fields → List Fields
unfolding with_error with_raw value_or
tool_result_frame none block raw = []
tool_result_frame (some id) block raw =
    with_raw raw (
      with_error (get "is_error" block) (
        field "type" (str "agent.tool_result") (
          field "tool_use_id" (str id) (field "output" (value_or null (get "content" block)) end))))
    ∷ []

-- The loop over a user message's blocks: the frames of its tool results, and the other blocks.
unfoldable pub split_blocks : Option Fields → Items → List Fields × Items
unfolding is_text tool_result_frame
split_blocks raw nil = ([], nil)
split_blocks raw (cons (obj b) vs) =
    let (frames, rest) = split_blocks raw vs in
    if is_text "tool_result" (get "type" b)
    then (tool_result_frame (get_str "tool_use_id" b) b raw ++ frames, rest)
    else (frames, cons (obj b) rest)
split_blocks raw (cons v vs) = split_blocks raw vs

unfoldable pub echo_frame : Option Fields → Value → Fields
unfolding with_raw
echo_frame raw content = with_raw raw (
    field "type" (str "agent.user_echo")
      (field "message" (obj (field "role" (str "user") (field "content" content end))) end))

-- The echo comes after the tool results, and alone where there are none.
unfoldable pub with_echo : Option Fields → List Fields → Items → List Fields
unfolding echo_frame
with_echo raw frames (cons v vs) = frames ++ echo_frame raw (arr (cons v vs)) ∷ []
with_echo raw [] nil = echo_frame raw (arr nil) ∷ []
with_echo raw (f ∷ frames) nil = f ∷ frames

-- _translate_user, of its message's content
unfoldable pub user_frames : Option Fields → Option Value → List Fields
unfolding split_blocks with_echo echo_frame
user_frames raw (some (arr vs)) =
    let (frames, rest) = split_blocks raw vs in with_echo raw frames rest
user_frames raw (some (str s)) = echo_frame raw (str s) ∷ []
user_frames raw _ = echo_frame raw (str "") ∷ []

limit_of : (String → Option ℤ) → Option Fields → Option Fields
unfolding with_ms with_text
limit_of float_ms none = some end
limit_of float_ms (some info) =
    and_then (with_ms float_ms "resets_at_ms" (get "resetsAt" info) end)
      (λ limit. some (with_text "status" (get "status" info) limit))

fields_or_empty : Option Fields → Fields
fields_or_empty none = end
fields_or_empty (some d) = d

unfoldable pub vendor_of : Fields → Fields
unfolding update without fields_or_empty
vendor_of event =
    update
      (update end
        (without ("resetsAt" ∷ "status" ∷ []) (fields_or_empty (get_obj "rate_limit_info" event))))
      (without ("type" ∷ "rate_limit_info" ∷ []) event)

rate_limit_notice : Fields → Option Fields → Fields → Fields
unfolding with_fields vendor_of with_raw notice
rate_limit_notice event raw limit = with_raw raw (
    with_fields "data" (with_fields "vendor" (vendor_of event) (with_fields "limit" limit end))
      (notice "rate_limits"))

-- _translate_rate_limit_event
unfoldable pub translate_rate_limit : Texts → Fields → Option Fields → Option (List Fields)
unfolding limit_of rate_limit_notice
translate_rate_limit texts event raw =
    and_then (limit_of texts.float_ms (get_obj "rate_limit_info" event))
      (λ limit. some (rate_limit_notice event raw limit ∷ []))

keep_if_int : String → Value → Option ℤ → Fields → Fields
keep_if_int k v none d = d
keep_if_int k v (some n) d = field k v d

-- {k: v for k, v in usage.items() if isinstance(v, int)}
unfoldable pub int_fields : Fields → Fields
unfolding keep_if_int
int_fields end = end
int_fields (field k v d) = keep_if_int k v (as_int v) (int_fields d)

with_usage : Option Value → Fields → Fields
unfolding insert int_fields
with_usage (some (obj usage)) f = insert "usage" (obj (int_fields usage)) f
with_usage _ f = f

-- _translate_result
unfoldable pub translate_result : Fields → Option Fields → Fields
unfolding with_int with_usage with_raw value_or
translate_result event raw = with_raw raw (
    with_usage (get "usage" event) (
      with_int "num_turns" (get "num_turns" event) (
        with_int "duration_ms" (get "duration_ms" event) (
          field "type" (str "agent.result")
            (field "subtype" (value_or (str "success") (get "subtype" event)) end)))))

unknown_event : String → Option Fields → Fields
unfolding notice with_raw
unknown_event t raw = with_raw raw (notice (text_append "claude_unknown_" t))

module _ (texts : Texts) where
  -- The `if` chain of `translate_event`.
  unfoldable pub translate_typed : String → Fields → Option Fields → Option (List Fields)
  unfolding translate_system translate_stream_event assistant_frame user_frames translate_result
      translate_rate_limit unknown_event dict_or_empty
  translate_typed t event raw =
      if str_eq t "system"
      then some (translate_system texts event raw)
      else (if str_eq t "stream_event"
          then translate_stream_event (get "event" event) raw
          else (if str_eq t "assistant"
              then and_then (dict_or_empty (get "message" event))
                  (λ m. some (assistant_frame raw m ∷ []))
              else (if str_eq t "user"
                  then and_then (dict_or_empty (get "message" event))
                      (λ m. some (user_frames raw (get "content" m)))
                  else (if str_eq t "result"
                      then some (translate_result event raw ∷ [])
                      else (if str_eq t "rate_limit_event"
                          then translate_rate_limit texts event raw
                          else (if str_eq t "partial_assistant"
                              then some []
                              else some (unknown_event t raw ∷ [])))))))

  translate_of : Option String → Fields → Option Fields → Option (List Fields)
  unfolding translate_typed
  translate_of none event raw = some []
  translate_of (some t) event raw = translate_typed t event raw

  -- translate_event
  unfoldable pub translate_event : Bool → Fields → Option (List Fields)
  unfolding translate_of
  translate_event include_raw event =
      translate_of (get_str "type" event) event (if include_raw then some event else none)
