-- ===== src/Codex/Results.antt =====
-- blemees_agent/backends/translate_codex.py: the result that closes a turn.
use blemees_daemon.Prelude.{Option, none, some, [], ◌∷◌, String}
use blemees_daemon.Json.{Fields, str, obj, end, field, get, insert, num, get_obj}
use blemees_daemon.Frames.{with_int, with_fields, copy_present}
use blemees_daemon.Codex.Events.{Translator}

-- _populate_from_task_complete
unfoldable pub populate : Option Fields → Fields → Fields
unfolding copy_present
populate none f = f
populate (some tc) f = copy_present ("duration_ms" ∷ "turn_id" ∷ "time_to_first_token_ms" ∷ []) tc f

unfoldable pub usage_of_last : Option Fields → Fields
unfolding with_int
usage_of_last none = end
usage_of_last (some last) = with_int "cache_read_input_tokens" (get "cached_input_tokens" last) (
    with_int "reasoning_output_tokens" (get "reasoning_output_tokens" last) (
      with_int "output_tokens" (get "output_tokens" last)
        (with_int "input_tokens" (get "input_tokens" last) end)))

-- _build_usage
unfoldable pub build_usage : Option Fields → Fields
unfolding usage_of_last
build_usage none = end
build_usage (some info) = usage_of_last (get_obj "last_token_usage" info)

unfoldable pub with_cause : Option Fields → Fields → Fields
unfolding insert
with_cause none f = f
with_cause (some e) f = insert "error" (obj e) f

-- The fields that every result has; each call of the backend leaves `num_turns` at 1.
unfoldable pub bare_result : String → Fields
bare_result subtype =
    field "type" (str "agent.result")
      (field "subtype" (str subtype) (field "num_turns" (num 1) end))

-- _reset_turn
unfoldable pub reset_turn : Translator → Translator
reset_turn t = record t { last_token_usage = none; task_complete = none }

-- The body of `finalize_success`, `finalize_error` and `finalize_interrupted`, by their subtypes.
unfoldable pub finalize : String → Option Fields → Translator → Translator × Fields
unfolding populate build_usage with_cause with_fields bare_result reset_turn
finalize subtype error t = (
  reset_turn t,
  with_cause error (
      with_fields "usage" (build_usage t.last_token_usage)
        (populate t.task_complete (bare_result subtype))),
)

unfoldable pub finalize_success : Translator → Translator × Fields
unfolding finalize
finalize_success t = finalize "success" none t

unfoldable pub finalize_error : Option Fields → Translator → Translator × Fields
unfolding finalize
finalize_error error t = finalize "error" error t

unfoldable pub finalize_interrupted : Translator → Translator × Fields
unfolding finalize
finalize_interrupted t = finalize "interrupted" none t
