-- ===== src/Codex/Items.antt =====
-- blemees_agent/backends/translate_codex.py: messages, echoes and shell commands.
use blemees_daemon.Prelude.{
  Bool, false, ◌||◌, Option, none, some, List, [], ◌∷◌, String, str_eq, if◌then◌else◌,
}
use blemees_daemon.Json.{
  Value, Fields, Items, null, bool, str, arr, obj, nil, cons, end, field, get, insert, get_str,
}
use blemees_daemon.Protocol.{truthy}
use blemees_daemon.Frames.{Texts, is_text, with_raw, with_text, value_or, dict_or_empty, notice}
use Prim.Native.String.{◌++◌ as text_append}

module _ (texts : Texts) where
  -- The type of a content block is "Text", in whatever case.
  unfoldable pub is_text_block : Option Value → Bool
  is_text_block (some (str t)) = str_eq t "Text" || str_eq (texts.lower t) "text"
  is_text_block _ = false

  unfoldable pub text_or_empty : Option Value → Value
  text_or_empty (some (str s)) = str s
  text_or_empty _ = str ""

  unfoldable pub normal_block : Fields → Fields
  unfolding is_text_block text_or_empty
  normal_block block =
      if is_text_block (get "type" block)
      then field "type" (str "text") (field "text" (text_or_empty (get "text" block)) end)
      else block

  unfoldable pub normal_items : Items → Items
  unfolding normal_block
  normal_items nil = nil
  normal_items (cons (obj block) vs) = cons (obj (normal_block block)) (normal_items vs)
  normal_items (cons v vs) = normal_items vs

  -- _normalise_codex_content
  unfoldable pub normalise_content : Option Value → Items
  unfolding normal_items
  normalise_content (some (arr vs)) = normal_items vs
  normalise_content _ = nil

  -- _user_echo_from_item
  unfoldable pub user_echo_frames : Bool → Fields → Option Fields → List Fields
  unfolding normalise_content with_raw
  user_echo_frames wanted item raw =
      if wanted
      then with_raw raw (
          field "type" (str "agent.user_echo") (
            field "message"
              (obj (
                field "role" (str "user")
                  (field "content" (arr (normalise_content (get "content" item))) end)))
              end))
        ∷ []
      else []

  -- _assistant_message_from_item
  unfoldable pub message_frame : Fields → Option Fields → Fields
  unfolding normalise_content with_raw with_text
  message_frame item raw = with_raw raw (
      with_text "phase" (get "phase" item) (
        field "type" (str "agent.message") (
          field "role" (str "assistant")
            (field "content" (arr (normalise_content (get "content" item))) end))))

  unfoldable pub item_frames : Bool → Option Fields → Option Fields → List Fields
  unfolding user_echo_frames message_frame is_text
  item_frames wanted raw none = []
  item_frames wanted raw (some item) =
      if is_text "UserMessage" (get "type" item)
      then user_echo_frames wanted item raw
      else (if is_text "AgentMessage" (get "type" item) then message_frame item raw ∷ [] else [])

  -- _translate_item_completed
  unfoldable pub item_completed : Bool → Fields → Option Fields → List Fields
  unfolding item_frames dict_or_empty
  item_completed wanted msg raw = item_frames wanted raw (dict_or_empty (get "item" msg))

-- The command, or the parameters where there is none.
unfoldable pub command_input : Fields → Option Value → Value
unfolding value_or
command_input msg none = value_or (obj end) (get "params" msg)
command_input msg (some null) = value_or (obj end) (get "params" msg)
command_input msg (some v) = v

unfoldable pub tool_name : Option String → String
tool_name none = "shell"
tool_name (some name) = name

unfoldable pub exec_begin : Fields → Option Fields → Option String → List Fields
unfolding command_input tool_name with_raw
exec_begin msg raw none = []
exec_begin msg raw (some id) =
    with_raw raw (
      field "type" (str "agent.tool_use") (
        field "tool_use_id" (str id) (
          field "name" (str (tool_name (get_str "tool" msg)))
            (field "input" (command_input msg (get "command" msg)) end))))
    ∷ []

unfoldable pub with_failed : Option Value → Fields → Fields
unfolding insert truthy
with_failed none f = f
with_failed (some v) f = insert "is_error" (bool (truthy v)) f

unfoldable pub exec_end : Fields → Option Fields → Option String → List Fields
unfolding with_failed with_raw value_or
exec_end msg raw none = []
exec_end msg raw (some id) =
    with_raw raw (
      with_failed (get "is_error" msg) (
        field "type" (str "agent.tool_result")
          (field "tool_use_id" (str id) (field "output" (value_or null (get "output" msg)) end))))
    ∷ []

-- _translate_exec_command
unfoldable pub exec_command : String → Fields → Option Fields → List Fields
unfolding exec_begin exec_end notice with_raw
exec_command msg_type msg raw =
    if str_eq msg_type "exec_command_begin"
    then exec_begin msg raw (get_str "call_id" msg)
    else (if str_eq msg_type "exec_command_end"
        then exec_end msg raw (get_str "call_id" msg)
        else with_raw raw (notice (text_append "codex_" msg_type)) ∷ [])
