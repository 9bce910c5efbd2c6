-- ===== src/Codex/Translate.antt =====
-- blemees_agent/backends/translate_codex.py, CodexTranslator.translate_event.
pub mod TurnEnd
pub mod Fresh
use blemees_daemon.Prelude.{
  Bool, ◌||◌, Option, none, some, List, [], ◌∷◌, String, str_eq, if◌then◌else◌,
}
use blemees_daemon.Json.{Fields, get_str}
use blemees_daemon.Frames.{Texts, with_raw, notice, starts_with}
use blemees_daemon.Codex.Events.{
  Translator, Translated, dropped, raw_for, session_configured, task_started, task_completed,
  turn_aborted, token_count, mcp_startup, content_delta,
}
use blemees_daemon.Codex.Items.{item_completed, exec_command}
use Prim.Native.String.{◌++◌ as text_append}

abbrev pub kept : Translator → List Fields → Translated
kept t fs = (t, some fs)

-- Events that repeat another one, or have no frame.
unfoldable pub is_dropped : String → Bool
is_dropped t =
    str_eq t "agent_message_delta"
    || str_eq t "agent_message"
    || str_eq t "user_message"
    || str_eq t "item_started"
    || str_eq t "raw_response_item"

module _ (texts : Texts) where
  -- The rest of the `if` chain: events that do not change the translator.
  unfoldable pub stateless_frames : String → Bool → Fields → Option Fields → List Fields
  unfolding mcp_startup content_delta item_completed exec_command is_dropped starts_with
  stateless_frames k user_echo msg raw =
      if str_eq k "mcp_startup_update" || str_eq k "mcp_startup_complete"
      then mcp_startup k msg raw ∷ []
      else (if str_eq k "agent_message_content_delta"
          then content_delta msg raw
          else (if is_dropped k
              then []
              else (if str_eq k "item_completed"
                  then item_completed texts user_echo msg raw
                  else (if starts_with "exec_command_" k
                      then exec_command k msg raw
                      else with_raw raw (notice (text_append "codex_unknown_" k)) ∷ []))))

  -- The `if` chain.
  unfoldable pub translate_typed : String → Translator → Fields → Option Fields → Translated
  unfolding session_configured task_started task_completed turn_aborted token_count stateless_frames
  translate_typed k t msg raw =
      if str_eq k "session_configured"
      then session_configured t msg raw
      else (if str_eq k "task_started"
          then task_started texts t msg raw
          else (if str_eq k "task_complete"
              then task_completed t msg
              else (if str_eq k "turn_aborted"
                  then turn_aborted t msg
                  else (if str_eq k "token_count"
                      then token_count texts t msg raw
                      else kept t (stateless_frames k t.user_echo msg raw)))))

  unfoldable pub translate_of : Option String → Translator → Fields → Option Fields → Translated
  unfolding translate_typed
  translate_of none t msg raw = dropped t
  translate_of (some k) t msg raw = translate_typed k t msg raw

  -- translate_event
  unfoldable pub translate_event : Translator → Fields → Option Fields → Translated
  unfolding translate_of raw_for
  translate_event t msg meta = translate_of (get_str "type" msg) t msg (raw_for t msg meta)
