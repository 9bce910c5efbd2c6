-- ===== src/Tests/Translators.antt =====
-- Witnesses for the backends' translators and turns.
use blemees_daemon.Prelude.{◌≡◌, refl, [], ◌∷◌, none, some, true, false}
use blemees_daemon.Json.{Fields, str, field, end, get}
use blemees_daemon.Frames.{Texts, ends_turn}
use blemees_daemon.Frames.Types.{ends_of}
use blemees_daemon.Codex.Events.{Translator, new_translator}
use blemees_daemon.Codex.Results.{finalize, with_cause, bare_result}
use blemees_daemon.Codex.Translate.{translate_event}
use blemees_daemon.Codex.Translate.TurnEnd.{ends-translate_event}
use blemees_daemon.Codex.Translate.Fresh.{
  Plain, buffered_type, is_buffered, translate_all, finalize-translate_all,
}

abbrev pub texts : Texts
texts = record {
  lower = λ s. s;
  contains = λ a b. false;
  ends_with = λ a b. false;
  float_ms = λ s. none;
}

abbrev delta_event : Fields
delta_event = field "type" (str "agent_message_content_delta") (field "delta" (str "hi") end)

abbrev used_translator : Translator
used_translator = record (new_translator true false) {
  task_complete = some (field "turn_id" (str "t1") end);
  last_token_usage = some end;
}

ends-translate_event_example :
    (ends_of (translate_event texts used_translator delta_event none).1 ≡ 0)
    × (ends_turn (finalize "success" none used_translator).1 ≡ true)
ends-translate_event_example =
    ends-translate_event texts used_translator used_translator delta_event none "success" none

finalize-translate_all_example :
    (finalize "error" (some end) (
      translate_all texts ((delta_event, none) ∷ []) (finalize "success" none used_translator).0)).1
    ≡ with_cause (some end) (bare_result "error")
unfolding Plain buffered_type is_buffered get
finalize-translate_all_example =
    finalize-translate_all texts ((delta_event, none) ∷ []) "success" "error" none (some end)
      used_translator (refl, tt)
