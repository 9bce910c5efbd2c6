-- ===== src/Tests/CodexTurns.antt =====
-- Witnesses for the turns of a Codex child.
use blemees_daemon.Prelude.{◌+◌, ◌≡◌, refl, List, [], ◌∷◌, none, some, true, false}
use blemees_daemon.Prelude.Int.{pos}
use blemees_daemon.Json.{Fields, str, obj, num, field, end, get}
use blemees_daemon.Frames.Types.{turn_ends}
use blemees_daemon.Backend.{Crash, live}
use blemees_daemon.Codex.Translate.{translate_event}
use blemees_daemon.Codex.Runtime.{CodexBackend, new_backend, send_user_turn}
use blemees_daemon.Codex.Runtime.Rpc.{handle_event, handle_turn_response}
use blemees_daemon.Codex.Runtime.Steps.{
  Action, launch, user, message, cancel, exit, run, turns, active,
}
use blemees_daemon.Codex.Runtime.Turns.{results-eq-turns}
use blemees_daemon.Codex.Runtime.Late.{IsLate, run-IsLate}
use blemees_daemon.Codex.Runtime.Stale.{translator-late_event}
use blemees_daemon.Tests.Translators.{texts}

abbrev crash : Crash
crash = record { message = λ tail rc. "stderr tail" }

abbrev started : CodexBackend
started = new_backend "a" end false 50 10 none

abbrev hello : Fields
hello = field "content" (str "hi") end

abbrev reply : Fields
reply = field "id" (num 2) (field "result" (obj end) end)

abbrev one_turn : List Action
one_turn = launch true ∷ user true hello ∷ message reply ∷ exit (pos 0) ∷ []

results-eq-turns_example :
    turns texts crash one_turn started
    ≡ turn_ends (run texts crash one_turn started).1 + active (run texts crash one_turn started).0
results-eq-turns_example = results-eq-turns texts crash one_turn "a" end false 50 10 none

abbrev busy : CodexBackend
busy = record started { proc = live; turn_active = true; active_turn_id = some 7 }

abbrev late_msg : Fields
late_msg = field "type" (str "token_count") (field "info" (obj end) end)

abbrev late_meta : Fields
late_meta = field "requestId" (num 4) (field "threadId" (str "t1") end)

abbrev late_event : Fields
late_event =
    field "method" (str "codex/event")
      (field "params" (obj (field "msg" (obj late_msg) (field "_meta" (obj late_meta) end))) end)

late_event-IsLate : IsLate 7 late_event
unfolding get
late_event-IsLate = record {
  method = "codex/event";
  params = field "msg" (obj late_msg) (field "_meta" (obj late_meta) end);
  msg = late_msg;
  meta = late_meta;
  request = pos 4;
  named = refl;
  event = refl;
  no_id = refl;
  has_params = refl;
  has_msg = refl;
  has_meta = refl;
  tagged = refl;
  other = λ e. cc;
}

abbrev turn_reply : Fields
turn_reply = field "id" (num 7) (field "result" (obj end) end)

run-IsLate_example :
    (run texts crash (message late_event ∷ message late_event ∷ cancel ∷ []) busy
      ≡ run texts crash (cancel ∷ []) (record busy { thread_id = some "t1" }))
    × ((run texts crash (message late_event ∷ message late_event ∷ message turn_reply ∷ []) busy).1
        ≡ (handle_turn_response texts turn_reply busy).1)
unfolding get new_backend
run-IsLate_example =
    run-IsLate texts crash 7 (late_event ∷ late_event ∷ []) (cancel ∷ []) turn_reply busy refl
      (late_event-IsLate, (late_event-IsLate, tt)) refl refl

abbrev idle : CodexBackend
idle = record started { proc = live }

translator-late_event_example :
    (send_user_turn true hello
      (handle_event texts (some late_msg) (some late_meta) idle).0).0.translator
    ≡ (translate_event texts idle.translator late_msg (some late_meta)).0
unfolding new_backend
translator-late_event_example =
    translator-late_event texts late_msg (some late_meta) true hello idle refl refl
