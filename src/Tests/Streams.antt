-- ===== src/Tests/Streams.antt =====
-- Witnesses for the event stream of a session, its title, its counters and the translation.
use blemees_daemon.Prelude.{
  ◌⊎◌, ◌≡◌, refl, [], ◌∷◌, ◌++◌, none, some, true, false, take_right, arith,
}
use blemees_daemon.Prelude.Int.{◌+ℤ◌, pos}
use blemees_daemon.Json.{Fields, str, obj, num, end, field, get}
use blemees_daemon.EventLog.Tail.{IsLine, written, tail-written}
use blemees_daemon.EventLog.{Codec, strip, tail, append_line, extend}
use blemees_daemon.EventLog.Ring.{extend-eq-take_right}
use blemees_daemon.EventLog.Replay.{since-Splits, Splits}
use blemees_daemon.Session.{attach, on_event}
use blemees_daemon.Session.Stream.{Tracks}
use blemees_daemon.Session.Finishing.{attach-soft_kill}
use blemees_daemon.Session.Title.{Text, record_title, content_text}
use blemees_daemon.Session.TitleLine.{IsBlank, Titles, record_title-Titles}
use blemees_daemon.Session.Counters.{update_usage, new_usage, count}
use blemees_daemon.Session.Totals.{update_usage-count}
use blemees_daemon.Claude.Translate.{translate_event}
use blemees_daemon.Frames.{Texts, is_text}
use blemees_daemon.Frames.Types.{ends_of}
use blemees_daemon.Claude.Translate.TurnEnd.{translate_event-turn_ends}
use blemees_daemon.Tests.{quiet_env, session_a, history, numbered}

abbrev used : Fields
used = field "input_tokens" (num 4) (field "output_tokens" (num 2) end)

abbrev result_frame : Fields
result_frame = field "type" (str "agent.result") (field "usage" (obj used) end)

abbrev texts : Texts
texts = record {
  lower = λ s. s;
  contains = λ s t. false;
  ends_with = λ s t. false;
  float_ms = λ t. none;
}

history-Tracks : Tracks history session_a
unfolding get
history-Tracks = record {
  room = omega arith;
  kept = refl;
  rising = (
    1,
    refl,
    omega arith,
    (
      2,
      refl,
      omega arith,
      (3, refl, omega arith, (4, refl, omega arith, (5, refl, omega arith, omega arith))),
    ),
  );
}

attach-soft_kill_example :
    ((on_event quiet_env
        (attach quiet_env (record session_a { finishing = true }) 2 2 none).session
        result_frame).soft_kill
      ≡ true)
    × ((on_event quiet_env
          (attach quiet_env (record session_a { finishing = true }) 2 2 none).session
          result_frame).session.connection_id
        ≡ some 2)
unfolding get
attach-soft_kill_example =
    attach-soft_kill quiet_env quiet_env (record session_a { finishing = true }) 2 2 none
      result_frame refl refl refl

extend-eq-take_right_example :
    (extend session_a.ring (numbered 6 ∷ numbered 7 ∷ [])).buf
    ≡ take_right 3 (session_a.ring.buf ++ numbered 6 ∷ numbered 7 ∷ [])
extend-eq-take_right_example =
    extend-eq-take_right session_a.ring (numbered 6 ∷ numbered 7 ∷ []) (omega arith)

since-Splits_example : Splits 3 history
unfolding get
since-Splits_example = since-Splits 3 0 5 history history-Tracks.rising

abbrev greeting : Fields
greeting = field "content" (str "  fix\n it ") end

record_title-Titles_example :
    (IsBlank (content_text (get "content" greeting)) × (record_title none greeting ≡ none))
    ⊎ ((t : Text) × Titles greeting t)
record_title-Titles_example = record_title-Titles greeting

update_usage-count_example :
    ((update_usage true 9 "a" result_frame new_usage).turns ≡ new_usage.turns +ℤ pos 1)
    × ((update_usage true 9 "a" result_frame new_usage).last_turn_usage ≡ used)
    × (count "input_tokens" (update_usage true 9 "a" result_frame new_usage).cumulative_usage
        ≡ count "input_tokens" new_usage.cumulative_usage +ℤ count "input_tokens" used)
unfolding get
update_usage-count_example =
    update_usage-count true 9 "a" result_frame used new_usage "input_tokens" refl refl

translate_event-turn_ends_example :
    ends_of (translate_event texts true (field "type" (str "result") end)) ≡ 1
unfolding is_text get
translate_event-turn_ends_example =
    translate_event-turn_ends texts true (field "type" (str "result") end)

-- A codec of one frame, the object `{}`.
abbrev brace_codec : Codec
brace_codec = record { dumps = λ f. 123 ∷ 125 ∷ []; loads = λ bs. some (obj end) }

brace-IsLine : IsLine brace_codec end
unfolding strip
brace-IsLine = record {
  head = 123;
  rest = 125 ∷ [];
  text = refl;
  one_line = (refl, (refl, tt));
  stripped = refl;
  read_back = refl;
}

tail-written_example :
    tail brace_codec (written brace_codec [] (end ∷ end ∷ end ∷ [])) 2 ≡ end ∷ end ∷ []
unfolding written append_line
tail-written_example =
    tail-written brace_codec 1 (end ∷ end ∷ end ∷ [])
      (brace-IsLine, (brace-IsLine, (brace-IsLine, tt))) (omega arith)
