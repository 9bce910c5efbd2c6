-- ===== src/Codex/Events.antt =====
-- blemees_agent/backends/translate_codex.py: the events of a Codex child as `agent.*` frames. A call
-- of `translate_event` that raises (`none`) keeps what it changed before.
use blemees_daemon.Prelude.{
  Bool, true, false, not, ◌&&◌, Option, none, some, List, [], ◌∷◌, String, str_eq, if◌then◌else◌,
  is_some,
}
use blemees_daemon.Json.{
  Value, Fields, null, bool, int, float, str, obj, end, field, get, insert, update, get_str,
  and_then, as_int,
}
use blemees_daemon.Frames.{
  Texts, with_raw, with_text, with_int, with_fields, value_or, without, notice, with_ms,
  copy_present,
}

pub record Translator : Type 0 where
  pub include_raw : Bool
  pub user_echo : Bool
  pub init_emitted : Bool
  pub thread_id : Option String
  pub last_token_usage : Option Fields
  pub task_complete : Option Fields
  pub pending_window : Option Value

-- CodexTranslator(include_raw, user_echo)
unfoldable pub new_translator : Bool → Bool → Translator
new_translator include_raw user_echo = record {
  include_raw = include_raw;
  user_echo = user_echo;
  init_emitted = false;
  thread_id = none;
  last_token_usage = none;
  task_complete = none;
  pending_window = none;
}

-- The translator after a call, and the frames; `none` where the call raises.
abbrev pub Translated : Type 0
Translated = Translator × Option (List Fields)

abbrev pub one : Translator → Fields → Translated
one t f = (t, some (f ∷ []))

abbrev pub dropped : Translator → Translated
dropped t = (t, some [])

unfoldable pub with_meta : Option Fields → Fields → Fields
unfolding insert
with_meta none d = d
with_meta (some meta) d = insert "_meta" (obj meta) d

-- _raw_for
unfoldable pub raw_for : Translator → Fields → Option Fields → Option Fields
unfolding with_meta
raw_for t msg meta = if t.include_raw then some (with_meta meta msg) else none

unfoldable pub with_window : Option Value → Fields → Fields
unfolding insert
with_window none f = f
with_window (some n) f = insert "context_window" n f

unfoldable pub configured_thread : Option String → Translator → Translator
configured_thread none t = t
configured_thread (some sid) t = record t { thread_id = some sid }

abbrev pub capability_keys : List String
capability_keys =
    "sandbox_policy" ∷ "approval_policy" ∷ "permission_profile" ∷ "reasoning_effort"
    ∷ "rollout_path" ∷ []

unfoldable pub init_frame : Translator → Fields → Option Fields → Fields
unfolding with_raw with_window with_fields with_text copy_present
init_frame t msg raw = with_raw raw (
    with_window t.pending_window (
      with_fields "capabilities" (copy_present capability_keys msg end) (
        with_text "native_session_id" (get "session_id" msg) (
          with_text "cwd" (get "cwd" msg)
            (with_text "model" (get "model" msg) (field "type" (str "agent.system_init") end))))))

-- _translate_session_configured
unfoldable pub session_configured : Translator → Fields → Option Fields → Translated
unfolding init_frame configured_thread
session_configured t msg raw =
    one
      (record (configured_thread (get_str "session_id" msg) t) {
        pending_window = none;
        init_emitted = true;
      })
      (init_frame t msg raw)

unfoldable pub pending_of : Bool → Option Value → Option Value → Option Value
pending_of emitted none old = old
pending_of emitted (some v) old = if not emitted && is_some (as_int v) then some v else old

unfoldable pub notice_with : String → Option Fields → Fields → Fields
unfolding with_raw with_fields notice
notice_with category raw details = with_raw raw (with_fields "data" details (notice category))

unfoldable pub notice_if : Translator → String → Option Fields → Option Fields → Translated
unfolding notice_with
notice_if t category raw none = (t, none)
notice_if t category raw (some details) = one t (notice_with category raw details)

-- _translate_task_started
unfoldable pub task_started : Texts → Translator → Fields → Option Fields → Translated
unfolding pending_of notice_if with_ms copy_present
task_started texts t msg raw =
    notice_if
      (record t {
        pending_window =
            pending_of t.init_emitted (get "model_context_window" msg) t.pending_window;
      })
      "task_started" raw
      (with_ms texts.float_ms "started_at_ms" (get "started_at" msg)
        (copy_present ("turn_id" ∷ "model_context_window" ∷ []) msg end))

-- _translate_task_complete
unfoldable pub task_completed : Translator → Fields → Translated
unfolding copy_present
task_completed t msg = dropped (record t {
  task_complete =
      some (copy_present ("turn_id" ∷ "duration_ms" ∷ "time_to_first_token_ms" ∷ []) msg end);
})

unfoldable pub merge_aborted : Option Fields → Fields → Option Fields
unfolding update
merge_aborted tc end = tc
merge_aborted none (field k v d) = some (update end (field k v d))
merge_aborted (some tc) (field k v d) = some (update tc (field k v d))

-- _translate_turn_aborted
unfoldable pub turn_aborted : Translator → Fields → Translated
unfolding merge_aborted copy_present
turn_aborted t msg = dropped (record t {
  task_complete = merge_aborted t.task_complete (copy_present ("turn_id" ∷ "reason" ∷ []) msg end);
})

unfoldable pub keep_number : String → Option Value → Fields → Fields
unfolding insert
keep_number k (some (int n)) f = insert k (int n) f
keep_number k (some (float x)) f = insert k (float x) f
keep_number k (some (bool b)) f = insert k (bool b) f
keep_number k _ f = f

-- _extract_codex_limit
unfoldable pub extract_limit : Texts → Option Value → Option Fields
unfolding with_ms with_int keep_number
extract_limit texts (some (obj block)) =
    and_then (with_ms texts.float_ms "resets_at_ms" (get "resets_at" block) end) (λ out. some (
      with_int "window_minutes" (get "window_minutes" block)
        (keep_number "used_percent" (get "used_percent" block) out)))
extract_limit texts _ = some end

-- _normalise_rate_limits_codex
unfoldable pub normalise_rate_limits : Texts → Option Value → Option Fields
unfolding extract_limit with_fields without
normalise_rate_limits texts (some (obj limits)) =
    and_then (extract_limit texts (get "primary" limits)) (λ primary.
      and_then (extract_limit texts (get "secondary" limits)) (λ secondary. some (
        with_fields "vendor" (without ("primary" ∷ "secondary" ∷ []) limits)
          (with_fields "secondary_limit" secondary (with_fields "limit" primary end)))))
normalise_rate_limits texts _ = some end

unfoldable pub token_info : Texts → Translator → Fields → Option Fields → Option Value → Translated
unfolding notice_if normalise_rate_limits
token_info texts t msg raw none =
    notice_if t "rate_limits" raw (normalise_rate_limits texts (get "rate_limits" msg))
token_info texts t msg raw (some null) =
    notice_if t "rate_limits" raw (normalise_rate_limits texts (get "rate_limits" msg))
token_info texts t msg raw (some (obj info)) = dropped (record t { last_token_usage = some info })
token_info texts t msg raw (some _) = dropped t

-- _translate_token_count
unfoldable pub token_count : Texts → Translator → Fields → Option Fields → Translated
unfolding token_info
token_count texts t msg raw = token_info texts t msg raw (get "info" msg)

-- if k in d: frame[k] = d[k]
unfoldable pub put_if_there : String → Option Value → Fields → Fields
unfolding insert
put_if_there k none f = f
put_if_there k (some v) f = insert k v f

-- _translate_mcp_startup
unfoldable pub mcp_startup : String → Fields → Option Fields → Fields
unfolding notice_with put_if_there copy_present
mcp_startup msg_type msg raw =
    if str_eq msg_type "mcp_startup_update"
    then notice_with "backend_mcp_startup" raw
        (put_if_there "status" (get "status" msg) (put_if_there "server" (get "server" msg) end))
    else notice_with "backend_mcp_startup_complete" raw
        (copy_present ("ready" ∷ "failed" ∷ "cancelled" ∷ []) msg end)

unfoldable pub delta_frame : Fields → Option Fields → Value → List Fields
unfolding with_raw with_text
delta_frame msg raw (str s) =
    with_raw raw (
      with_text "item_id" (get "item_id" msg)
        (field "type" (str "agent.delta") (field "kind" (str "text") (field "text" (str s) end))))
    ∷ []
delta_frame msg raw _ = []

-- _translate_content_delta
unfoldable pub content_delta : Fields → Option Fields → List Fields
unfolding delta_frame value_or
content_delta msg raw = delta_frame msg raw (value_or (str "") (get "delta" msg))
