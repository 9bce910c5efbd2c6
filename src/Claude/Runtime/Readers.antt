-- ===== src/Claude/Runtime/Readers.antt =====
-- blemees_agent/backends/claude.py, ClaudeBackend: what the tasks do that read the child's stdout and
-- stderr and wait for its exit.
use blemees_daemon.Prelude.{
  ℕ, Bool, true, false, not, ◌&&◌, ◌||◌, Option, none, some, List, [], ◌∷◌, ◌++◌, String, any,
  is_some, take_right, if◌then◌else◌,
}
use blemees_daemon.Prelude.Int.{ℤ}
use blemees_daemon.Json.{Value, Fields, str, obj, end, get, insert}
use blemees_daemon.Frames.{Texts, is_text, with_text, with_fields, ends_turn}
use blemees_daemon.Errors.{auth_failed, backend_crashed, code_text}
use blemees_daemon.Backend.{Crash, exited, is_zero, error_frame, error_fields, stderr_frame}
use blemees_daemon.Claude.Limiter.{allow}
use blemees_daemon.Claude.Translate.{translate_event}
use blemees_daemon.Claude.Runtime.{
  ClaudeBackend, reset_turn_state, stamp_turn_metadata, build_synth_result,
}

-- _FIRST_CONTENT_TYPES
unfoldable pub is_first_content : Option Value → Bool
unfolding is_text
is_first_content t =
    is_text "agent.delta" t || is_text "agent.message" t || is_text "agent.tool_use" t

-- caps["rollout_path"], unless `session_file_path` raises
unfoldable pub with_rollout : Option String → Fields → Fields
unfolding insert
with_rollout none f = f
with_rollout (some path) f = insert "rollout_path" (str path) f

unfoldable pub copy_text : String → String → Fields → Fields → Fields
unfolding with_text
copy_text k j d f = with_text j (get k d) f

-- dict(frame.get("capabilities") or {}): the translator gives an object or nothing.
unfoldable pub capabilities_of : Option Value → Fields
capabilities_of (some (obj d)) = d
capabilities_of _ = end

-- _inject_capabilities
unfoldable pub inject_capabilities : Option String → Fields → Fields → Fields
unfolding with_rollout copy_text with_fields capabilities_of
inject_capabilities rollout options f =
    with_fields "capabilities"
      (with_rollout rollout (
        copy_text "effort" "reasoning_effort" options (
          copy_text "permission_mode" "permission_mode" options
            (capabilities_of (get "capabilities" f)))))
      f

-- The first content of a turn is timed.
unfoldable pub note_first_token : ℕ → Fields → ClaudeBackend → ClaudeBackend
unfolding is_first_content
note_first_token now f b =
    if not (is_some b.first_token_at_ms) && is_first_content (get "type" f)
    then record b { first_token_at_ms = some now }
    else b

-- A result closes the turn.
unfoldable pub end_turn : Fields → ClaudeBackend → ClaudeBackend × Fields
unfolding ends_turn stamp_turn_metadata reset_turn_state
end_turn f b =
    if ends_turn f
    then (
      reset_turn_state (record b { turn_active = false; turn_finalized = true }),
      stamp_turn_metadata b f,
    )
    else (b, f)

unfoldable pub flushed : Option Fields → List Fields
flushed none = []
flushed (some notice) = notice ∷ []

-- The notice that waited for the `agent.system_init`.
unfoldable pub flush_pending : Bool → ClaudeBackend → ClaudeBackend × List Fields
unfolding flushed
flush_pending is_init b =
    if is_init && not b.system_init_emitted
    then (
      record b { system_init_emitted = true; pending_task_started = none },
      flushed b.pending_task_started,
    )
    else (b, [])

-- The body of the loop over the frames of an event; `rollout` is the path of the transcript.
unfoldable pub read_frame : Option String → ℕ → Fields → ClaudeBackend → ClaudeBackend × List Fields
unfolding inject_capabilities note_first_token end_turn flush_pending is_text
read_frame rollout now f b =
    let g = insert "backend" (str "claude") f in
    let is_init = is_text "agent.system_init" (get "type" g) in
    let shown = if is_init then inject_capabilities rollout b.options g else g in
    let timed = if is_init then b else note_first_token now g b in
    let (ended, out) = end_turn shown timed in
    let (after, notices) = flush_pending is_init ended in (after, out ∷ notices)

unfoldable pub read_frames :
    Option String → ℕ → List Fields → ClaudeBackend → ClaudeBackend × List Fields
unfolding read_frame
read_frames rollout now [] b = (b, [])
read_frames rollout now (f ∷ fs) b =
    let (next, out) = read_frame rollout now f b in
    let (last, rest) = read_frames rollout now fs next in (last, out ++ rest)

-- The frames of an event; one that cannot be translated ends the reader.
unfoldable pub translated : Option (List Fields) → List Fields
translated none = []
translated (some fs) = fs

-- _read_stdout, of a line that holds an object
unfoldable pub read_stdout :
    Texts → Option String → ℕ → Fields → ClaudeBackend → ClaudeBackend × List Fields
unfolding read_frames translated
read_stdout texts rollout now event b =
    read_frames rollout now (translated (translate_event texts b.include_raw event)) b

abbrev pub auth_fail_patterns : List String
auth_fail_patterns =
    "401" ∷ "OAuth token expired" ∷ "Please run claude auth" ∷ "Session authentication failed" ∷ []

abbrev pub auth_message : String
auth_message = "Run `claude auth` to re-authenticate."

-- The result of a turn that an error cuts off, unless the turn has had one.
unfoldable pub synth_frames : String → String → ClaudeBackend → List Fields
unfolding build_synth_result error_fields
synth_frames code message b =
    if b.turn_active && not b.turn_finalized
    then build_synth_result "error" (some (error_fields code message)) b ∷ []
    else []

unfoldable pub finalized : ClaudeBackend → ClaudeBackend
unfolding reset_turn_state
finalized b =
    if b.turn_active && not b.turn_finalized
    then reset_turn_state (record b { turn_active = false; turn_finalized = true })
    else b

unfoldable pub pass_line : String → ClaudeBackend × Bool → ClaudeBackend × List Fields
unfolding stderr_frame
pass_line line (b, true) = (b, stderr_frame b.session_id line ∷ [])
pass_line line (b, false) = (b, [])

unfoldable pub is_auth_failure : Texts → String → Bool
is_auth_failure texts line = any (λ p. texts.contains p line) auth_fail_patterns

unfoldable pub limit_line : ℕ → String → ClaudeBackend → ClaudeBackend × List Fields
unfolding allow pass_line
limit_line now line b =
    let (limit, allowed) = allow now b.stderr_limit in
    pass_line line (record b { stderr_limit = limit }, allowed)

-- _read_stderr, of a line that is not empty, at a monotonic time
unfoldable pub read_stderr : Texts → ℕ → String → ClaudeBackend → ClaudeBackend × List Fields
unfolding code_text is_auth_failure error_frame synth_frames finalized limit_line
read_stderr texts now line b =
    let kept = record b { stderr_tail = take_right 20 (b.stderr_tail ++ line ∷ []) } in
    if not b.auth_emitted && is_auth_failure texts line
    then (
      finalized (record kept { auth_emitted = true }),
      error_frame "claude" b.session_id (code_text auth_failed) auth_message
          ∷ synth_frames (code_text auth_failed) auth_message kept,
    )
    else limit_line now line kept

-- _watch_exit, with the child's return code
unfoldable pub watch_exit : Crash → ℤ → ClaudeBackend → ClaudeBackend × List Fields
unfolding code_text is_zero error_frame synth_frames finalized
watch_exit crash rc b =
    let gone = record b { proc = exited rc } in
    let text = crash.message b.stderr_tail rc in
    if b.closing
    then (gone, [])
    else (if b.turn_active || not (is_zero rc)
        then (
          record (finalized gone) { turn_active = false },
          error_frame "claude" b.session_id (code_text backend_crashed) text
              ∷ synth_frames (code_text backend_crashed) text gone,
        )
        else (record gone { turn_active = false }, []))
