-- ===== src/Codex/Runtime/Readers.antt =====
-- blemees_agent/backends/codex.py, CodexBackend: the lines of a child's stdout and stderr, and its exit.
use blemees_daemon.Prelude.{
  ℕ, Bool, true, false, not, ◌&&◌, ◌||◌, Option, none, some, [], ◌∷◌, ◌++◌, String, take_right,
  if◌then◌else◌,
}
use blemees_daemon.Prelude.Int.{ℤ}
use blemees_daemon.Json.{Value, Fields, str, obj, end, field}
use blemees_daemon.Errors.{backend_crashed, code_text}
use blemees_daemon.Frames.{Texts, starts_with}
use blemees_daemon.Backend.{Crash, exited, is_zero, error_frame, error_fields, stderr_frame}
use blemees_daemon.Claude.Limiter.{allow}
use blemees_daemon.Codex.Results.{finalize_error}
use blemees_daemon.Codex.Options.{has_auth_pattern}
use blemees_daemon.Codex.Runtime.Rpc.{Read, report_auth, dispatch_rpc, emitted}
use blemees_daemon.Codex.Runtime.{CodexBackend}

unfoldable pub pass_line : String → CodexBackend × Bool → Read
unfolding stderr_frame
pass_line line (b, true) = (b, stderr_frame b.session_id line ∷ [])
pass_line line (b, false) = (b, [])

unfoldable pub limit_line : ℕ → String → CodexBackend → Read
unfolding allow pass_line
limit_line now line b =
    let (limit, allowed) = allow now b.stderr_limit in
    pass_line line (record b { stderr_limit = limit }, allowed)

-- _read_stderr, of a line that is not empty, at a monotonic time
unfoldable pub read_stderr : Texts → ℕ → String → CodexBackend → Read
unfolding has_auth_pattern report_auth limit_line
read_stderr texts now line b =
    let kept = record b { stderr_tail = take_right 20 (b.stderr_tail ++ line ∷ []) } in
    if not b.auth_emitted && has_auth_pattern texts line
    then report_auth true kept
    else limit_line now line kept

-- The result of a turn that the exit cuts off.
unfoldable pub crash_turn : String → CodexBackend → Read
unfolding code_text error_fields finalize_error emitted
crash_turn text b =
    if b.turn_active
    then (let (translator, frame) =
          finalize_error (some (error_fields (code_text backend_crashed) text)) b.translator in
        (
          record b { translator = translator; active_turn_id = none; cancel_active = false },
          emitted frame ∷ [],
        ))
    else (b, [])

unfoldable pub idle : Read → Read
idle (b, out) = (record b { turn_active = false }, out)

-- _watch_exit, with the child's return code
unfoldable pub watch_exit : Crash → ℤ → CodexBackend → Read
unfolding code_text is_zero error_frame crash_turn idle
watch_exit crash rc b =
    let gone = record b { proc = exited rc } in
    let text = crash.message b.stderr_tail rc in
    if b.closing
    then (gone, [])
    else (if b.turn_active || not (is_zero rc)
        then (let (last, out) = crash_turn text gone in
            idle (last, error_frame "codex" b.session_id (code_text backend_crashed) text ∷ out))
        else idle (gone, []))

unfoldable pub framing_notice : Fields
framing_notice = field "type" (str "agent.notice") (
    field "level" (str "warn") (
      field "category" (str "codex_unsupported_framing") (
        field "text" (str "codex switched to LSP framing; daemon needs upgrade")
          (field "backend" (str "codex") end))))

unfoldable pub read_parsed : Texts → Option Value → CodexBackend → Read
unfolding dispatch_rpc
read_parsed texts (some (obj message)) b = dispatch_rpc texts message b
read_parsed texts _ b = (b, [])

-- _read_stdout, of a line that is not empty, and whether the loop goes on; `parse` is `json.loads`, or
-- `none` of a text that is no JSON.
unfoldable pub read_stdout : Texts → (String → Option Value) → String → CodexBackend → Read × Bool
unfolding starts_with framing_notice read_parsed
read_stdout texts parse text b =
    if starts_with "Content-Length:" text
    then ((b, framing_notice ∷ []), false)
    else (read_parsed texts (parse text) b, true)
