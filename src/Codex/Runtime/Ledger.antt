-- ===== src/Codex/Runtime/Ledger.antt =====
-- blemees_agent/backends/codex.py, CodexBackend: a result is emitted exactly where a turn ends, for each
-- message of the child, line of stderr and exit.
use blemees_daemon.Prelude.{
  ℕ, Bool, true, false, not, ◌&&◌, ◌||◌, Option, none, some, [], ◌∷◌, ◌++◌, String, is_some, str_eq,
  take_right, ◌≡◌, refl, sym, ◌∙◌, arith,
}
use blemees_daemon.Prelude.Int.{ℤ}
use blemees_daemon.Json.{Value, Fields, get, get_obj, and_then, as_int}
use blemees_daemon.Errors.{code_text, auth_failed, backend_crashed}
use blemees_daemon.Frames.{Texts, is_text, ends_turn, as_dict, or_empty, notice}
use blemees_daemon.Frames.Types.{turn_ends, turn_ends-append, type-notice}
use blemees_daemon.Backend.{Crash, error_frame, stderr_frame, error_fields, is_zero}
use blemees_daemon.Claude.Limiter.{allow}
use blemees_daemon.Codex.Results.{finalize, finalize_success, finalize_error, finalize_interrupted}
use blemees_daemon.Codex.Translate.{translate_event}
use blemees_daemon.Codex.Translate.TurnEnd.{ends-translate_event}
use blemees_daemon.Codex.Options.{looks_like_auth_failure, has_auth_pattern}
use blemees_daemon.Codex.Runtime.{CodexBackend}
use blemees_daemon.Codex.Runtime.Rpc.{
  adopt_thread, thread_of_meta, is_stale, end_turn, translate_message, handle_event, handle_params,
  handle_notification, report_auth, auth_message, maybe_emit_auth_error, fail_turn,
  handle_turn_response, is_active_id, handle_response, dispatch_method,
}
use blemees_daemon.Codex.Runtime.Readers.{
  pass_line, limit_line, read_stderr, crash_turn, idle, watch_exit,
}
use blemees_daemon.Codex.Runtime.Steps.{active}
use blemees_daemon.Codex.Runtime.Balance.{
  Exact, Linked, Calm, Exact-if, type-emitted, type-finalize, adopt_thread-Calm, Exact-end,
  Exact-emit_event,
}
use Prim.Native.String.{◌++◌ as text_append}

pub Exact-stay : (b c : CodexBackend) → Linked b → Calm b c → Exact 0 b (c, [])
unfolding active turn_ends
Exact-stay b c l h = record {
  linked = ground (arith, h.turn, h.request, l);
  equal = ground (arith, h.turn);
}

Exact-event :
    (x : Texts) (o meta : Option Fields) (b : CodexBackend)
    → Linked b
    → Exact 0 b (handle_event x o meta b)
unfolding handle_event translate_message active
Exact-event x none meta b l = Exact-stay b b l (record { turn = refl; request = refl })
Exact-event x (some msg) meta b l =
    let c = adopt_thread-Calm (thread_of_meta meta) b in
    let known = adopt_thread (thread_of_meta meta) b in
    Exact-if 0 b (is_stale meta known) _ _ (λ _. Exact-stay b known l c)
      (λ _.
        let e =
          Exact-emit_event x (is_text "turn_aborted" (get "type" msg))
            (translate_event x known.translator msg meta) known
            (ends-translate_event x known.translator known.translator msg meta "success" none).0
            (ground (arith, l, c.turn, c.request)) in
        record { linked = e.linked; equal = ground (arith, e.equal, c.turn) })

Exact-params :
    (x : Texts) (o : Option Fields) (b : CodexBackend) → Linked b → Exact 0 b (handle_params x o b)
unfolding handle_params
Exact-params x none b l = Exact-stay b b l (record { turn = refl; request = refl })
Exact-params x (some d) b l = Exact-event x (get_obj "msg" d) (get_obj "_meta" d) b l

Exact-notification :
    (x : Texts) (method : String) (params : Value) (b : CodexBackend)
    → Linked b
    → Exact 0 b (handle_notification x method params b)
unfolding handle_notification turn_ends active
Exact-notification x method params b l =
    Exact-if 0 b (str_eq method "codex/event" || str_eq method "notifications/codex/event") _ _
      (λ _. Exact-params x (as_dict params) b l)
      (λ _. record {
        linked = l;
        equal = ground (
          arith,
          type-emitted (notice (text_append "codex_notif_" method)),
          type-notice (text_append "codex_notif_" method),
        );
      })

type-error : (sid code text : String) → ends_turn (error_frame "codex" sid code text) ≡ false
unfolding error_frame ends_turn is_text get
type-error sid code text = refl

Exact-report : (failure : Bool) (b : CodexBackend) → Linked b → Exact 0 b (report_auth failure b)
unfolding report_auth active turn_ends
Exact-report failure b l =
    Exact-if 0 b (not b.auth_emitted && failure) _ _
      (λ _. record {
        linked = l;
        equal = ground (arith, type-error b.session_id (code_text auth_failed) auth_message);
      })
      (λ _. record { linked = l; equal = refl })

report_auth-Calm : (failure : Bool) (b : CodexBackend) → Calm b (report_auth failure b).0
unfolding report_auth
report_auth-Calm failure b = record { turn = ground (arith); request = ground (arith) }

Exact-response :
    (x : Texts) (object : Fields) (b : CodexBackend)
    → Linked b
    → b.turn_active ≡ true
    → Exact 0 b (handle_turn_response x object b)
unfolding handle_turn_response fail_turn maybe_emit_auth_error finalize_success finalize_error
    finalize_interrupted
Exact-response x object b l h =
    Exact-if 0 b b.cancel_active _ _
      (λ _.
        Exact-end (finalize_interrupted b.translator) b
          (type-finalize x "interrupted" none b.translator) h)
      (λ _.
        Exact-if 0 b (is_some (get "error" object)) _ _
          (λ _.
            let e = or_empty (get "error" object) in
            let failure = looks_like_auth_failure x e in
            let (told, errors) = report_auth failure b in
            let first = Exact-report failure b l in
            let calm = report_auth-Calm failure b in
            let final = finalize_error (as_dict e) told.translator in
            let rest =
              Exact-end final told (type-finalize x "error" (as_dict e) told.translator)
                (calm.turn ∙ h) in
            record {
              linked = rest.linked;
              equal =
                  ground (
                    arith,
                    first.equal,
                    rest.equal,
                    turn_ends-append errors (end_turn final told).1,
                  );
            })
          (λ _.
            Exact-end (finalize_success b.translator) b
              (type-finalize x "success" none b.translator) h))

is_active_id-some : (n : ℤ) (o : Option ℕ) → is_active_id n o ≡ true → is_some o ≡ true
unfolding is_active_id
is_active_id-some n none e = e
is_active_id-some n (some id) e = refl

Exact-handle :
    (x : Texts) (o : Option ℤ) (object : Fields) (b : CodexBackend)
    → Linked b
    → Exact 0 b (handle_response x o object b)
unfolding handle_response
Exact-handle x none object b l = Exact-stay b b l (record { turn = refl; request = refl })
Exact-handle x (some n) object b l =
    Exact-if 0 b (is_active_id n b.active_turn_id) _ _
      (λ e. Exact-response x object b l (sym l ∙ is_active_id-some n b.active_turn_id e))
      (λ _. Exact-stay b _ l (record { turn = refl; request = refl }))

pub Exact-method :
    (x : Texts) (o : Option String) (object : Fields) (b : CodexBackend)
    → Linked b
    → Exact 0 b (dispatch_method x o object b)
unfolding dispatch_method
Exact-method x none object b l = Exact-handle x (and_then (get "id" object) as_int) object b l
Exact-method x (some method) object b l =
    Exact-if 0 b (is_some (get "id" object)) _ _
      (λ _. Exact-handle x (and_then (get "id" object) as_int) object b l)
      (λ _. Exact-notification x method (or_empty (get "params" object)) b l)

type-stderr : (sid line : String) → ends_turn (stderr_frame sid line) ≡ false
unfolding stderr_frame ends_turn is_text get
type-stderr sid line = refl

Exact-pass :
    (line : String) (ok : Bool) (b : CodexBackend) → Linked b → Exact 0 b (pass_line line (b, ok))
unfolding pass_line turn_ends active
Exact-pass line true b l = record {
  linked = l;
  equal = ground (arith, type-stderr b.session_id line);
}
Exact-pass line false b l = record { linked = l; equal = refl }

pub Exact-stderr :
    (x : Texts) (now : ℕ) (line : String) (b : CodexBackend)
    → Linked b
    → Exact 0 b (read_stderr x now line b)
unfolding read_stderr limit_line active
Exact-stderr x now line b l =
    let kept = record b { stderr_tail = take_right 20 (b.stderr_tail ++ line ∷ []) } in
    Exact-if 0 b (not b.auth_emitted && has_auth_pattern x line) _ _
      (λ _. let r = Exact-report true kept l in record { linked = r.linked; equal = r.equal })
      (λ _.
        let r =
          Exact-pass line (allow now b.stderr_limit).1
            (record kept { stderr_limit = (allow now b.stderr_limit).0 }) l in
        record { linked = r.linked; equal = r.equal })

pub Exact-exit :
    (crash : Crash) (rc : ℤ) (x : Texts) (b : CodexBackend)
    → Linked b
    → Exact 0 b (watch_exit crash rc b)
unfolding watch_exit crash_turn idle finalize_error active turn_ends
Exact-exit crash rc x b l =
    let text = crash.message b.stderr_tail rc in
    let cause = some (error_fields (code_text backend_crashed) text) in
    let e =
      type-emitted (finalize "error" cause b.translator).1
      ∙ type-finalize x "error" cause b.translator in
    Exact-if 0 b b.closing _ _ (λ _. record { linked = l; equal = refl })
      (λ _.
        Exact-if 0 b (b.turn_active || not (is_zero rc)) _ _
          (λ _. record {
            linked = ground (arith, l);
            equal = ground (arith, e, type-error b.session_id (code_text backend_crashed) text);
          })
          (λ h. record { linked = ground (arith, l, h); equal = ground (arith, h) }))
