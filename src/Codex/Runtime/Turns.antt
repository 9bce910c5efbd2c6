-- ===== src/Codex/Runtime/Turns.antt =====
-- blemees_agent/backends/codex.py, CodexBackend: over any steps, the turns that were begun and the results
-- that were emitted.
use blemees_daemon.Prelude.{
  ℕ, ◌+◌, Bool, true, false, Option, none, some, List, [], ◌∷◌, String, if◌then◌else◌, ◌≡◌, refl,
  arith,
}
use blemees_daemon.Json.{Fields, get, get_str}
use blemees_daemon.Errors.{BlemeesError}
use blemees_daemon.Frames.{Texts}
use blemees_daemon.Frames.Types.{turn_ends, turn_ends-append, no_frames}
use blemees_daemon.Backend.{Crash}
use blemees_daemon.Codex.Options.{flatten_content_to_text}
use blemees_daemon.Codex.Runtime.{
  CodexBackend, new_backend, running, send_user_turn, prompt_turn, begin_turn, write_request,
  allocate_id, write_line, interrupt, cancel_turn, send_notification, close,
}
use blemees_daemon.Codex.Runtime.Handshake.{
  Handshake, refused, raised, begin_spawn, begin_call, on_initialize, on_tools, go_on, ready,
  give_up, finish_call, check_initialize, verify_tools,
}
use blemees_daemon.Codex.Runtime.Rpc.{dispatch_rpc}
use blemees_daemon.Codex.Runtime.Steps.{
  Action, launch, greeted, listed, user, cancel, leave, message, stderr, exit, step, run, count_ok,
  accepted, turns, active,
}
use blemees_daemon.Codex.Runtime.Balance.{Exact, Linked, Calm}
use blemees_daemon.Codex.Runtime.Ledger.{Exact-stay, Exact-method, Exact-stderr, Exact-exit}

Exact-prompt :
    (drained : Bool) (o : Option String) (b : CodexBackend)
    → Linked b
    → b.turn_active ≡ false
    → Exact (count_ok (prompt_turn drained o b).1) b ((prompt_turn drained o b).0, [])
unfolding prompt_turn begin_turn write_request write_line allocate_id count_ok active turn_ends
Exact-prompt drained none b l h = record { linked = l; equal = refl }
Exact-prompt true (some prompt) b l h = record { linked = refl; equal = ground (arith, h) }
Exact-prompt false (some prompt) b l h = record { linked = refl; equal = ground (arith, h) }

Sent-if :
    (b : CodexBackend) (c : Bool) (r s : CodexBackend × Option BlemeesError)
    → (c ≡ true → Exact (count_ok r.1) b (r.0, []))
    → (c ≡ false → Exact (count_ok s.1) b (s.0, []))
    → Exact (count_ok (if c then r else s).1) b ((if c then r else s).0, [])
Sent-if b true r s h k = h refl
Sent-if b false r s h k = k refl

Exact-send :
    (drained : Bool) (text : Fields) (b : CodexBackend)
    → Linked b
    → Exact (count_ok (send_user_turn drained text b).1) b ((send_user_turn drained text b).0, [])
unfolding send_user_turn count_ok active turn_ends
Exact-send drained text b l =
    Sent-if b (running b) _ _
      (λ _.
        Sent-if b b.turn_active _ _ (λ _. record { linked = l; equal = refl })
          (λ e. Exact-prompt drained (flatten_content_to_text (get "content" text)) b l e))
      (λ _. record { linked = l; equal = refl })

Calm-cancel : (o : Option ℕ) (b : CodexBackend) → Calm b (cancel_turn o b).0
unfolding cancel_turn send_notification write_line
Calm-cancel none b = record { turn = refl; request = refl }
Calm-cancel (some id) b = record { turn = refl; request = refl }

Calm-interrupt : (b : CodexBackend) → Calm b (interrupt b).0
unfolding interrupt
Calm-interrupt b =
    let c = Calm-cancel b.active_turn_id b in
    record { turn = ground (arith, c.turn); request = ground (arith, c.request) }

Calm-spawn : (launched : Bool) (b : CodexBackend) → Calm b (begin_spawn launched b).0
unfolding begin_spawn begin_call write_request write_line allocate_id
Calm-spawn launched b = record { turn = ground (arith); request = ground (arith) }

Calm-go_on : (h : Handshake) (b : CodexBackend) → Calm b (go_on h b)
unfolding go_on give_up begin_call write_request send_notification write_line allocate_id
Calm-go_on Handshake.accepted b = record { turn = refl; request = refl }
Calm-go_on (refused e) b = record { turn = refl; request = refl }
Calm-go_on raised b = record { turn = refl; request = refl }

Calm-ready : (h : Handshake) (b : CodexBackend) → Calm b (ready h b)
unfolding ready give_up
Calm-ready Handshake.accepted b = record { turn = refl; request = refl }
Calm-ready (refused e) b = record { turn = refl; request = refl }
Calm-ready raised b = record { turn = refl; request = refl }

Calm-greeted : (id : ℕ) (b : CodexBackend) → Calm b (on_initialize id b).0
unfolding on_initialize finish_call
Calm-greeted id b =
    let c = Calm-go_on (check_initialize (finish_call id b).1) (finish_call id b).0 in
    record { turn = c.turn; request = c.request }

Calm-listed : (id : ℕ) (b : CodexBackend) → Calm b (on_tools id b).0
unfolding on_tools finish_call
Calm-listed id b =
    let c = Calm-ready (verify_tools (finish_call id b).1) (finish_call id b).0 in
    record { turn = c.turn; request = c.request }

module _ (x : Texts) (crash : Crash) where
  step-Exact :
      (a : Action) (b : CodexBackend) → Linked b → Exact (accepted a b) b (step x crash a b)
  unfolding step accepted close dispatch_rpc
  step-Exact (launch launched) b l = Exact-stay b _ l (Calm-spawn launched b)
  step-Exact (greeted id) b l = Exact-stay b _ l (Calm-greeted id b)
  step-Exact (listed id) b l = Exact-stay b _ l (Calm-listed id b)
  step-Exact (user drained text) b l = Exact-send drained text b l
  step-Exact cancel b l = Exact-stay b _ l (Calm-interrupt b)
  step-Exact leave b l = Exact-stay b _ l (record { turn = refl; request = refl })
  step-Exact (message object) b l = Exact-method x (get_str "method" object) object b l
  step-Exact (stderr now line) b l = Exact-stderr x now line b l
  step-Exact (exit rc) b l = Exact-exit crash rc x b l

  run-Exact :
      (later : List Action) (b : CodexBackend)
      → Linked b
      → Exact (turns x crash later b) b (run x crash later b)
  unfolding run turns
  run-Exact [] b l = record { linked = l; equal = ground (arith, no_frames) }
  run-Exact (a ∷ later) b l =
      let (next, out) = step x crash a b in
      let first = step-Exact a b l in
      let rest = run-Exact later next first.linked in
      record {
        linked = rest.linked;
        equal =
            omega (arith, first.equal, rest.equal, turn_ends-append out (run x crash later next).1);
      }

-- Whatever a Codex child sends, and in whatever order it is spoken to, cancelled and ended: the turns that
-- were accepted by a new backend are exactly those that have had a result, and the one that still runs.
pub results-eq-turns :
    (x : Texts) (crash : Crash) (later : List Action) (sid : String) (options : Fields) (raw : Bool)
    (lines window : ℕ) (thread : Option String)
    → turns x crash later (new_backend sid options raw lines window thread)
      ≡ turn_ends (run x crash later (new_backend sid options raw lines window thread)).1
        + active (run x crash later (new_backend sid options raw lines window thread)).0
unfolding active new_backend
results-eq-turns x crash later sid options raw lines window thread =
    let e = run-Exact x crash later (new_backend sid options raw lines window thread) refl in
    ground (arith, e.equal)
