-- ===== src/Codex/Runtime/Late.antt =====
-- blemees_agent/backends/codex.py, CodexBackend._handle_notification: while a turn runs, the child goes on
-- sending events of a call that was cancelled before it.
use mathlib.Core.List.{append-nil}
use blemees_daemon.Prelude.{
  ℕ, Bool, true, false, Option, none, some, List, [], ◌∷◌, ◌++◌, map, String, str_eq, ◌||◌,
  if◌then◌else◌, ◌≡◌, ◌≢◌, refl, sym, not, ◌&&◌, is_some, ap, ◌∙◌, All, arith, ==_iff, ◌==◌,
  Bool-cases, inl, inr,
}
use blemees_daemon.Prelude.Int.{ℤ, pos, negsuc}
use blemees_daemon.Json.{
  Value, Fields, obj, end, field, get, get_str, get_obj, get_int, and_then, as_int,
}
use blemees_daemon.Protocol.{truthy}
use blemees_daemon.Frames.{Texts, or_empty, as_dict}
use blemees_daemon.Backend.{Crash}
use blemees_daemon.Codex.Results.{finalize_interrupted, finalize_success}
use blemees_daemon.Codex.Options.{looks_like_auth_failure}
use blemees_daemon.Codex.Runtime.{CodexBackend}
use blemees_daemon.Codex.Runtime.Rpc.{
  Read, adopt_thread, thread_of_meta, request_of_meta, is_id, is_active_id, differs, is_stale,
  handle_event, handle_params, handle_notification, handle_response, handle_turn_response,
  dispatch_method, dispatch_rpc, end_turn, fail_turn, maybe_emit_auth_error, report_auth,
}
use blemees_daemon.Codex.Runtime.Steps.{Action, message, step, run}

-- A notification of an event, tagged with the request of another call than `id`.
pub record IsLate (id : ℕ) (object : Fields) : Type 0 where
  pub method : String
  pub params : Fields
  pub msg : Fields
  pub meta : Fields
  pub request : ℤ
  pub named : get_str "method" object ≡ some method
  pub event : (str_eq method "codex/event" || str_eq method "notifications/codex/event") ≡ true
  pub no_id : get "id" object ≡ none
  pub has_params : get "params" object ≡ some (obj params)
  pub has_msg : get_obj "msg" params ≡ some msg
  pub has_meta : get_obj "_meta" params ≡ some meta
  pub tagged : get_int "requestId" meta ≡ some request
  pub other : request ≢ pos id

-- The thread that is named in an object's metadata.
abbrev pub named_thread : Fields → Option String
named_thread object =
    and_then (get_obj "params" object)
      (λ params. and_then (get_obj "_meta" params) (λ meta. get_str "threadId" meta))

-- The thread that is known after these objects: the first of all.
abbrev pub first_thread : Option String → List Fields → Option String
first_thread (some t) objects = some t
first_thread none [] = none
first_thread none (o ∷ objects) = first_thread (named_thread o) objects

first_thread_nil : (o : Option String) → first_thread o [] ≡ o
first_thread_nil none = refl
first_thread_nil (some t) = refl

first_thread_cons :
    (o : Option String) (object : Fields) (objects : List Fields)
    → first_thread (elim o [ none ↦ named_thread object | some t ↦ some t ]) objects
      ≡ first_thread o (object ∷ objects)
first_thread_cons none object objects = refl
first_thread_cons (some t) object objects = refl

is_id_other : (request : ℤ) (id : ℕ) → request ≢ pos id → is_id request id ≡ false
unfolding is_id
is_id_other (pos n) id h = elim (Bool-cases (n == id)) [
  | inl e ↦ absurd (h (ap pos ((==_iff n id).0 e)))
  | inr e ↦ e
]
is_id_other (negsuc n) id h = refl

is_stale_other :
    (o : Option ℤ) (p : Option ℕ) (request : ℤ) (id : ℕ)
    → o ≡ some request
    → p ≡ some id
    → request ≢ pos id
    → differs o p ≡ true
unfolding differs
is_stale_other o p request id e h k = rw (e, h, is_id_other request id k) refl

or_empty-obj : (d : Fields) → or_empty (some (obj d)) ≡ obj d
unfolding or_empty truthy
or_empty-obj end = refl
or_empty-obj (field k v d) = refl

abbrev with_thread : Option String → CodexBackend → CodexBackend
with_thread o b = record b { thread_id = o }

adopt_thread_lem :
    (o : Option String) (b : CodexBackend)
    → adopt_thread o b ≡ with_thread (elim b.thread_id [ none ↦ o | some t ↦ some t ]) b
unfolding adopt_thread
adopt_thread_lem none b = ground arith
adopt_thread_lem (some t) b = ground arith

same_frames :
    (c f : Bool) (p p' q q' r r' : Read)
    → p.1 ≡ p'.1
    → q.1 ≡ q'.1
    → r.1 ≡ r'.1
    → (if c then p else (if f then q else r)).1 ≡ (if c then p' else (if f then q' else r')).1
same_frames true f p p' q q' r r' u v w = u
same_frames false true p p' q q' r r' u v w = v
same_frames false false p p' q q' r r' u v w = w

module _ (texts : Texts) (crash : Crash) (id : ℕ) where
  handle_event-late :
      (params msg meta : Fields) (request : ℤ) (b : CodexBackend)
      → get_int "requestId" meta ≡ some request
      → b.active_turn_id ≡ some id
      → request ≢ pos id
      → handle_event texts (some msg) (some meta) b ≡ (adopt_thread (get_str "threadId" meta) b, [])
  unfolding handle_event is_stale thread_of_meta request_of_meta
  handle_event-late params msg meta request b e h k =
      let same : (adopt_thread (get_str "threadId" meta) b).active_turn_id ≡ some id =
        ap (λ c. c.active_turn_id) (adopt_thread_lem (get_str "threadId" meta) b) ∙ h in
      rw
        (is_stale_other (get_int "requestId" meta)
          (adopt_thread (get_str "threadId" meta) b).active_turn_id request id e same k)
        refl

  named_thread_late :
      (object : Fields) → (l : IsLate id object) → get_str "threadId" l.meta ≡ named_thread object
  named_thread_late object l = rw (l.has_params, l.has_meta) refl

  dispatch_rpc-late :
      (object : Fields) (b : CodexBackend)
      → b.active_turn_id ≡ some id
      → IsLate id object
      → dispatch_rpc texts object b
        ≡ (with_thread (elim b.thread_id [ none ↦ named_thread object | some t ↦ some t ]) b, [])
  unfolding dispatch_rpc dispatch_method handle_notification handle_params as_dict
  dispatch_rpc-late object b h l =
      rw (l.named, l.no_id, l.has_params, or_empty-obj l.params, l.event, l.has_msg, l.has_meta)
        (handle_event-late l.params l.msg l.meta l.request b l.tagged h l.other
          ∙ ap (λ c. (c, []))
              (adopt_thread_lem (get_str "threadId" l.meta) b
                ∙ ap (λ o. with_thread (elim b.thread_id [ none ↦ o | some t ↦ some t ]) b)
                    (named_thread_late object l)))

  then_run :
      (o : Fields) (later : List Action) (b c : CodexBackend)
      → dispatch_rpc texts o b ≡ (c, [])
      → run texts crash (message o ∷ later) b ≡ run texts crash later c
  unfolding run step
  then_run o later b c e = rw e refl

  skip_late :
      (objects : List Fields) (later : List Action) (b : CodexBackend)
      → b.active_turn_id ≡ some id
      → All (IsLate id) objects
      → run texts crash (map message objects ++ later) b
        ≡ run texts crash later (with_thread (first_thread b.thread_id objects) b)
  skip_late [] later b h l =
      ap (λ o. run texts crash later (with_thread o b)) (sym (first_thread_nil b.thread_id))
  skip_late (o ∷ objects) later b h l =
      let next = with_thread (elim b.thread_id [ none ↦ named_thread o | some t ↦ some t ]) b in
      then_run o (map message objects ++ later) b next (dispatch_rpc-late o b h l.0)
      ∙ skip_late objects later next h l.1
      ∙ ap (λ t. run texts crash later (with_thread t b)) (first_thread_cons b.thread_id o objects)

  auth-thread :
      (e : Value) (o : Option String) (b : CodexBackend)
      → maybe_emit_auth_error texts e (with_thread o b)
        ≡ (with_thread o (maybe_emit_auth_error texts e b).0, (maybe_emit_auth_error texts e b).1)
  unfolding maybe_emit_auth_error report_auth
  auth-thread e o b = elim (Bool-cases (not b.auth_emitted && looks_like_auth_failure texts e)) [
    | inl g ↦ rw g refl
    | inr g ↦ rw g refl
  ]

  fail_turn-thread :
      (e : Value) (o : Option String) (b : CodexBackend)
      → (fail_turn texts e (with_thread o b)).1 ≡ (fail_turn texts e b).1
  unfolding fail_turn end_turn
  fail_turn-thread e o b = rw (auth-thread e o b) refl

  response-thread :
      (reply : Fields) (o : Option String) (b : CodexBackend)
      → (handle_turn_response texts reply (with_thread o b)).1
        ≡ (handle_turn_response texts reply b).1
  unfolding handle_turn_response end_turn
  response-thread reply o b =
      let e = or_empty (get "error" reply) in
      same_frames b.cancel_active (is_some (get "error" reply))
        (end_turn (finalize_interrupted b.translator) (with_thread o b))
        (end_turn (finalize_interrupted b.translator) b) (fail_turn texts e (with_thread o b))
        (fail_turn texts e b) (end_turn (finalize_success b.translator) (with_thread o b))
        (end_turn (finalize_success b.translator) b) refl (fail_turn-thread e o b) refl

  is_id_self : (n : ℕ) → is_id (pos n) n ≡ true
  unfolding is_id
  is_id_self n = (==_iff n n).1 refl

  reply_lem :
      (reply : Fields) (b : CodexBackend)
      → b.active_turn_id ≡ some id
      → get_str "method" reply ≡ none
      → and_then (get "id" reply) as_int ≡ some (pos id)
      → dispatch_rpc texts reply b ≡ handle_turn_response texts reply b
  unfolding dispatch_rpc dispatch_method handle_response is_active_id
  reply_lem reply b h m i = rw (m, i, h, is_id_self id) refl

  run_one :
      (object : Fields) (b : CodexBackend)
      → (run texts crash (message object ∷ []) b).1 ≡ (dispatch_rpc texts object b).1
  unfolding run step
  run_one object b = append-nil (dispatch_rpc texts object b).1

  -- While a turn runs, any number of events of other calls do nothing but name the thread, where none is known:
  -- they emit nothing, and whatever follows goes as if they had not come. So the response to the turn
  -- gives the very frames that it gives without them. Conditions: a turn with an id runs, each event is a
  -- notification with a message and metadata whose request is another number, and the response has that
  -- id and no method.
  pub run-IsLate :
      (objects : List Fields) (later : List Action) (reply : Fields) (b : CodexBackend)
      → b.active_turn_id ≡ some id
      → All (IsLate id) objects
      → get_str "method" reply ≡ none
      → and_then (get "id" reply) as_int ≡ some (pos id)
      → (run texts crash (map message objects ++ later) b
          ≡ run texts crash later (with_thread (first_thread b.thread_id objects) b))
        × ((run texts crash (map message objects ++ message reply ∷ []) b).1
            ≡ (handle_turn_response texts reply b).1)
  run-IsLate objects later reply b h l m i =
      let known = with_thread (first_thread b.thread_id objects) b in
      (
        skip_late objects later b h l,
        ap (λ r. r.1) (skip_late objects (message reply ∷ []) b h l)
            ∙ run_one reply known
            ∙ ap (λ r. r.1) (reply_lem reply known h m i)
            ∙ response-thread reply (first_thread b.thread_id objects) b,
      )
