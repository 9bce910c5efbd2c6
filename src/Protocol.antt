-- ===== src/Protocol.antt =====
-- blemees_agent/protocol.py: the messages of the wire, and the validation of each inbound frame.
pub mod Opens
use blemees_daemon.Prelude.{
  ℕ, ◌==◌, ◌||◌, Bool, true, false, not, Option, none, some, List, [], ◌∷◌, String, str_eq, any,
  select, if◌then◌else◌,
}
use blemees_daemon.Prelude.Int.{ℤ, pos, negsuc}
use blemees_daemon.Json.{
  Value, Fields, null, bool, int, float, str, arr, obj, nil, cons, end, field, get, keys, as_int,
}
use blemees_daemon.Errors.{
  Result, ok, err, ◌>>=◌, ◌>>◌, refuse_if, protocol_error, unexpected_fields, unknown_backend_error,
}

pub record HelloMessage : Type 0 where
  pub client : Option String
  pub protocol : String

pub record OpenMessage : Type 0 where
  pub id : Option String
  pub session_id : String
  pub backend : String
  pub options : Fields
  pub resume : Bool
  pub last_seen_seq : Option ℕ
  pub alias : Option String

pub record UserMessage : Type 0 where
  pub session_id : String
  pub message : Fields

pub record InterruptMessage : Type 0 where
  pub session_id : String

pub record CloseMessage : Type 0 where
  pub id : Option String
  pub session_id : String
  pub delete : Bool

pub record ListSessionsMessage : Type 0 where
  pub id : Option String
  pub cwd : Option String
  pub live : Option Bool

pub record WatchMessage : Type 0 where
  pub id : Option String
  pub session_id : String
  pub last_seen_seq : Option ℕ

pub record UnwatchMessage : Type 0 where
  pub id : Option String
  pub session_id : String

pub record SessionInfoMessage : Type 0 where
  pub id : Option String
  pub session_id : String

-- `ping_data` is `none` where the key was absent (_MISSING).
pub record PingMessage : Type 0 where
  pub id : Option String
  pub ping_data : Option Value

pub record StatusMessage : Type 0 where
  pub id : Option String

-- KNOWN_BACKENDS of backends/__init__.py
unfoldable pub is_known_backend : String → Bool
is_known_backend b = str_eq b "claude" || str_eq b "codex"

unfoldable pub contains : List String → String → Bool
contains xs k = any (λ x. str_eq x k) xs

-- _reject_extra_keys
unfoldable pub reject_extra_keys : Fields → List String → Result (Unit {0})
unfolding contains select
reject_extra_keys d allowed = elim (select (λ k. not (contains allowed k)) (keys d)) [
  | [] ↦ ok tt
  | k ∷ ks ↦ err (unexpected_fields (k ∷ ks))
]

-- Python's truth of a value; a float is zero when it prints so.
unfoldable pub truthy : Value → Bool
truthy null = false
truthy (bool b) = b
truthy (int (pos n)) = not (n == 0)
truthy (int (negsuc n)) = true
truthy (float t) = not (str_eq t "0.0" || str_eq t "-0.0")
truthy (str s) = not (str_eq s "")
truthy (arr nil) = false
truthy (arr (cons v vs)) = true
truthy (obj end) = false
truthy (obj (field k v d)) = true

truthy_or_absent : Option Value → Bool
unfolding truthy
truthy_or_absent none = false
truthy_or_absent (some v) = truthy v

-- if not isinstance(v, str) or not v: raise
non_empty_str : String → Option Value → Result String
non_empty_str msg (some (str s)) = if str_eq s "" then err (protocol_error msg) else ok s
non_empty_str msg _ = err (protocol_error msg)

-- if v is not None and not isinstance(v, str): raise
optional_str : String → Option Value → Result (Option String)
optional_str msg none = ok none
optional_str msg (some null) = ok none
optional_str msg (some (str s)) = ok (some s)
optional_str msg (some _) = err (protocol_error msg)

-- A `bool` passes as the integer that it is.
nat_of : String → Option ℤ → Result (Option ℕ)
nat_of msg (some (pos n)) = ok (some n)
nat_of msg _ = err (protocol_error msg)

optional_seq : Option Value → Result (Option ℕ)
unfolding nat_of
optional_seq none = ok none
optional_seq (some null) = ok none
optional_seq (some v) = nat_of "'last_seen_seq' must be a non-negative integer" (as_int v)

req_id : Fields → Result (Option String)
unfolding optional_str
req_id d = optional_str "'id' must be a string" (get "id" d)

unfoldable pub parse_hello : Fields → Result HelloMessage
unfolding reject_extra_keys optional_str
parse_hello d = do
  reject_extra_keys d ("type" ∷ "protocol" ∷ "client" ∷ [])
  protocol ← (elim (get "protocol" d) [
    | some (str p) ↦ ok p
    | _ ↦ err (protocol_error "hello missing 'protocol'")
  ])
  client ← optional_str "'client' must be a string" (get "client" d)
  ok (record { client = client; protocol = protocol })

abbrev pub open_top_level : List String
open_top_level =
    "type" ∷ "id" ∷ "session_id" ∷ "backend" ∷ "resume" ∷ "last_seen_seq" ∷ "options" ∷ "alias" ∷ []

options_object : Option Value → Result Fields
options_object none = err (protocol_error "open requires 'options'")
options_object (some null) = err (protocol_error "open requires 'options'")
options_object (some (obj d)) = ok d
options_object (some _) = err (protocol_error "'options' must be an object")

-- A missing block, or a null one, is an empty one.
unfoldable pub backend_block : Option Value → Result Fields
backend_block none = ok end
backend_block (some null) = ok end
backend_block (some (obj d)) = ok d
backend_block (some _) = err (protocol_error "'options.<backend>' must be an object")

known_blocks : Fields → Result (Unit {0})
unfolding is_known_backend
known_blocks d =
    refuse_if (any (λ k. not (is_known_backend k)) (keys d))
      (protocol_error "unknown options block")

-- alias or None
alias_of : Option String → Option String
alias_of none = none
alias_of (some a) = if str_eq a "" then none else some a

unfoldable pub parse_open : Fields → Result OpenMessage
unfolding reject_extra_keys non_empty_str is_known_backend options_object backend_block known_blocks
    truthy_or_absent req_id optional_seq optional_str alias_of
parse_open d = do
  reject_extra_keys d open_top_level
  session_id ← non_empty_str "open requires non-empty 'session_id'" (get "session_id" d)
  backend ← non_empty_str "open requires non-empty 'backend'" (get "backend" d)
  refuse_if (not (is_known_backend backend)) (unknown_backend_error backend)
  options ← options_object (get "options" d)
  block ← backend_block (get backend options)
  known_blocks options
  id ← req_id d
  last_seen_seq ← optional_seq (get "last_seen_seq" d)
  alias ← optional_str "'alias' must be a string" (get "alias" d)
  ok (record {
    id = id;
    session_id = session_id;
    backend = backend;
    options = block;
    resume = truthy_or_absent (get "resume" d);
    last_seen_seq = last_seen_seq;
    alias = alias_of alias;
  })

user_content : Option Value → Result (Unit {0})
user_content (some (str _)) = ok tt
user_content (some (arr _)) = ok tt
user_content _ = err (protocol_error "message.content must be a string or array")

user_role : Option Value → Result (Unit {0})
user_role (some (str s)) =
    refuse_if (not (str_eq s "user")) (protocol_error "message.role must be 'user'")
user_role _ = err (protocol_error "message.role must be 'user'")

user_object : Option Value → Result Fields
user_object (some (obj m)) = ok m
user_object _ = err (protocol_error "user requires 'message' object")

unfoldable pub parse_user : Fields → Result UserMessage
unfolding reject_extra_keys non_empty_str user_object user_role user_content
parse_user d = do
  reject_extra_keys d ("type" ∷ "session_id" ∷ "message" ∷ [])
  session_id ← non_empty_str "user requires 'session_id'" (get "session_id" d)
  message ← user_object (get "message" d)
  user_role (get "role" message)
  user_content (get "content" message)
  ok (record { session_id = session_id; message = message })

unfoldable pub parse_interrupt : Fields → Result InterruptMessage
unfolding reject_extra_keys non_empty_str
parse_interrupt d = do
  reject_extra_keys d ("type" ∷ "session_id" ∷ [])
  session_id ← non_empty_str "interrupt requires 'session_id'" (get "session_id" d)
  ok (record { session_id = session_id })

unfoldable pub parse_close : Fields → Result CloseMessage
unfolding reject_extra_keys non_empty_str truthy_or_absent req_id
parse_close d = do
  reject_extra_keys d ("type" ∷ "id" ∷ "session_id" ∷ "delete" ∷ [])
  session_id ← non_empty_str "close requires 'session_id'" (get "session_id" d)
  id ← req_id d
  ok (record { id = id; session_id = session_id; delete = truthy_or_absent (get "delete" d) })

cwd_filter : Option Value → Result (Option String)
unfolding non_empty_str
cwd_filter none = ok none
cwd_filter (some null) = ok none
cwd_filter (some v) = do
  cwd ← non_empty_str "'cwd' must be a non-empty string when set" (some v)
  ok (some cwd)

live_filter : Option Value → Result (Option Bool)
live_filter none = ok none
live_filter (some null) = ok none
live_filter (some (bool b)) = ok (some b)
live_filter (some _) = err (protocol_error "'live' must be a boolean")

unfoldable pub parse_list_sessions : Fields → Result ListSessionsMessage
unfolding reject_extra_keys cwd_filter live_filter req_id
parse_list_sessions d = do
  reject_extra_keys d ("type" ∷ "id" ∷ "cwd" ∷ "live" ∷ [])
  cwd ← cwd_filter (get "cwd" d)
  live ← live_filter (get "live" d)
  id ← req_id d
  ok (record { id = id; cwd = cwd; live = live })

unfoldable pub parse_ping : Fields → Result PingMessage
unfolding reject_extra_keys req_id
parse_ping d = do
  reject_extra_keys d ("type" ∷ "id" ∷ "data" ∷ [])
  id ← req_id d
  ok (record { id = id; ping_data = get "data" d })

unfoldable pub parse_status : Fields → Result StatusMessage
unfolding reject_extra_keys req_id
parse_status d = do reject_extra_keys d ("type" ∷ "id" ∷ []); id ← req_id d; ok (record { id = id })

unfoldable pub parse_watch : Fields → Result WatchMessage
unfolding reject_extra_keys non_empty_str req_id optional_seq
parse_watch d = do
  reject_extra_keys d ("type" ∷ "id" ∷ "session_id" ∷ "last_seen_seq" ∷ [])
  session_id ← non_empty_str "watch requires 'session_id'" (get "session_id" d)
  id ← req_id d
  last_seen_seq ← optional_seq (get "last_seen_seq" d)
  ok (record { id = id; session_id = session_id; last_seen_seq = last_seen_seq })

unfoldable pub parse_unwatch : Fields → Result UnwatchMessage
unfolding reject_extra_keys non_empty_str req_id
parse_unwatch d = do
  reject_extra_keys d ("type" ∷ "id" ∷ "session_id" ∷ [])
  session_id ← non_empty_str "unwatch requires 'session_id'" (get "session_id" d)
  id ← req_id d
  ok (record { id = id; session_id = session_id })

unfoldable pub parse_session_info : Fields → Result SessionInfoMessage
unfolding reject_extra_keys non_empty_str req_id
parse_session_info d = do
  reject_extra_keys d ("type" ∷ "id" ∷ "session_id" ∷ [])
  session_id ← non_empty_str "session_info requires 'session_id'" (get "session_id" d)
  id ← req_id d
  ok (record { id = id; session_id = session_id })
