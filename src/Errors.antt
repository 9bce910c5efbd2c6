-- ===== src/Errors.antt =====
-- blemees_agent/errors.py: the error codes and the exceptions that carry them.
use blemees_daemon.Prelude.{ℕ, Bool, true, false, String, List}

pub data Code : Type 0 where
  protocol_mismatch invalid_message unknown_message unknown_backend unsafe_flag : Code
  session_unknown session_exists session_busy spawn_failed backend_crashed : Code
  auth_failed oversize_message slow_consumer daemon_shutdown internal : Code

-- FATAL_CODES
unfoldable pub is_fatal : Code → Bool
is_fatal protocol_mismatch = true
is_fatal oversize_message = true
is_fatal slow_consumer = true
is_fatal daemon_shutdown = true
is_fatal _ = false

-- The classes of errors.py. An exception keeps what its message quotes, apart from the wording:
-- a `ProtocolError` the fixed part of its text.
pub data BlemeesError : Type 0 where
  protocol_error : String → BlemeesError
  unexpected_fields : List String → BlemeesError
  unsafe_flag_error : String → BlemeesError
  unknown_backend_error : String → BlemeesError
  session_unknown_error : String → BlemeesError
  session_exists_error : String → BlemeesError
  session_busy_error : String → BlemeesError
  spawn_failed_error : BlemeesError
  oversize_message_error : ℕ → BlemeesError

-- BlemeesError.code
unfoldable pub code_of : BlemeesError → Code
code_of (protocol_error _) = invalid_message
code_of (unexpected_fields _) = invalid_message
code_of (unsafe_flag_error _) = unsafe_flag
code_of (unknown_backend_error _) = unknown_backend
code_of (session_unknown_error _) = session_unknown
code_of (session_exists_error _) = session_exists
code_of (session_busy_error _) = session_busy
code_of spawn_failed_error = spawn_failed
code_of (oversize_message_error _) = oversize_message

pub data Result {ℓ} (A : Type ℓ) : Type ℓ where
  ok : A → Result A
  err : BlemeesError → Result A

infixl 5 ◌>>=◌ ◌>>◌
abbrev pub ◌>>=◌ {ℓ κ} : {A : Type ℓ} {B : Type κ} → Result A → (A → Result B) → Result B
ok a >>= f = f a
err e >>= f = err e

abbrev pub ◌>>◌ {ℓ κ} : {A : Type ℓ} {B : Type κ} → Result A → Result B → Result B
m >> k = m >>= λ _. k

-- if bad: raise e
abbrev pub refuse_if : Bool → BlemeesError → Result (Unit {0})
refuse_if true e = err e
refuse_if false e = ok tt

-- The text of a code in a frame.
unfoldable pub code_text : Code → String
code_text protocol_mismatch = "protocol_mismatch"
code_text invalid_message = "invalid_message"
code_text unknown_message = "unknown_message"
code_text unknown_backend = "unknown_backend"
code_text unsafe_flag = "unsafe_flag"
code_text session_unknown = "session_unknown"
code_text session_exists = "session_exists"
code_text session_busy = "session_busy"
code_text spawn_failed = "spawn_failed"
code_text backend_crashed = "backend_crashed"
code_text auth_failed = "auth_failed"
code_text oversize_message = "oversize_message"
code_text slow_consumer = "slow_consumer"
code_text daemon_shutdown = "daemon_shutdown"
code_text internal = "internal"
