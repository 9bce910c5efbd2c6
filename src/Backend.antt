-- ===== src/Backend.antt =====
-- blemees_agent/backends/__init__.py, and what the two backends share: the child's process, the frames
-- of its errors and its stderr, and its environment.
use blemees_daemon.Prelude.{Bool, true, false, Option, none, some, List, ◌∷◌, String, ◌==◌}
use blemees_daemon.Prelude.Int.{ℤ, pos, negsuc}
use blemees_daemon.Json.{Fields, str, end, field}

-- `proc`: never launched, running, or ended with a return code.
pub data Child : Type 0 where
  absent : Child
  live : Child
  exited : ℤ → Child

-- running
unfoldable pub is_live : Child → Bool
is_live absent = false
is_live live = true
is_live (exited rc) = false

-- f"stderr tail: {tail}"[:2048], by the lines of stderr and the return code
pub record Crash : Type 0 where
  pub message : List String → ℤ → String

unfoldable pub is_zero : ℤ → Bool
is_zero (pos n) = n == 0
is_zero (negsuc n) = false

unfoldable pub error_frame : String → String → String → String → Fields
error_frame backend session_id code message = field "type" (str "agent.error") (
    field "session_id" (str session_id)
      (field "backend" (str backend) (field "code" (str code) (field "message" (str message) end))))

unfoldable pub error_fields : String → String → Fields
error_fields code message = field "code" (str code) (field "message" (str message) end)

unfoldable pub stderr_frame : String → String → Fields
stderr_frame session_id line =
    field "type" (str "agent.stderr")
      (field "session_id" (str session_id) (field "line" (str line) end))

-- An environment, the last binding of a name first.
abbrev pub Env : Type 0
Env = List (String × String)

-- if value: env[name] = value
unfoldable pub overlay : String → Option String → Env → Env
overlay name none env = env
overlay name (some String.[]) env = env
overlay name (some (String.◌∷◌ c s)) env = (name, String.◌∷◌ c s) ∷ env

-- build_spawn_env, over the daemon's own environment
unfoldable pub build_spawn_env : Env → String → Option String → Option String → Env
unfolding overlay
build_spawn_env environ session_id cwd alias =
    overlay "BLEMEES_AGENT_ALIAS" alias
      (overlay "BLEMEES_AGENT_HOME" cwd (("BLEMEES_AGENT_SID", session_id) ∷ environ))
