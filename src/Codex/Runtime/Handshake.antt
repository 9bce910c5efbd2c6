-- ===== src/Codex/Runtime/Handshake.antt =====
-- blemees_agent/backends/codex.py, CodexBackend.spawn: the launch of a child and the requests that it must
-- answer before a turn.
use blemees_daemon.Prelude.{
  ℕ, Bool, true, ◌&&◌, Option, none, some, List, [], ◌∷◌, ◌++◌, String, if◌then◌else◌, ◌==◌,
}
use blemees_daemon.Json.{
  Value, Fields, Items, null, bool, int, float, str, arr, obj, nil, cons, end, field, get, is_in,
}
use blemees_daemon.Errors.{BlemeesError, spawn_failed_error}
use blemees_daemon.Protocol.{truthy}
use blemees_daemon.Backend.{live}
use blemees_daemon.Codex.Runtime.{
  CodexBackend, Reply, waiting, failed, answered, allocate_id, write_request, send_notification,
}

-- _call, up to the wait for the reply
unfoldable pub begin_call : String → Option Fields → CodexBackend → CodexBackend
unfolding allocate_id write_request
begin_call method params b =
    write_request b.next_id method params
      (record (allocate_id b) { pending = (b.next_id, waiting) ∷ b.pending })

unfoldable pub drop_pending : ℕ → List (ℕ × Reply) → List (ℕ × Reply)
drop_pending id [] = []
drop_pending id ((i, reply) ∷ rest) =
    let after = drop_pending id rest in if i == id then after else (i, reply) ∷ after

unfoldable pub reply_in : ℕ → List (ℕ × Reply) → Reply
reply_in id [] = waiting
reply_in id ((i, reply) ∷ rest) = let after = reply_in id rest in if i == id then reply else after

-- _call, from the reply; a call that still waits has timed out.
unfoldable pub finish_call : ℕ → CodexBackend → CodexBackend × Reply
unfolding drop_pending reply_in
finish_call id b = (record b { pending = drop_pending id b.pending }, reply_in id b.pending)

-- What a step of the handshake comes to; `raised` is any other exception.
pub data Handshake : Type 0 where
  accepted : Handshake
  refused : BlemeesError → Handshake
  raised : Handshake

-- _do_initialize, from its reply
unfoldable pub check_initialize : Reply → Handshake
check_initialize (answered (obj result)) = accepted
check_initialize _ = refused spawn_failed_error

-- t.get("name"), in a set, of the objects of a list; `none` where the name is a list or an object.
unfoldable pub name_of : Option Value → Option (List String)
name_of (some (str name)) = some (name ∷ [])
name_of (some (arr vs)) = none
name_of (some (obj d)) = none
name_of _ = some []

unfoldable pub joined_names : Option (List String) → Option (List String) → Option (List String)
joined_names (some names) (some rest) = some (names ++ rest)
joined_names (some names) none = none
joined_names none rest = none

unfoldable pub names_of_items : Items → Option (List String)
unfolding name_of joined_names
names_of_items nil = some []
names_of_items (cons (obj tool) vs) = joined_names (name_of (get "name" tool)) (names_of_items vs)
names_of_items (cons v vs) = names_of_items vs

-- The names of the tools; a number or a flag cannot be iterated over, a text or an object has none.
unfoldable pub tool_names : Value → Option (List String)
unfolding names_of_items
tool_names (arr vs) = names_of_items vs
tool_names (int n) = none
tool_names (float x) = none
tool_names (bool b) = none
tool_names null = some []
tool_names (str s) = some []
tool_names (obj d) = some []

-- tools_result.get("tools") or []
unfoldable pub tools_or_empty : Option Value → Value
unfolding truthy
tools_or_empty none = arr nil
tools_or_empty (some v) = if truthy v then v else arr nil

unfoldable pub has_tools : Option (List String) → Handshake
unfolding is_in
has_tools none = raised
has_tools (some names) =
    if is_in "codex" names && is_in "codex-reply" names
    then accepted
    else refused spawn_failed_error

-- _verify_tools, from its reply
unfoldable pub verify_tools : Reply → Handshake
unfolding has_tools tool_names tools_or_empty
verify_tools (answered (obj result)) = has_tools (tool_names (tools_or_empty (get "tools" result)))
verify_tools (answered v) = raised
verify_tools (failed e) = refused spawn_failed_error
verify_tools waiting = refused spawn_failed_error

unfoldable pub client_info : Fields
client_info = field "protocolVersion" (str "2024-11-05") (
    field "capabilities" (obj end) (
      field "clientInfo" (obj (field "name" (str "blemees-agentd") (field "version" (str "0") end)))
        end))

-- The launch, up to the wait for the first reply.
unfoldable pub begin_spawn : Bool → CodexBackend → CodexBackend × Option BlemeesError
unfolding begin_call client_info
begin_spawn launched b =
    if launched
    then (begin_call "initialize" (some client_info) (record b { proc = live }), none)
    else (b, some spawn_failed_error)

-- A handshake that is refused closes the child.
unfoldable pub give_up : Handshake → CodexBackend → CodexBackend
give_up accepted b = b
give_up (refused e) b = record b { closing = true }
give_up raised b = b

-- After the first reply: the notification, and the request for the tools.
unfoldable pub go_on : Handshake → CodexBackend → CodexBackend
unfolding begin_call send_notification give_up
go_on accepted b =
    begin_call "tools/list" none (send_notification "notifications/initialized" none b)
go_on (refused e) b = give_up (refused e) b
go_on raised b = b

unfoldable pub ready : Handshake → CodexBackend → CodexBackend
unfolding give_up
ready accepted b = record b { initialized = true }
ready (refused e) b = give_up (refused e) b
ready raised b = b

-- The two waits of `spawn`, each by the id of its request.
unfoldable pub on_initialize : ℕ → CodexBackend → CodexBackend × Handshake
unfolding finish_call check_initialize go_on
on_initialize id b =
    let (after, reply) = finish_call id b in
    (go_on (check_initialize reply) after, check_initialize reply)

unfoldable pub on_tools : ℕ → CodexBackend → CodexBackend × Handshake
unfolding finish_call verify_tools ready
on_tools id b =
    let (after, reply) = finish_call id b in (ready (verify_tools reply) after, verify_tools reply)
