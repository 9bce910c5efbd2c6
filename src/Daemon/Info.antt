-- ===== src/Daemon/Info.antt =====
-- blemees_agent/daemon.py: `agent.session_info` and `agent.status`.
use blemees_daemon.Prelude.{
  ℕ, suc, ◌-◌, ◌&&◌, not, Bool, false, Option, none, some, List, [], ◌∷◌, map, select, String,
  str_eq, length, if◌then◌else◌, is_some,
}
use blemees_daemon.Prelude.Int.{ℤ}
use blemees_daemon.Json.{
  Value, Fields, null, bool, int, str, obj, end, field, get, insert, update, get_str, get_int,
  get_obj, num, as_int,
}
use blemees_daemon.Errors.{session_unknown, session_unknown_error}
use blemees_daemon.Protocol.{SessionInfoMessage, StatusMessage}
use blemees_daemon.Session.{Session}
use blemees_daemon.Session.Rows.{usage_snapshot, context_tokens}
use blemees_daemon.Table.{Table, find, try_get, iter_with_active_turn}
use blemees_daemon.Daemon.{
  Daemon, Outside, emit_frame, error_frame, or_null, unexpected, Outcome, done, fail,
}

-- What a reply reads from outside of the table: a transcript that a backend finds on disk, whether
-- a rollout path is a Codex one, and Python's `int` of a text or a float.
pub record InfoSources : Type 0 where
  pub find_transcript : String → Option Fields
  pub is_codex_path : String → Bool
  pub to_int : Value → Option ℤ

unfoldable pub with_field : String → Option Value → Fields → Fields
with_field k none d = d
with_field k (some v) d = insert k v d

unfoldable pub value_of_str : Option String → Option Value
value_of_str none = none
value_of_str (some s) = some (str s)

unfoldable pub value_of_int : Option ℤ → Option Value
value_of_int none = none
value_of_int (some n) = some (int n)

-- {k: v for k, v in d.items() if isinstance(v, int)}
unfoldable pub int_fields : Fields → Fields
int_fields end = end
int_fields (field k v d) =
    let rest = int_fields d in elim (as_int v) [ none ↦ rest | some n ↦ field k v rest ]

unfoldable pub value_of_ints : Option Fields → Option Value
unfolding int_fields
value_of_ints none = none
value_of_ints (some d) = some (obj (int_fields d))

unfoldable pub blank_info : String → Fields
blank_info sid = field "session_id" (str sid) (
    field "turns" (num 0) (
      field "last_turn_at_ms" null (
        field "last_turn_usage" (obj end) (
          field "cumulative_usage" (obj end) (
            field "context_tokens" (num 0) (
              field "attached" (bool false)
                (field "subprocess_running" (bool false) (field "last_seq" (num 0) end))))))))

unfoldable pub or_value : Option Value → Value → Value
or_value none v = v
or_value (some u) v = u

-- The part of the reply that comes from a transcript.
unfoldable pub from_transcript : String → Option Fields → Fields → Fields
unfolding with_field value_of_int or_value
from_transcript sid none out = out
from_transcript sid (some match) out =
    with_field "last_turn_at_ms" (value_of_int (get_int "mtime_ms" match)) (
      with_field "model" (get "model" match) (
        with_field "cwd" (get "cwd" match) (
          insert "native_session_id" (or_value (get "native_session_id" match) (str sid))
            (insert "backend" (or_value (get "backend" match) null) out))))

-- The model of the sidecar, where the transcript has none.
unfoldable pub sidecar_model : Fields → Fields → Fields
unfolding with_field value_of_str
sidecar_model side out =
    if is_some (get "model" out)
    then out
    else with_field "model" (value_of_str (get_str "model" side)) out

unfoldable pub sidecar_backend : InfoSources → String → Fields → Fields → Fields
unfolding or_value
sidecar_backend src sid side out =
    if is_some (get "backend" out)
    then out
    else (let b : String = elim (get_str "rollout_path" side) [
      | none ↦ "claude"
      | some rp ↦ if src.is_codex_path rp then "codex" else "claude"
    ] in
        insert "native_session_id" (or_value (get "native_session_id" out) (str sid))
          (insert "backend" (str b) out))

unfoldable pub from_sidecar : InfoSources → String → Option Fields → Fields → Fields
unfolding with_field value_of_str value_of_int value_of_ints sidecar_model sidecar_backend
from_sidecar src sid none out = out
from_sidecar src sid (some side) out = sidecar_backend src sid side (
    with_field "native_session_id" (value_of_str (get_str "native_session_id" side)) (
      with_field "cumulative_usage" (value_of_ints (get_obj "cumulative_usage" side)) (
        with_field "last_turn_usage" (value_of_ints (get_obj "last_turn_usage" side)) (
          with_field "last_turn_at_ms" (value_of_int (get_int "last_turn_at_ms" side))
            (with_field "turns" (value_of_int (get_int "turns" side)) (sidecar_model side out))))))

unfoldable pub object_of : Option Value → Option Fields
object_of (some (obj d)) = some d
object_of _ = none

-- Connection._load_usage_sidecar
unfoldable pub load_sidecar_of : String → Table → Option Fields
unfolding find object_of
load_sidecar_of sid t =
    if t.logging
    then (elim (find sid t.disk) [ none ↦ none | some f ↦ object_of f.sidecar ])
    else none

unfoldable pub usage_of : Option Fields → Fields
usage_of none = end
usage_of (some d) = d

unfoldable pub with_context : InfoSources → Fields → Option Fields
unfolding context_tokens usage_of
with_context src out = elim (context_tokens src.to_int (usage_of (get_obj "last_turn_usage" out))) [
  | none ↦ none
  | some n ↦ some (insert "context_tokens" (int n) out)
]

-- What was found of a session that is not in memory.
pub data Found : Type 0 where
  nothing : Found
  raises : Found
  info : Fields → Found

unfoldable pub found_of : Option Fields → Found
found_of none = raises
found_of (some d) = info d

-- Connection._session_info_from_disk
unfoldable pub session_info_from_disk : InfoSources → String → Table → Found
unfolding load_sidecar_of from_transcript from_sidecar blank_info with_context found_of
session_info_from_disk src sid t =
    let match = src.find_transcript sid in
    let side = load_sidecar_of sid t in
    if not (is_some match) && not (is_some side)
    then nothing
    else found_of
        (with_context src (from_sidecar src sid side (from_transcript sid match (blank_info sid))))

unfoldable pub info_frame : SessionInfoMessage → Fields → Fields
info_frame m snap =
    update (field "type" (str "agent.session_info_reply") (field "id" (or_null m.id) end)) snap

unfoldable pub reply_snapshot : ℕ → SessionInfoMessage → Option Fields → Daemon → Outcome
unfolding info_frame emit_frame
reply_snapshot id m none d = fail unexpected d
reply_snapshot id m (some snap) d = done (emit_frame id (info_frame m snap) d)

unfoldable pub reply_found : Outside → ℕ → SessionInfoMessage → Found → Daemon → Outcome
unfolding info_frame emit_frame error_frame
reply_found o id m nothing d = done (
    emit_frame id
      (error_frame session_unknown (o.wording (session_unknown_error m.session_id)) (or_null m.id)
        (str m.session_id))
      d)
reply_found o id m raises d = fail unexpected d
reply_found o id m (info snap) d = done (emit_frame id (info_frame m snap) d)

unfoldable pub backend_runs : Session → Bool
backend_runs s = elim s.backend [ none ↦ false | some b ↦ b.running ]

-- Connection._handle_session_info
unfoldable pub handle_session_info :
    Outside → InfoSources → ℕ → SessionInfoMessage → Daemon → Outcome
unfolding reply_snapshot reply_found backend_runs usage_snapshot session_info_from_disk try_get
handle_session_info o src id m d = elim (try_get d.table m.session_id) [
  | some s ↦
      reply_snapshot id m (usage_snapshot src.to_int (is_some s.connection_id) (backend_runs s) s) d
  | none ↦ reply_found o id m (session_info_from_disk src m.session_id d.table) d
]

-- by_backend[b] = by_backend.get(b, 0) + 1
unfoldable pub count_backend : String → List (String × ℕ) → List (String × ℕ)
count_backend b [] = (b, 1) ∷ []
count_backend b ((c, n) ∷ rest) =
    if str_eq c b then (c, suc n) ∷ rest else (c, n) ∷ count_backend b rest

unfoldable pub by_backend : List (String × ℕ) → List Session → List (String × ℕ)
unfolding count_backend
by_backend counts [] = counts
by_backend counts (s ∷ ss) = by_backend (count_backend s.backend_name counts) ss

unfoldable pub count_fields : List (String × ℕ) → Fields
count_fields [] = end
count_fields ((b, n) ∷ rest) = field b (num n) (count_fields rest)

unfoldable pub all_sessions : Table → List Session
all_sessions t = map (λ e. e.1) t.sessions

-- The counts of `agent.status_reply`.
pub record SessionCounts : Type 0 where
  pub total : ℕ
  pub attached : ℕ
  pub detached : ℕ
  pub active_turns : ℕ
  pub backends : List (String × ℕ)

unfoldable pub session_counts : Table → SessionCounts
unfolding select by_backend iter_with_active_turn all_sessions
session_counts t =
    let sessions = all_sessions t in
    let attached = length (select (λ (s : Session). is_some s.connection_id) sessions) in
    record {
      total = length sessions;
      attached = attached;
      detached = length sessions - attached;
      active_turns = length (iter_with_active_turn t);
      backends = by_backend [] sessions;
    }

-- The part of the snapshot that the table does not give: process, version and configuration.
pub record StatusSource : Type 0 where
  pub head : Fields
  pub config : Fields

unfoldable pub counts_value : SessionCounts → Fields
unfolding count_fields
counts_value c = field "total" (num c.total) (
    field "attached" (num c.attached) (
      field "detached" (num c.detached) (
        field "active_turns" (num c.active_turns)
          (field "by_backend" (obj (count_fields c.backends)) end))))

-- Daemon._status_snapshot
unfoldable pub status_snapshot : StatusSource → Daemon → Fields
unfolding session_counts counts_value update
status_snapshot src d = update src.head (
    field "connections" (num (length d.connections)) (
      field "sessions" (obj (counts_value (session_counts d.table)))
        (field "config" (obj src.config) end)))

-- Connection._handle_status
unfoldable pub handle_status : StatusSource → ℕ → StatusMessage → Daemon → Outcome
unfolding status_snapshot emit_frame
handle_status src id m d = done (
    emit_frame id
      (update (field "type" (str "agent.status_reply") (field "id" (or_null m.id) end))
        (status_snapshot src d))
      d)
