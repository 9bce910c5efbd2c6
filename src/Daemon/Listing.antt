-- ===== src/Daemon/Listing.antt =====
-- blemees_agent/daemon.py: `agent.list_sessions`, over the rows that the backends read from disk.
use blemees_daemon.Prelude.{
  ℕ, ◌&&◌, Bool, true, false, Option, none, some, List, [], ◌∷◌, map, String, str_eq, if◌then◌else◌,
}
use blemees_daemon.Prelude.Int.{ℤ, pos, ltb_ℤ}
use blemees_daemon.Json.{
  Value, Fields, bool, str, arr, obj, end, field, get, insert, update, as_int, of_items,
}
use blemees_daemon.EventLog.{Frame}
use blemees_daemon.Protocol.{ListSessionsMessage, truthy}
use blemees_daemon.Session.{Session}
use blemees_daemon.Session.Rows.{live_summary}
use blemees_daemon.Table.{Table, iter_by_cwd}
use blemees_daemon.Daemon.{Daemon, find_connection, or_null}

-- A row of a listing under its key, the backend and the session id.
pub record Row : Type 0 where
  pub backend : String
  pub session_id : String
  pub row : Fields

-- What the backends list on disk for a working directory, with the id of each row.
pub record DiskRows : Type 0 where
  pub claude : Option String → List (String × Fields)
  pub codex : Option String → List (String × Fields)

unfoldable pub same_key : String → String → Row → Bool
same_key b sid r = str_eq r.backend b && str_eq r.session_id sid

-- key in merged
unfoldable pub has_key : String → String → List Row → Bool
unfolding same_key
has_key b sid [] = false
has_key b sid (r ∷ rs) = let rest = has_key b sid rs in if same_key b sid r then true else rest

-- merged[key] = row
unfoldable pub put_row : String → String → Fields → List Row → List Row
unfolding same_key
put_row b sid d [] = record { backend = b; session_id = sid; row = d } ∷ []
put_row b sid d (r ∷ rs) =
    if same_key b sid r then record r { row = d } ∷ rs else r ∷ put_row b sid d rs

-- merged.pop(key, None)
unfoldable pub pop_row : String → String → List Row → List Row
unfolding same_key
pop_row b sid [] = []
pop_row b sid (r ∷ rs) = let rest = pop_row b sid rs in if same_key b sid r then rest else r ∷ rest

disk_pass : String → List (String × Fields) → List Row → List Row
unfolding put_row insert
disk_pass b [] merged = merged
disk_pass b ((sid, d) ∷ rest) merged =
    disk_pass b rest
      (put_row b sid (insert "attached" (bool false) (insert "backend" (str b) d)) merged)

-- rec.update(live)
overlay : String → String → Fields → List Row → List Row
unfolding same_key
overlay b sid live [] = []
overlay b sid live (r ∷ rs) =
    if same_key b sid r
    then record r { row = update r.row live } ∷ rs
    else r ∷ overlay b sid live rs

owner_pid : Session → Daemon → Option ℕ
unfolding find_connection
owner_pid s d = elim s.connection_id [
  | none ↦ none
  | some id ↦ elim (find_connection id d.connections) [ none ↦ none | some c ↦ c.peer_pid ]
]

-- The id under which the disk may know the session beside its own: a Codex thread's.
native_key : Session → Option String
native_key s =
    if str_eq s.backend_name "codex"
    then (elim s.usage.native_session_id [
      | none ↦ none
      | some n ↦ if str_eq n "" then none else some n
    ])
    else none

overlay_native : Session → Fields → Option String → List Row → List Row
unfolding overlay put_row
overlay_native s live none merged = put_row s.backend_name s.session_id live merged
overlay_native s live (some n) merged =
    if has_key "codex" n merged
    then overlay "codex" n live merged
    else put_row s.backend_name s.session_id live merged

-- One session of the live pass: its row on disk is kept and overlaid, under the id that matches.
overlay_session : Daemon → Session → List Row → List Row
unfolding overlay overlay_native has_key owner_pid native_key
overlay_session d s merged =
    let live = live_summary (owner_pid s d) s in
    if has_key s.backend_name s.session_id merged
    then overlay s.backend_name s.session_id live merged
    else overlay_native s live (native_key s) merged

live_pass : Daemon → List Session → List Row → List Row
unfolding overlay_session
live_pass d [] merged = merged
live_pass d (s ∷ ss) merged = live_pass d ss (overlay_session d s merged)

pop_native : Option String → List Row → List Row
unfolding pop_row
pop_native none merged = merged
pop_native (some n) merged = pop_row "codex" n merged

-- live: false takes the sessions in memory out of the rows on disk.
subtract_live : List Session → List Row → List Row
unfolding pop_row pop_native native_key
subtract_live [] merged = merged
subtract_live (s ∷ ss) merged =
    subtract_live ss (pop_native (native_key s) (pop_row s.backend_name s.session_id merged))

live_sessions : Option String → Table → List Session
live_sessions none t = map (λ e. e.1) t.sessions
live_sessions (some cwd) t = iter_by_cwd t cwd

-- a or b, of fields that are numbers where they are there
number_or : Option Value → ℤ → ℤ
unfolding truthy
number_or none n = n
number_or (some v) n = if truthy v then (elim (as_int v) [ none ↦ n | some m ↦ m ]) else n

-- r.get("last_active_at_ms") or r.get("mtime_ms") or 0
unfoldable pub sort_key : Fields → ℤ
unfolding number_or
sort_key d = number_or (get "last_active_at_ms" d) (number_or (get "mtime_ms" d) (pos 0))

-- Into a list that falls, behind those that have the same key.
unfoldable pub insert_row : Fields → List Fields → List Fields
unfolding sort_key
insert_row x [] = x ∷ []
insert_row x (y ∷ ys) = if ltb_ℤ (sort_key y) (sort_key x) then x ∷ y ∷ ys else y ∷ insert_row x ys

-- sorted(rows, key=…, reverse=True), which is stable
unfoldable pub sort_rows : List Fields → List Fields → List Fields
unfolding insert_row
sort_rows sorted [] = sorted
sort_rows sorted (x ∷ xs) = sort_rows (insert_row x sorted) xs

disk_rows : DiskRows → ListSessionsMessage → List Row
unfolding disk_pass
disk_rows disk m = disk_pass "codex" (disk.codex m.cwd) (disk_pass "claude" (disk.claude m.cwd) [])

-- `live` picks the passes: only the table, only what the table has not, or both.
unfoldable pub merged_rows : DiskRows → ListSessionsMessage → Daemon → List Row
unfolding disk_rows live_pass live_sessions subtract_live
merged_rows disk m d = elim m.live [
  | none ↦ live_pass d (live_sessions m.cwd d.table) (disk_rows disk m)
  | some true ↦ live_pass d (live_sessions m.cwd d.table) []
  | some false ↦ subtract_live (live_sessions m.cwd d.table) (disk_rows disk m)
]

unfoldable pub sessions_frame : DiskRows → ListSessionsMessage → Daemon → Frame
unfolding merged_rows sort_rows
sessions_frame disk m d = field "type" (str "agent.sessions") (
    field "id" (or_null m.id) (
      field "sessions"
        (arr (of_items (map obj (sort_rows [] (map (λ (r : Row). r.row) (merged_rows disk m d))))))
        (field "cwd" (or_null m.cwd) end)))
