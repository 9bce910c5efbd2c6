-- ===== src/Tests/Daemons.antt =====
-- Witnesses for the daemon's handlers.
use blemees_daemon.Table.Capacity.{IsSound}
use blemees_daemon.Daemon.Dispatch.{World, dispatch, accept}
use blemees_daemon.Daemon.Reach.{then_step, here, come, go, Reaches-IsSound}
use blemees_daemon.Json.{Fields, str, bool, get, end, field}
use blemees_daemon.Daemon.Watching.{close_connection}
use blemees_daemon.Daemon.Leaving.{has_owner, OneEach, find-close_connection}
use blemees_daemon.Prelude.{
  String, ◌≢◌, subst, select, Option, ◌≡◌, refl, [], ◌∷◌, none, some, true, false, arith,
}
use blemees_daemon.Errors.{unsafe_flag_error}
use blemees_daemon.Session.{Session}
use blemees_daemon.Table.{find}
use blemees_daemon.Daemon.{Daemon, owns, find_connection, known}
use blemees_daemon.Daemon.Opening.{handle_open}
use blemees_daemon.Daemon.Ownership.Keeps.{essence}
use blemees_daemon.Daemon.Ownership.Outsiders.{dispatch-essence}
use blemees_daemon.Daemon.Takeover.{Holds, handle_open-Holds}
use blemees_daemon.Daemon.Failures.{Stranded, handle_open-Stranded, owns-handle_open_failed}
use blemees_daemon.Tests.{session_a, two_sessions, open_message, child, connection, daemon, outside}

IsSound-table : IsSound daemon.table
unfolding find
IsSound-table = record {
  distinct = (refl, (refl, tt));
  keyed = (refl, (refl, tt));
  within = omega (arith);
}

abbrev world : World
world = record {
  outside = outside none;
  disk_rows = record { claude = λ cwd. []; codex = λ cwd. [] };
  info_sources = record {
    find_transcript = λ sid. none;
    is_codex_path = λ p. false;
    to_int = λ v. none;
  };
  status_source = record { head = end; config = end };
}

-- A close, with the log's deletion, of the session that the connection 1 owns.
abbrev close_frame : Fields
close_frame =
    field "type" (str "agent.close")
      (field "id" (str "r2") (field "session_id" (str "a") (field "delete" (bool true) end)))

abbrev closes : String
closes = "agent.close"

not_open : some closes ≢ some "agent.open"
not_open e = cc

dispatch-essence_example :
    essence (find "a" (dispatch world 2 close_frame daemon).table.sessions)
    ≡ essence (find "a" daemon.table.sessions)
unfolding owns find find_connection get
dispatch-essence_example =
    dispatch-essence world 2 "a" close_frame daemon IsSound-table refl not_open

handle_open-Holds_example :
    Holds 2 "a" (handle_open (outside none) 2 (open_message "a") daemon).0
    × (owns 1 "a" (handle_open (outside none) 2 (open_message "a") daemon).0 ≡ false)
unfolding find find_connection
handle_open-Holds_example =
    handle_open-Holds (outside none) 2 1 (open_message "a") session_a child (connection []) daemon
      refl refl refl refl refl (omega arith) refl refl

handle_open-Stranded_example :
    ((handle_open
        (outside (some (known (unsafe_flag_error "--bare"))))
        2
        (open_message "c")
        daemon).1
      ≡ some (known (unsafe_flag_error "--bare")))
    × Stranded "c"
        (handle_open
          (outside (some (known (unsafe_flag_error "--bare"))))
          2
          (open_message "c")
          daemon).0
unfolding find
handle_open-Stranded_example =
    handle_open-Stranded (outside (some (known (unsafe_flag_error "--bare")))) 2 (open_message "c")
      (known (unsafe_flag_error "--bare")) daemon refl refl (omega arith) refl

abbrev dead_session : Session
dead_session = record session_a { backend = none }

abbrev dead_daemon : Daemon
dead_daemon = record daemon { table = record two_sessions { sessions = ("a", dead_session) ∷ [] } }

owns-handle_open_failed_example :
    (find "a" (handle_open (outside none) 1 (open_message "a") dead_daemon).0.table.sessions ≡ none)
    × (owns 1 "a" (handle_open (outside none) 1 (open_message "a") dead_daemon).0 ≡ true)
unfolding find owns find_connection
owns-handle_open_failed_example =
    owns-handle_open_failed (outside none) 1 (open_message "a") dead_session dead_daemon refl refl
      refl refl refl refl refl refl

abbrev Holder : Option Session → Type 0
Holder none = Unit
Holder (some s) = OneEach s.watchers

-- The first session with a watch of its owner and one of another connection.
abbrev watched : Session
watched = record session_a { watchers = (1, 1) ∷ (2, 2) ∷ [] }

abbrev watched_daemon : Daemon
watched_daemon = record daemon { table = record two_sessions { sessions = ("a", watched) ∷ [] } }

find-close_connection_example :
    (find "a" (close_connection (outside none) 1 watched_daemon).table.sessions
      ≡ some (record session_a {
        connection_id = none;
        writer = none;
        detached_at = some 100;
        finishing = true;
        watchers = (2, 2) ∷ [];
      }))
    × ((s : Session)
        → find "a" (close_connection (outside none) 1 watched_daemon).table.sessions ≡ some s
        → has_owner 1 s ≡ false)
    × (find_connection 1 (close_connection (outside none) 1 watched_daemon).connections ≡ none)
unfolding find select
find-close_connection_example =
    find-close_connection (outside none) 1 "a" watched_daemon (refl, tt) (refl, tt) one_each
  where
    one_each : (s : Session) → some watched ≡ some s → OneEach s.watchers
    one_each s e = subst (λ o. Holder o) e (refl, (refl, tt))

-- A client comes, and the owner of the first session goes.
Reaches-IsSound_example : IsSound (close_connection (outside none) 1 (accept 9 none daemon)).table
Reaches-IsSound_example =
    Reaches-IsSound daemon (close_connection (outside none) 1 (accept 9 none daemon))
      (then_step daemon (accept 9 none daemon)
        (close_connection (outside none) 1 (accept 9 none daemon)) (come 9 none daemon)
        (then_step (accept 9 none daemon) (close_connection (outside none) 1 (accept 9 none daemon))
          (close_connection (outside none) 1 (accept 9 none daemon))
          (go (outside none) 1 (accept 9 none daemon))
          (here (close_connection (outside none) 1 (accept 9 none daemon)))))
      IsSound-table
