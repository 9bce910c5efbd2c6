-- ===== src/Tests/Tables.antt =====
-- Witnesses for the session table.
use blemees_daemon.Table.Lives.{Move, event, join}
use blemees_daemon.Tests.{quiet_env, open_message, delta}
use blemees_daemon.Prelude.{List, none, some, [], ◌∷◌, refl}
use blemees_daemon.Prelude.{
  ◌≤◌, ◌<◌, ◌≢◌, ◌⊎◌, length, ◌≡◌, refl, [], ◌∷◌, none, some, false, arith,
}
use blemees_daemon.Errors.{ok, err, session_exists_error}
use blemees_daemon.Session.{Session}
use blemees_daemon.Table.{Table, find, register, remove, full, reap_idle, is_expired}
use blemees_daemon.Table.Capacity.{IsSound, Registers, register-Registers}
use blemees_daemon.Table.Removal.{Removes, remove-Removes}
use blemees_daemon.Table.Reaping.{find-reap_idle}
use blemees_daemon.Tests.{session_a, session_b, two_sessions, open_message, child}

two_sessions-IsSound : IsSound two_sessions
unfolding find
two_sessions-IsSound = record {
  distinct = (refl, (refl, tt));
  keyed = (refl, (refl, tt));
  within = omega arith;
}

find-reap_idle_example : find "b" (reap_idle 100 two_sessions).0.sessions ≡ none
unfolding find is_expired
find-reap_idle_example =
    find-reap_idle 100 two_sessions "b" two_sessions-IsSound.distinct two_sessions-IsSound.keyed

abbrev session_c : Session
session_c = record session_a { session_id = "c"; open_msg = open_message "c" }

register-Registers_example :
    ((find "c" two_sessions.sessions ≢ none)
      × (register two_sessions session_c ≡ err (session_exists_error "c")))
    ⊎ ((find "c" two_sessions.sessions ≡ none)
        × (two_sessions.max_concurrent ≤ length two_sessions.sessions)
        × (register two_sessions session_c ≡ err (session_exists_error full)))
    ⊎ ((find "c" two_sessions.sessions ≡ none)
        × (length two_sessions.sessions < two_sessions.max_concurrent)
        × ((t : Table) × (register two_sessions session_c ≡ ok t)
            × Registers session_c two_sessions t))
register-Registers_example = register-Registers two_sessions session_c two_sessions-IsSound

-- A session with a log, which is kept.
abbrev logged : Session
logged = record session_a { log = some (1 ∷ 2 ∷ []) }

abbrev logged_table : Table
logged_table = record two_sessions { sessions = ("a", logged) ∷ ("b", session_b) ∷ [] }

remove-Removes_example :
    Removes "a" false logged logged_table (remove "a" false logged_table).0
    × ((remove "a" false logged_table).1 ≡ some child)
unfolding find
remove-Removes_example =
    remove-Removes "a" false logged_table logged
      (record {
        distinct = two_sessions-IsSound.distinct;
        keyed = two_sessions-IsSound.keyed;
        within = omega arith;
      })
      refl

-- Two events, a client that joins in between, and a third event.
abbrev moves : List Move
moves =
    event quiet_env (delta "x")
    ∷ event quiet_env (delta "y")
    ∷ join quiet_env 1 1 (some 1)
    ∷ event quiet_env (delta "z")
    ∷ []
