-- ===== src/Daemon/Reach.antt =====
-- blemees_agent/daemon.py: the states that the daemon can reach, in any order of its steps.
use blemees_daemon.Prelude.{ℕ, Option, String, str_eq}
use blemees_daemon.Json.{Fields, get_str}
use blemees_daemon.EventLog.{Frame}
use blemees_daemon.Protocol.{
  parse_open, parse_user, parse_interrupt, parse_close, parse_list_sessions, parse_ping,
  parse_status, parse_watch, parse_unwatch, parse_session_info,
}
use blemees_daemon.Session.{BackendView}
use blemees_daemon.Table.{reap_idle, expired_ids}
use blemees_daemon.Table.Capacity.{IsSound}
use blemees_daemon.Daemon.{Daemon, Outside, emit_frame}
use blemees_daemon.Daemon.Watching.{close_connection, handle_ping}
use blemees_daemon.Daemon.Info.{handle_status}
use blemees_daemon.Daemon.Dispatch.{
  World, reply_invalid, reply_unknown, route, type_of, dispatch, backend_event, backend_change,
  accept, reap,
}
use blemees_daemon.Daemon.Sound.{IsSound-if}
use blemees_daemon.Daemon.Sound.Opens.{handle_open-IsSound}
use blemees_daemon.Daemon.Sound.Handlers.{
  handle_user-IsSound, handle_interrupt-IsSound, handle_close-IsSound, handle_watch-IsSound,
  handle_unwatch-IsSound,
}
use blemees_daemon.Daemon.Sound.Steps.{
  parsed-IsSound, answer_failure-IsSound, backend_event-IsSound, backend_change-IsSound,
  close_connection-IsSound, remove_each-IsSound, handle_session_info-IsSound,
}

-- A step of the daemon: a frame of a connection, what a backend does, a client that comes or goes, and
-- the reaper.
pub data Step : Daemon → Daemon → Type 0 where
  frame : (w : World) (id : ℕ) (f : Fields) (d : Daemon) → Step d (dispatch w id f d)
  event : (o : Outside) (sid : String) (f : Frame) (d : Daemon) → Step d (backend_event o sid f d)
  change : (sid : String) (b : BackendView) (d : Daemon) → Step d (backend_change sid b d)
  come : (id : ℕ) (pid : Option ℕ) (d : Daemon) → Step d (accept id pid d)
  go : (o : Outside) (id : ℕ) (d : Daemon) → Step d (close_connection o id d)
  reaper : (now : ℕ) (d : Daemon) → Step d (reap now d)

pub data Reaches : Daemon → Daemon → Type 0 where
  here : (d : Daemon) → Reaches d d
  then_step : (a b c : Daemon) → Step a b → Reaches b c → Reaches a c

route-IsSound :
    (w : World) (id : ℕ) (t : String) (f : Fields) (d : Daemon)
    → IsSound d.table
    → IsSound (route w id t f d).0.table
unfolding route reply_invalid reply_unknown handle_ping handle_status emit_frame
route-IsSound w id t f d h =
    IsSound-if (str_eq t "agent.open") _ _
      (parsed-IsSound (parse_open f) _ d (λ m. handle_open-IsSound w.outside id m d h) h)
      (IsSound-if (str_eq t "agent.user") _ _
        (parsed-IsSound (parse_user f) _ d (λ m. handle_user-IsSound w.outside id m d h) h)
        (IsSound-if (str_eq t "agent.interrupt") _ _
          (parsed-IsSound (parse_interrupt f) _ d (λ m. handle_interrupt-IsSound w.outside id m d h)
            h)
          (IsSound-if (str_eq t "agent.close") _ _
            (parsed-IsSound (parse_close f) _ d (λ m. handle_close-IsSound w.outside id m d h) h)
            (IsSound-if (str_eq t "agent.list_sessions") _ _
              (parsed-IsSound (parse_list_sessions f) _ d (λ m. h) h)
              (IsSound-if (str_eq t "agent.ping") _ _ (parsed-IsSound (parse_ping f) _ d (λ m. h) h)
                (IsSound-if (str_eq t "agent.status") _ _
                  (parsed-IsSound (parse_status f) _ d (λ m. h) h)
                  (IsSound-if (str_eq t "agent.watch") _ _
                    (parsed-IsSound (parse_watch f) _ d
                      (λ m. handle_watch-IsSound w.outside id m d h) h)
                    (IsSound-if (str_eq t "agent.unwatch") _ _
                      (parsed-IsSound (parse_unwatch f) _ d (λ m. handle_unwatch-IsSound id m d h)
                        h)
                      (IsSound-if (str_eq t "agent.session_info") _ _
                        (parsed-IsSound (parse_session_info f) _ d
                          (λ m. handle_session_info-IsSound w id m d h) h)
                        (IsSound-if (str_eq t "agent.hello") _ _ h h))))))))))

Step-IsSound : (a b : Daemon) → Step a b → IsSound a.table → IsSound b.table
unfolding dispatch accept reap reap_idle
Step-IsSound _ _ (frame w id f d) h =
    answer_failure-IsSound w.outside id f (route w id (type_of (get_str "type" f)) f d)
      (route-IsSound w id (type_of (get_str "type" f)) f d h)
Step-IsSound _ _ (event o sid f d) h = backend_event-IsSound o sid f d h
Step-IsSound _ _ (change sid b d) h = backend_change-IsSound sid b d h
Step-IsSound _ _ (come id pid d) h = h
Step-IsSound _ _ (go o id d) h = close_connection-IsSound o id d h
Step-IsSound _ _ (reaper now d) h = remove_each-IsSound (expired_ids now d.table) d.table h

-- Whatever clients, backends and the reaper do, and in whatever order: from a sound table the daemon
-- only reaches sound tables. There is one session to an id, each stands under its own id, and there are
-- at most `max_concurrent` of them.
pub Reaches-IsSound : (a b : Daemon) → Reaches a b → IsSound a.table → IsSound b.table
Reaches-IsSound a _ (here _) h = h
Reaches-IsSound a c (then_step _ b _ s r) h = Reaches-IsSound b c r (Step-IsSound a b s h)
