-- ===== src/Session/Finishing.antt =====
-- A client that comes back during a turn that was left to finish.
use blemees_daemon.Prelude.{ℕ, ◌≡◌, refl, ◌∙◌, true, Option, none, some, arith, suc, is_some}
use blemees_daemon.Json.{get, num, str, set_default}
use blemees_daemon.Json.Laws.{get-insert, get-set_default}
use blemees_daemon.EventLog.{Frame}
use blemees_daemon.Session.{Session, Env, Writer, attach, on_event, tag}
use blemees_daemon.Session.Counters.{has_type}

type-tag : (s : Session) (f : Frame) → get "type" (tag s f) ≡ get "type" f
unfolding tag
type-tag s f =
    get-insert "seq" "type" (num (suc s.seq)) (set_default "session_id" (str s.session_id) f)
    ∙ get-set_default "session_id" "type" (str s.session_id) f refl

attach_keeps_finishing :
    (e : Env) (s : Session) (cid : ℕ) (w : Writer) (last : Option ℕ)
    → ((attach e s cid w last).session.finishing ≡ s.finishing)
      × ((attach e s cid w last).session.backend ≡ s.backend)
      × ((attach e s cid w last).session.connection_id ≡ some cid)
unfolding attach
attach_keeps_finishing e s cid w none = (refl, refl, refl)
attach_keeps_finishing e s cid w (some k) = (ground arith, ground arith, ground arith)

-- An attach does not undo the mark of a detach: the turn's result closes the backend of a session
-- that has an owner again. Condition: the session was marked, and has a backend.
pub attach-soft_kill :
    (e e' : Env) (s : Session) (cid : ℕ) (w : Writer) (last : Option ℕ) (f : Frame)
    → s.finishing ≡ true
    → is_some s.backend ≡ true
    → has_type "agent.result" f ≡ true
    → ((on_event e' (attach e s cid w last).session f).soft_kill ≡ true)
      × ((on_event e' (attach e s cid w last).session f).session.connection_id ≡ some cid)
unfolding on_event
attach-soft_kill e e' s cid w last f marked child result =
    let (fin, back, conn) = attach_keeps_finishing e s cid w last in
    (ground (arith, type-tag (attach e s cid w last).session f, fin, back), conn)
