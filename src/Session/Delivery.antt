-- ===== src/Session/Delivery.antt =====
-- What a client gets that attaches, or watches, with the last number that it has seen.
use blemees_daemon.Prelude.{ℕ, suc, ◌+◌, ◌<◌, ◌≡◌, List, [], ◌∷◌, ◌++◌, All, length}
use blemees_daemon.Json.{num}
use blemees_daemon.EventLog.{Frame}
use blemees_daemon.EventLog.Replay.{AtMost, Above}
use blemees_daemon.Session.{Session, Writer, Attached, gap_frame}
use blemees_daemon.Session.Replay.{to, Below}

-- The notice that follows the replay, if there is one.
pub data Notice (s : Session) (k : ℕ) (missed newer : List Frame) : List Frame → Type 0 where
  complete : All (AtMost k) missed → Notice s k missed newer []
  dropped :
      (n : ℕ)
      → suc k < n
      → All (Below n) missed
      → Notice s k missed newer (gap_frame s.session_id k (num n) (suc s.seq) ∷ [])
  rolled :
      newer ≡ []
      → k < s.seq
      → All (AtMost k) missed
      → Notice s k missed newer (gap_frame s.session_id k (num (suc (suc s.seq))) (suc s.seq) ∷ [])

-- The history is what the ring dropped, what the client has, and what it is sent, in order.
pub record Delivers (h : List Frame) (s : Session) (w : Writer) (k : ℕ) (r : Attached)
    : Type 0 where
  pub missed : List Frame
  pub seen : List Frame
  pub newer : List Frame
  pub notice : List Frame
  pub parts : h ≡ missed ++ (seen ++ newer)
  pub low : All (AtMost k) seen
  pub high : All (Above k) newer
  pub announced : Notice s k missed newer notice
  pub sent : r.sent ≡ to w newer ++ to w notice
  pub seq : r.session.seq ≡ s.seq + length notice
