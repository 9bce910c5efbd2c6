-- ===== src/Claude/Limiter.antt =====
-- blemees_agent/backends/claude.py, _StderrRateLimiter: how many lines of a child's stderr are logged.
pub mod Window
use blemees_daemon.Prelude.{
  ℕ, suc, ◌+◌, Bool, true, false, List, [], ◌∷◌, ◌++◌, length, ltb, leb, if◌then◌else◌,
}

pub record Limiter : Type 0 where
  pub max_lines : ℕ
  pub window : ℕ
  pub stamps : List ℕ
  pub dropped : ℕ

unfoldable pub new_limiter : ℕ → ℕ → Limiter
new_limiter max_lines window = record {
  max_lines = max_lines;
  window = window;
  stamps = [];
  dropped = 0;
}

-- while self._ts and self._ts[0] < now - self._window: popleft()
unfoldable pub pop_old : ℕ → ℕ → List ℕ → List ℕ
pop_old window now [] = []
pop_old window now (t ∷ ts) =
    let rest = pop_old window now ts in if ltb (t + window) now then rest else t ∷ ts

-- _StderrRateLimiter.allow, at a monotonic time
unfoldable pub allow : ℕ → Limiter → Limiter × Bool
unfolding pop_old
allow now l =
    let kept = pop_old l.window now l.stamps in
    if leb l.max_lines (length kept)
    then (record l { stamps = kept; dropped = suc l.dropped }, false)
    else (record l { stamps = kept ++ now ∷ [] }, true)
