-- ===== src/Session/Replay.antt =====
-- What a client gets that attaches with the last number that it has seen.
use blemees_daemon.Prelude.{
  ℕ, zero, suc, ◌-◌, ◌<◌, ◌≡◌, refl, sym, ap, ◌∙◌, ◌⊎◌, inl, inr, List, [], ◌∷◌, ◌++◌, map, some,
  arith, length, take, take_right, subst, length-drop, All-map, take-append-drop, true, All,
}
use blemees_daemon.Json.{num}
use blemees_daemon.EventLog.{Frame, since, earliest_seq}
use blemees_daemon.EventLog.Replay.{
  HasSeq, AtMost, Above, Ascending, Ascending-append, Ascending-AtMost, since-Splits,
  earliest_seq-Ascending,
}
use blemees_daemon.Session.{Session, Env, Writer, Sent, send_all}
use blemees_daemon.Session.Stream.{Tracks}

-- Frames handed to one writer.
abbrev pub to : Writer → List Frame → Sent
to w = map (λ f. (w, f))

-- No call of the writer raises.
abbrev pub AcceptsAll : Env → Writer → Type 0
AcceptsAll e w = (f : Frame) → e.accepts w f ≡ true

pub send_all-AcceptsAll :
    (e : Env) (w : Writer) (fs : List Frame) → AcceptsAll e w → send_all e w fs ≡ (to w fs, true)
unfolding send_all
send_all-AcceptsAll e w [] h = refl
send_all-AcceptsAll e w (f ∷ fs) h = ground (arith, send_all-AcceptsAll e w fs h, h f)

-- The number is below `n`.
abbrev pub Below : ℕ → Frame → Type 0
Below n f = (m : ℕ) × HasSeq f m × (m < n)

-- What the ring has of its oldest frame: nothing was emitted, or all that fell out is below it.
abbrev pub Oldest : List Frame → List Frame → Type 0
Oldest missed buf =
    ((missed ≡ []) × (buf ≡ []))
    ⊎ ((n : ℕ) × (earliest_seq buf ≡ num n) × (0 < n) × All (Below n) missed)

-- How the history `h` and the number `k` stand to a ring: `missed` fell out of the ring, `seen` is
-- at most `k`, `newer` is above it.
pub record Cut (h : List Frame) (s : Session) (k : ℕ) : Type 0 where
  pub missed : List Frame
  pub seen : List Frame
  pub newer : List Frame
  pub parts : h ≡ missed ++ (seen ++ newer)
  pub ring : s.ring.buf ≡ seen ++ newer
  pub replay : since k s.ring.buf ≡ some newer
  pub low : All (AtMost k) seen
  pub high : All (Above k) newer
  pub oldest : Oldest missed s.ring.buf

length-zero {ℓ} : {A : Type ℓ} (xs : List A) → length xs ≡ 0 → xs ≡ []
length-zero [] h = refl
length-zero (x ∷ xs) h = absurd (omega arith)

take-nil {ℓ} : {A : Type ℓ} (n : ℕ) → take {A = A} n [] ≡ []
take-nil zero = refl
take-nil (suc n) = refl

Oldest-of :
    (c mid hi : ℕ) (h buf : List Frame)
    → 0 < c
    → buf ≡ take_right c h
    → Ascending 0 (take (length h - c) h) mid
    → Ascending mid buf hi
    → Oldest (take (length h - c) h) buf
Oldest-of c mid hi h [] pos eq left right =
    let none_left : h ≡ [] =
      length-zero h (omega (arith, ap length eq, length-drop (length h - c) h)) in
    inl (ap (take (length h - c)) none_left ∙ take-nil (length h - c), refl)
Oldest-of c mid hi h (f ∷ fs) pos eq left right =
    let (n, first, lt, le) = earliest_seq-Ascending mid hi f fs right in
    inr (
      n,
      first,
      omega arith,
      All-map (AtMost mid) (Below n) (take (length h - c) h) (λ g (m, e, b). (m, e, omega arith))
          (Ascending-AtMost 0 mid mid (take (length h - c) h) (omega arith) left),
    )

pub Tracks-Cut : (h : List Frame) (s : Session) (k : ℕ) → Tracks h s → Cut h s k
Tracks-Cut h s k t =
    let n : ℕ = length h - s.ring.capacity in
    let both : h ≡ take n h ++ s.ring.buf =
      sym (take-append-drop n h) ∙ ap (λ b. take n h ++ b) (sym t.kept) in
    let (mid, left, right) =
      Ascending-append 0 s.seq (take n h) s.ring.buf
        (subst (λ b. Ascending 0 b s.seq) both t.rising) in
    let (older, newer, parts, eq, low, high) = since-Splits k mid s.seq s.ring.buf right in
    record {
      missed = take n h;
      seen = older;
      newer = newer;
      parts = both ∙ ap (λ b. take n h ++ b) parts;
      ring = parts;
      replay = eq;
      low = low;
      high = high;
      oldest = Oldest-of s.ring.capacity mid s.seq h s.ring.buf t.room t.kept left right;
    }
