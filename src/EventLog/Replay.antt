-- ===== src/EventLog/Replay.antt =====
-- What `since` returns from a ring whose numbers rise: the shape that Session keeps its ring in.
use blemees_daemon.Prelude.{
  ℕ, suc, ◌≤◌, ◌<◌, ◌≡◌, refl, ap, ◌⊎◌, inl, inr, some, List, [], ◌∷◌, ◌++◌, arith, drop, zero, All,
  ltb, not-ltb→le, Bool-cases, ltb→lt,
}
use blemees_daemon.Json.{num, get}
use blemees_daemon.EventLog.{Frame, RingBuffer, append, since, is_after, earliest_seq}

-- The frame carries the number.
abbrev pub HasSeq : Frame → ℕ → Type 0
HasSeq f n = get "seq" f ≡ some (num n)

-- The numbers rise strictly, above `lo` and up to `hi`.
abbrev pub Ascending : ℕ → List Frame → ℕ → Type 0
Ascending lo [] hi = lo ≤ hi
Ascending lo (f ∷ fs) hi = (n : ℕ) × HasSeq f n × (lo < n) × Ascending n fs hi

abbrev pub AtMost : ℕ → Frame → Type 0
AtMost k f = (n : ℕ) × HasSeq f n × (n ≤ k)

abbrev pub Above : ℕ → Frame → Type 0
Above k f = (n : ℕ) × HasSeq f n × (k < n)

pub Ascending-le : (lo hi : ℕ) (fs : List Frame) → Ascending lo fs hi → lo ≤ hi
Ascending-le lo hi [] h = h
Ascending-le lo hi (f ∷ fs) (n, e, lt, rest) = omega (arith, Ascending-le n hi fs rest)

pub Ascending-weaken :
    (lo lo' hi : ℕ) (fs : List Frame) → lo' ≤ lo → Ascending lo fs hi → Ascending lo' fs hi
Ascending-weaken lo lo' hi [] le h = omega arith
Ascending-weaken lo lo' hi (f ∷ fs) le (n, e, lt, rest) = (n, e, omega arith, rest)

pub Ascending-raise :
    (lo hi hi' : ℕ) (fs : List Frame) → hi ≤ hi' → Ascending lo fs hi → Ascending lo fs hi'
Ascending-raise lo hi hi' [] le h = omega arith
Ascending-raise lo hi hi' (f ∷ fs) le (n, e, lt, rest) =
    (n, e, lt, Ascending-raise n hi hi' fs le rest)

pub Ascending-snoc :
    (lo hi : ℕ) (fs : List Frame) (f : Frame)
    → Ascending lo fs hi
    → HasSeq f (suc hi)
    → Ascending lo (fs ++ f ∷ []) (suc hi)
Ascending-snoc lo hi [] f h e = (suc hi, e, omega arith, omega arith)
Ascending-snoc lo hi (g ∷ fs) f (n, e', lt, rest) e = (n, e', lt, Ascending-snoc n hi fs f rest e)

pub Ascending-drop :
    (k lo hi : ℕ) (fs : List Frame) → Ascending lo fs hi → Ascending lo (drop k fs) hi
Ascending-drop zero lo hi fs h = h
Ascending-drop (suc k) lo hi [] h = h
Ascending-drop (suc k) lo hi (f ∷ fs) (n, e, lt, rest) =
    Ascending-drop k lo hi fs (Ascending-weaken n lo hi fs (omega arith) rest)

pub append-Ascending :
    (r : RingBuffer) (hi : ℕ) (f : Frame)
    → Ascending 0 r.buf hi
    → HasSeq f (suc hi)
    → Ascending 0 (append r f).buf (suc hi)
unfolding append
append-Ascending r hi f h e =
    Ascending-drop _ 0 (suc hi) (r.buf ++ f ∷ []) (Ascending-snoc 0 hi r.buf f h e)

is_after_lem : (k n : ℕ) (f : Frame) → HasSeq f n → is_after k f ≡ some (ltb k n)
unfolding is_after
is_after_lem k n f e = rw (e, is_after) (ground arith)

since_cons :
    (k n : ℕ) (f : Frame) (fs gs : List Frame)
    → HasSeq f n
    → since k fs ≡ some gs
    → ((k < n) × (since k (f ∷ fs) ≡ some (f ∷ gs))) ⊎ ((n ≤ k) × (since k (f ∷ fs) ≡ some gs))
unfolding since
since_cons k n f fs gs e h = elim (Bool-cases (ltb k n)) [
  | inl lt ↦ inl (ltb→lt k n lt, ground (arith, is_after_lem k n f e))
  | inr ge ↦ inr (not-ltb→le k n ge, ground (arith, is_after_lem k n f e))
]

since-All :
    (k lo hi : ℕ) (fs : List Frame)
    → k ≤ lo
    → Ascending lo fs hi
    → (since k fs ≡ some fs) × All (Above k) fs
unfolding since
since-All k lo hi [] le h = (refl, tt)
since-All k lo hi (f ∷ fs) le (n, e, lt, rest) =
    let (ih, above) = since-All k n hi fs (omega arith) rest in
    let h : since k (f ∷ fs) ≡ some (f ∷ fs) = elim (since_cons k n f fs fs e ih) [
      | inl (_, p) ↦ p
      | inr (ge, _) ↦ absurd (omega arith)
    ] in
    (h, ((n, e, omega arith), above))

-- The ring splits into the frames up to the number and those above it, and `since` returns the
-- second part, in order, without an exception.
abbrev pub Splits : ℕ → List Frame → Type 0
Splits k fs =
    (older newer : List Frame) × (fs ≡ older ++ newer)
    × (since k fs ≡ some newer)
    × All (AtMost k) older
    × All (Above k) newer

-- In a ring whose numbers rise, `since k` returns the end of the ring: each frame that it leaves out
-- has a number of at most `k`, and each frame that it returns a number above `k`.
pub since-Splits : (k lo hi : ℕ) (fs : List Frame) → Ascending lo fs hi → Splits k fs
unfolding since
since-Splits k lo hi [] h = ([], [], refl, refl, tt, tt)
since-Splits k lo hi (f ∷ fs) (n, e, lt, rest) = elim (Bool-cases (ltb k n)) [
  | inl above ↦
      let (eq, tail_above) = since-All k n hi fs (omega (arith, ltb→lt k n above)) rest in
      let h : since k (f ∷ fs) ≡ some (f ∷ fs) = elim (since_cons k n f fs fs e eq) [
        | inl (_, p) ↦ p
        | inr (ge, _) ↦ absurd (omega (arith, ltb→lt k n above))
      ] in
      ([], f ∷ fs, refl, h, tt, ((n, e, ltb→lt k n above), tail_above))
  | inr below ↦
      let (older, newer, parts, eq, low, high) = since-Splits k n hi fs rest in
      let h : since k (f ∷ fs) ≡ some newer = elim (since_cons k n f fs newer e eq) [
        | inl (lt', _) ↦ absurd (omega (arith, not-ltb→le k n below))
        | inr (_, p) ↦ p
      ] in
      (f ∷ older, newer, ap (◌∷◌ f) parts, h, ((n, e, not-ltb→le k n below), low), high)
]

-- The earliest number of a ring that is not empty.
pub earliest_seq-Ascending :
    (lo hi : ℕ) (f : Frame) (fs : List Frame)
    → Ascending lo (f ∷ fs) hi
    → (n : ℕ) × (earliest_seq (f ∷ fs) ≡ num n) × (lo < n) × (n ≤ hi)
unfolding earliest_seq
earliest_seq-Ascending lo hi f fs (n, e, lt, rest) =
    (n, ground arith, lt, Ascending-le n hi fs rest)

-- Two parts of a rising list meet at some number.
pub Ascending-append :
    (lo hi : ℕ) (xs ys : List Frame)
    → Ascending lo (xs ++ ys) hi
    → (mid : ℕ) × Ascending lo xs mid × Ascending mid ys hi
Ascending-append lo hi [] ys h = (lo, omega arith, h)
Ascending-append lo hi (x ∷ xs) ys (n, e, lt, rest) =
    let (mid, left, right) = Ascending-append n hi xs ys rest in (mid, (n, e, lt, left), right)

pub Ascending-AtMost :
    (lo hi k : ℕ) (fs : List Frame) → hi ≤ k → Ascending lo fs hi → All (AtMost k) fs
Ascending-AtMost lo hi k [] le h = tt
Ascending-AtMost lo hi k (f ∷ fs) le (n, e, lt, rest) =
    ((n, e, omega (arith, Ascending-le n hi fs rest)), Ascending-AtMost n hi k fs le rest)
