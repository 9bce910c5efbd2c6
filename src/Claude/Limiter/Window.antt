-- ===== src/Claude/Limiter/Window.antt =====
-- The limiter holds in each window of time.
use blemees_daemon.Prelude.{
  ℕ, suc, ◌+◌, ◌≤◌, ◌<◌, ◌≡◌, refl, sym, ap, ◌∙◌, not, List, [], ◌∷◌, ◌++◌, length, ltb, leb,
  if◌then◌else◌, All, All-append, All-map, subst, Bool-cases, inl, inr, arith, select,
  length-append, ltb→lt,
}
use mathlib.Core.List.{append-nil, append_assoc}
use blemees_daemon.Claude.Limiter.{Limiter, new_limiter, pop_old, allow}

-- The calls of `allow` at the given times, and the times of those that were allowed.
unfoldable pub run : List ℕ → Limiter → Limiter × List ℕ
unfolding allow
run [] l = (l, [])
run (t ∷ ts) l =
    let (l', allowed) = allow t l in
    let (l'', rest) = run ts l' in (l'', if allowed then t ∷ rest else rest)

-- Times that rise from `lo` to `hi`.
abbrev pub Rising : ℕ → List ℕ → ℕ → Type 0
Rising lo [] hi = lo ≤ hi
Rising lo (t ∷ ts) hi = (lo ≤ t) × Rising t ts hi

-- The times of the window that ends at `now`.
unfoldable pub recent : ℕ → ℕ → List ℕ → List ℕ
unfolding select
recent window now ts = select (λ t. not (ltb (t + window) now)) ts

-- `h`, all allowed times up to `now`, is what the limiter forgot and what it holds.
record Bounds (l : Limiter) (now : ℕ) (h : List ℕ) : Type 0 where
  old : List ℕ
  parts : h ≡ old ++ l.stamps
  past : All (λ t. t + l.window < now) old
  within : length l.stamps ≤ l.max_lines

-- What `pop_old` drops is past, and the rest is kept.
pop_old-Past :
    (window now : ℕ) (ts : List ℕ)
    → (old : List ℕ) × (ts ≡ old ++ pop_old window now ts) × All (λ t. t + window < now) old
unfolding pop_old
pop_old-Past window now [] = ([], refl, tt)
pop_old-Past window now (t ∷ ts) = elim (Bool-cases (ltb (t + window) now)) [
  | inl e ↦
      let (old, parts, past) = pop_old-Past window now ts in
      (t ∷ old, rw (e) (ap (◌∷◌ t) parts), (ltb→lt (t + window) now e, past))
  | inr e ↦ ([], rw (e) refl, tt)
]

length-pop_old : (window now : ℕ) (ts : List ℕ) → length (pop_old window now ts) ≤ length ts
unfolding pop_old
length-pop_old window now [] = omega arith
length-pop_old window now (t ∷ ts) = ground (arith, length-pop_old window now ts)

past-recent :
    (window now : ℕ) (ts us : List ℕ)
    → All (λ t. t + window < now) ts
    → recent window now (ts ++ us) ≡ recent window now us
unfolding recent select
past-recent window now [] us h = refl
past-recent window now (t ∷ ts) us h = ground (arith, h.0, past-recent window now ts us h.1)

length-recent : (window now : ℕ) (ts : List ℕ) → length (recent window now ts) ≤ length ts
unfolding recent select
length-recent window now [] = omega arith
length-recent window now (t ∷ ts) = ground (arith, length-recent window now ts)

later-Bounds : (l : Limiter) (lo hi : ℕ) (h : List ℕ) → lo ≤ hi → Bounds l lo h → Bounds l hi h
later-Bounds l lo hi h le b = record {
  old = b.old;
  parts = b.parts;
  past =
      All-map (λ t. t + l.window < lo) (λ t. t + l.window < hi) b.old (λ t p. omega arith) b.past;
  within = b.within;
}

pruned-Bounds :
    (l : Limiter) (lo now : ℕ) (h : List ℕ)
    → lo ≤ now
    → Bounds l lo h
    → Bounds (record l { stamps = pop_old l.window now l.stamps }) now h
unfolding later-Bounds
pruned-Bounds l lo now h le b =
    let b' = later-Bounds l lo now h le b in
    let (pre, parts, past) = pop_old-Past l.window now l.stamps in
    record {
      old = b.old ++ pre;
      parts =
          b.parts
          ∙ ap (λ xs. b.old ++ xs) parts
          ∙ sym (append_assoc b.old pre (pop_old l.window now l.stamps));
      past = All-append (λ t. t + l.window < now) b.old pre b'.past past;
      within = omega (arith, length-pop_old l.window now l.stamps, b.within);
    }

added-Bounds :
    (l : Limiter) (now : ℕ) (h : List ℕ)
    → length l.stamps < l.max_lines
    → Bounds l now h
    → Bounds (record l { stamps = l.stamps ++ now ∷ [] }) now (h ++ now ∷ [])
added-Bounds l now h room b = record {
  old = b.old;
  parts = ap (λ xs. xs ++ now ∷ []) b.parts ∙ append_assoc b.old l.stamps (now ∷ []);
  past = b.past;
  within = omega (arith, length-append l.stamps (now ∷ []), room);
}

run-Bounds :
    (ts : List ℕ) (l : Limiter) (lo hi : ℕ) (h : List ℕ)
    → Rising lo ts hi
    → Bounds l lo h
    → Bounds (run ts l).0 hi (h ++ (run ts l).1)
unfolding run allow
run-Bounds [] l lo hi h le b =
    subst (Bounds l hi) (sym (append-nil h)) (later-Bounds l lo hi h le b)
run-Bounds (t ∷ ts) l lo hi h (le, rising) b =
    let kept = pop_old l.window t l.stamps in
    let p = pruned-Bounds l lo t h le b in
    elim (Bool-cases (leb l.max_lines (length kept))) [
      | inl full ↦ rw (full) (
          run-Bounds ts (record l { stamps = kept; dropped = suc l.dropped }) t hi h rising
            (record { old = p.old; parts = p.parts; past = p.past; within = p.within }))
      | inr room ↦
          let l' = record l { stamps = kept ++ t ∷ [] } in
          rw (room) (
            subst (Bounds (run ts l').0 hi) (append_assoc h (t ∷ []) (run ts l').1) (
              run-Bounds ts l' t hi (h ++ t ∷ []) rising
                (added-Bounds (record l { stamps = kept }) t h (ground (arith, room)) p)))
    ]

run-same :
    (ts : List ℕ) (l : Limiter)
    → ((run ts l).0.window ≡ l.window) × ((run ts l).0.max_lines ≡ l.max_lines)
unfolding run allow
run-same [] l = (refl, refl)
run-same (t ∷ ts) l = let (w, m) = run-same ts (allow t l).0 in (w ∙ ground arith, m ∙ ground arith)

recent-Bounds :
    (l : Limiter) (now : ℕ) (h : List ℕ)
    → Bounds l now h
    → length (recent l.window now h) ≤ l.max_lines
recent-Bounds l now h b =
    let e : recent l.window now h ≡ recent l.window now l.stamps =
      ap (recent l.window now) b.parts ∙ past-recent l.window now b.old l.stamps b.past in
    omega (arith, ap length e, length-recent l.window now l.stamps, b.within)

-- However `allow` is called at times that rise, at most `max_lines` of the calls that it allows lie
-- within the window that ends at the last call, or at any later time.
pub length-recent-run :
    (max_lines window hi : ℕ) (ts : List ℕ)
    → Rising 0 ts hi
    → length (recent window hi (run ts (new_limiter max_lines window)).1) ≤ max_lines
unfolding new_limiter
length-recent-run max_lines window hi ts rising =
    let l = new_limiter max_lines window in
    let start : Bounds l 0 [] = record {
      old = [];
      parts = refl;
      past = tt;
      within = omega arith;
    } in
    let b = run-Bounds ts l 0 hi [] rising start in
    let (w, m) = run-same ts l in
    let bound = recent-Bounds (run ts l).0 hi (run ts l).1 b in
    omega (arith, bound, m, ap (λ v. length (recent v hi (run ts l).1)) w)
