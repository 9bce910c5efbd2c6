-- ===== src/EventLog/Ring.antt =====
-- The ring holds the last frames, and `since` picks those after a number.
use blemees_daemon.Prelude.{
  ℕ, zero, suc, ◌+◌, ◌-◌, ◌≤◌, ◌<◌, ◌≡◌, refl, sym, ap, ◌∙◌, List, [], ◌∷◌, ◌++◌, arith, length,
  drop, take_right, length-append, length-drop,
}
use mathlib.Core.List.{append-nil, append_assoc}
use blemees_daemon.EventLog.{Frame, RingBuffer, new_ring, append, extend}

pub record IsBounded (r : RingBuffer) : Type 0 where
  pub positive : 0 < r.capacity
  pub bounded : length r.buf ≤ r.capacity

pub new_ring-IsBounded : (n : ℕ) → IsBounded (new_ring n)
unfolding new_ring
new_ring-IsBounded n = record { positive = omega arith; bounded = omega arith }

pub append-IsBounded : (r : RingBuffer) (f : Frame) → IsBounded r → IsBounded (append r f)
unfolding append
append-IsBounded r f h = record {
  positive = h.positive;
  bounded = omega (
    arith,
    length-drop (length (r.buf ++ f ∷ []) - r.capacity) (r.buf ++ f ∷ []),
    h.positive,
    h.bounded,
  );
}

drop-append {ℓ} :
    {A : Type ℓ} (n : ℕ) (xs ys : List A) → n ≤ length xs → drop n (xs ++ ys) ≡ drop n xs ++ ys
drop-append zero xs ys h = refl
drop-append (suc n) [] ys h = absurd (omega arith)
drop-append (suc n) (x ∷ xs) ys h = drop-append n xs ys (omega arith)

pub drop-nil {ℓ} : {A : Type ℓ} (n : ℕ) → drop {A = A} n [] ≡ []
drop-nil zero = refl
drop-nil (suc n) = refl

pub drop-drop {ℓ} : {A : Type ℓ} (m n : ℕ) (xs : List A) → drop m (drop n xs) ≡ drop (n + m) xs
drop-drop m zero xs = ap (λ k. drop k xs) {x = m} {y = 0 + m} (omega arith)
drop-drop m (suc n) [] = drop-nil m ∙ sym (drop-nil (suc n + m))
drop-drop m (suc n) (x ∷ xs) =
    drop-drop m n xs ∙ ap (λ k. drop k (x ∷ xs)) {x = suc (n + m)} {y = suc n + m} (omega arith)

-- To drop the oldest at once or at the end leaves the same.
pub take_right-append-take_right {ℓ} :
    {A : Type ℓ} (c : ℕ) (xs ys : List A)
    → take_right c (take_right c xs ++ ys) ≡ take_right c (xs ++ ys)
take_right-append-take_right c xs ys =
    ap (take_right c) (sym (drop-append k xs ys (omega arith)))
    ∙ drop-drop (length (drop k (xs ++ ys)) - c) k (xs ++ ys)
    ∙ ap (λ n. drop n (xs ++ ys)) (omega (arith, length-drop k (xs ++ ys), length-append xs ys))
  where
    k : ℕ
    k = length xs - c

-- After any number of appends to a ring that is not over-full, it holds the last `capacity` frames of
-- all that it was given.
pub extend-eq-take_right :
    (r : RingBuffer) (fs : List Frame)
    → length r.buf ≤ r.capacity
    → (extend r fs).buf ≡ take_right r.capacity (r.buf ++ fs)
unfolding extend append
extend-eq-take_right r [] h = sym (
    ap (take_right r.capacity) (append-nil r.buf)
    ∙ ap (λ n. drop n r.buf) {x = length r.buf - r.capacity} {y = 0} (omega arith))
extend-eq-take_right r (f ∷ fs) h =
    extend-eq-take_right (append r f) fs
      (omega (arith, length-drop (length (r.buf ++ f ∷ []) - r.capacity) (r.buf ++ f ∷ [])))
    ∙ take_right-append-take_right r.capacity (r.buf ++ f ∷ []) fs
    ∙ ap (take_right r.capacity) (append_assoc r.buf (f ∷ []) fs)
