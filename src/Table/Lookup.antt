-- ===== src/Table/Lookup.antt =====
-- Laws of the table's dictionary, and of what the table's methods do to one session.
use blemees_daemon.Prelude.{
  suc, ◌≤◌, ◌≡◌, refl, inl, inr, none, some, List, [], ◌∷◌, String, str_eq, eq_iff, arith, length,
  if◌then◌else◌, Bool-cases,
}
use blemees_daemon.Table.{find, put, discard}

module _ {ℓ} {A : Type ℓ} where
  pub find-put :
      (k j : String) (a : A) (d : List (String × A))
      → find j (put k a d) ≡ (if str_eq k j then some a else find j d)
  unfolding find put
  find-put k j a [] = refl
  find-put k j a ((i, b) ∷ d) = ground (arith, eq_iff k j, eq_iff i k, eq_iff i j, find-put k j a d)

  pub find-discard :
      (k j : String) (d : List (String × A))
      → find j (discard k d) ≡ (if str_eq k j then none else find j d)
  unfolding find discard
  find-discard k j [] = ground arith
  find-discard k j ((i, b) ∷ d) =
      ground (arith, eq_iff k j, eq_iff i k, eq_iff i j, find-discard k j d)

  pub length-discard : (k : String) (d : List (String × A)) → length (discard k d) ≤ length d
  unfolding discard
  length-discard k [] = omega arith
  length-discard k ((i, b) ∷ d) = ground (arith, length-discard k d)

  pub length-put_new :
      (k : String) (a : A) (d : List (String × A))
      → find k d ≡ none
      → length (put k a d) ≡ suc (length d)
  unfolding find put
  length-put_new k a [] h = refl
  length-put_new k a ((i, b) ∷ d) h = ground (arith, length-put_new k a d)

  pub length-put_old :
      (k : String) (a b : A) (d : List (String × A))
      → find k d ≡ some b
      → length (put k a d) ≡ length d
  unfolding find put
  length-put_old k a b [] h = cc
  length-put_old k a b ((i, c) ∷ d) h = ground (arith, length-put_old k a b d)

  -- The keys of a list are different.
  abbrev pub Distinct : List (String × A) → Type ℓ
  Distinct [] = Unit
  Distinct ((k, a) ∷ d) = (find k d ≡ none) × Distinct d

  pub put-Distinct :
      (k : String) (a : A) (d : List (String × A)) → Distinct d → Distinct (put k a d)
  unfolding find put
  put-Distinct k a [] h = (refl, tt)
  put-Distinct k a ((i, b) ∷ d) h = elim (Bool-cases (str_eq i k)) [
    | inl e ↦ rw (e, put) h
    | inr e ↦
        rw (e, put)
          (ground (arith, find-put k i a d, eq_iff k i, eq_iff i k), put-Distinct k a d h.1)
  ]

  pub discard-Distinct : (k : String) (d : List (String × A)) → Distinct d → Distinct (discard k d)
  unfolding find discard
  discard-Distinct k [] h = tt
  discard-Distinct k ((i, b) ∷ d) h = elim (Bool-cases (str_eq i k)) [
    | inl e ↦ rw (e, discard) (discard-Distinct k d h.1)
    | inr e ↦ rw (e, discard) (ground (arith, find-discard k i d, h.0), discard-Distinct k d h.1)
  ]
