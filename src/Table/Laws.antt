-- ===== src/Table/Laws.antt =====
-- Laws of the table statements that the components share.
use secure_messenger_lab.Prelude.{
  ◌≡◌, refl, Bool, true, false, none, some, List, [], ◌∷◌, ◌++◌, arith, All, ◌⊎◌, inl, inr,
  Bool-cases,
}
use secure_messenger_lab.Table.{select_where, delete_where, find_where, exists_where}

module _ {ℓ} {A : Type ℓ} (p : A → Bool) where
  -- What every row has, every row that a DELETE leaves has.
  pub All-delete_where {κ} : (P : A → Type κ) (xs : List A) → All P xs → All P (delete_where p xs)
  unfolding delete_where
  All-delete_where P [] h = tt
  All-delete_where P (x ∷ xs) h = elim (Bool-cases (p x)) [
    | inl e ↦ rw e (All-delete_where P xs h.1)
    | inr e ↦ rw e (h.0, All-delete_where P xs h.1)
  ]

  -- No row that a DELETE leaves meets its clause.
  pub delete_where-All : (xs : List A) → All (λ x. p x ≡ false) (delete_where p xs)
  unfolding delete_where
  delete_where-All [] = tt
  delete_where-All (x ∷ xs) = elim (Bool-cases (p x)) [
    | inl e ↦ rw e (delete_where-All xs)
    | inr e ↦ rw e (e, delete_where-All xs)
  ]

  -- Every row that a SELECT returns meets its clause, and has what every row has.
  pub select_where-All : (xs : List A) → All (λ x. p x ≡ true) (select_where p xs)
  unfolding select_where
  select_where-All [] = tt
  select_where-All (x ∷ xs) = elim (Bool-cases (p x)) [
    | inl e ↦ rw e (e, select_where-All xs)
    | inr e ↦ rw e (select_where-All xs)
  ]

  pub All-select_where {κ} : (P : A → Type κ) (xs : List A) → All P xs → All P (select_where p xs)
  unfolding select_where
  All-select_where P [] h = tt
  All-select_where P (x ∷ xs) h = elim (Bool-cases (p x)) [
    | inl e ↦ rw e (h.0, All-select_where P xs h.1)
    | inr e ↦ rw e (All-select_where P xs h.1)
  ]

  pub find_where-some : (xs : List A) {x : A} → find_where p xs ≡ some x → p x ≡ true
  unfolding find_where
  find_where-some [] e = ground arith
  find_where-some (y ∷ xs) {x} e = ground (arith, find_where-some xs {x = x})

  pub All-find_where {κ} :
      (P : A → Type κ) (xs : List A) {x : A} → All P xs → find_where p xs ≡ some x → P x
  unfolding find_where
  All-find_where P [] h e = absurd (ground arith)
  All-find_where P (y ∷ xs) {x} h e = elim (Bool-cases (p y)) [
    | inl t ↦ ground (arith, h.0)
    | inr t ↦ All-find_where P xs h.1 (rw t at e)
  ]

  pub find_where-none : (xs : List A) → All (λ x. p x ≡ false) xs → find_where p xs ≡ none
  unfolding find_where
  find_where-none [] h = refl
  find_where-none (x ∷ xs) h = rw h.0 (find_where-none xs h.1)

  pub exists_where-none : (xs : List A) → All (λ x. p x ≡ false) xs → exists_where p xs ≡ false
  unfolding exists_where
  exists_where-none [] h = refl
  exists_where-none (x ∷ xs) h = rw h.0 (exists_where-none xs h.1)

  pub exists_where-false : (xs : List A) → exists_where p xs ≡ false → All (λ x. p x ≡ false) xs
  unfolding exists_where
  exists_where-false [] h = tt
  exists_where-false (x ∷ xs) h = elim (Bool-cases (p x)) [
    | inl e ↦ absurd (ground arith)
    | inr e ↦ (e, exists_where-false xs (rw e at h))
  ]

  pub find_where-All-none : (xs : List A) → find_where p xs ≡ none → All (λ x. p x ≡ false) xs
  unfolding find_where
  find_where-All-none [] h = tt
  find_where-All-none (x ∷ xs) h = elim (Bool-cases (p x)) [
    | inl e ↦ absurd (ground arith)
    | inr e ↦ (e, find_where-All-none xs (rw e at h))
  ]

  -- A DELETE whose clause no row meets leaves the table as it was.
  pub delete_where-none : (xs : List A) → All (λ x. p x ≡ false) xs → delete_where p xs ≡ xs
  unfolding delete_where
  delete_where-none [] h = refl
  delete_where-none (x ∷ xs) h = rw (h.0, delete_where-none xs h.1)

  pub find_where-append :
      (xs ys : List A) → find_where p xs ≡ none → find_where p (xs ++ ys) ≡ find_where p ys
  unfolding find_where
  find_where-append [] ys h = refl
  find_where-append (x ∷ xs) ys h = ground (arith, find_where-append xs ys)

  pub find_where-append_some :
      (xs ys : List A) {x : A} → find_where p xs ≡ some x → find_where p (xs ++ ys) ≡ some x
  unfolding find_where
  find_where-append_some [] ys h = absurd (ground arith)
  find_where-append_some (y ∷ xs) ys {x} h = ground (arith, find_where-append_some xs ys {x = x})

  pub exists_where-append :
      (xs ys : List A) → exists_where p xs ≡ true → exists_where p (xs ++ ys) ≡ true
  unfolding exists_where
  exists_where-append [] ys h = absurd (ground arith)
  exists_where-append (x ∷ xs) ys h = ground (arith, exists_where-append xs ys)

  pub exists_where-append_other :
      (xs : List A) (x : A) → p x ≡ false → exists_where p (xs ++ x ∷ []) ≡ exists_where p xs
  unfolding exists_where
  exists_where-append_other [] x h = ground (arith, h)
  exists_where-append_other (y ∷ xs) x h = ground (arith, h, exists_where-append_other xs x)

  pub exists_where-append_right :
      (xs ys : List A) → exists_where p ys ≡ true → exists_where p (xs ++ ys) ≡ true
  unfolding exists_where
  exists_where-append_right [] ys h = h
  exists_where-append_right (x ∷ xs) ys h = ground (arith, exists_where-append_right xs ys)

  pub delete_where_everything : (xs : List A) → All (λ x. p x ≡ true) xs → delete_where p xs ≡ []
  unfolding delete_where
  delete_where_everything [] h = refl
  delete_where_everything (x ∷ xs) h = rw h.0 (delete_where_everything xs h.1)

  -- A primary key that finds no row does not exist.
  pub exists_where-find_none : (xs : List A) → find_where p xs ≡ none → exists_where p xs ≡ false
  unfolding find_where exists_where
  exists_where-find_none [] h = refl
  exists_where-find_none (x ∷ xs) h = ground (arith, exists_where-find_none xs)

  pub exists_where-find_some :
      (xs : List A) {x : A} → find_where p xs ≡ some x → exists_where p xs ≡ true
  unfolding find_where exists_where
  exists_where-find_some [] h = absurd (ground arith)
  exists_where-find_some (y ∷ ys) {x} h = ground (arith, exists_where-find_some ys {x = x})

  pub select_where-append :
      (xs ys : List A) → select_where p (xs ++ ys) ≡ select_where p xs ++ select_where p ys
  unfolding select_where
  select_where-append [] ys = refl
  select_where-append (x ∷ xs) ys = ground (arith, select_where-append xs ys)

  -- What a clause does not find, it does not find after a DELETE.
  pub find_none-delete_where :
      (q : A → Bool) (xs : List A)
      → find_where p xs ≡ none
      → find_where p (delete_where q xs) ≡ none
  unfolding find_where delete_where
  find_none-delete_where q [] h = refl
  find_none-delete_where q (x ∷ xs) h = ground (arith, find_none-delete_where q xs)

  pub exists_false-delete_where :
      (q : A → Bool) (xs : List A)
      → exists_where p xs ≡ false
      → exists_where p (delete_where q xs) ≡ false
  unfolding exists_where delete_where
  exists_false-delete_where q [] h = refl
  exists_false-delete_where q (x ∷ xs) h = ground (arith, exists_false-delete_where q xs)

  pub delete_where-append :
      (xs ys : List A) → delete_where p (xs ++ ys) ≡ delete_where p xs ++ delete_where p ys
  unfolding delete_where
  delete_where-append [] ys = refl
  delete_where-append (x ∷ xs) ys = ground (arith, delete_where-append xs ys)

module _ {ℓ} {A : Type ℓ} (p q : A → Bool) where
  -- A DELETE that spares the rows of another clause does not change what that clause finds.
  pub find_where-delete_where :
      (xs : List A)
      → All (λ x. (q x ≡ false) ⊎ (p x ≡ false)) xs
      → find_where q (delete_where p xs) ≡ find_where q xs
  unfolding find_where delete_where
  find_where-delete_where [] h = refl
  find_where-delete_where (x ∷ xs) h = ground (arith, h.0, find_where-delete_where xs h.1)

  pub exists_where-delete_where :
      (xs : List A)
      → All (λ x. (q x ≡ false) ⊎ (p x ≡ false)) xs
      → exists_where q (delete_where p xs) ≡ exists_where q xs
  unfolding exists_where delete_where
  exists_where-delete_where [] h = refl
  exists_where-delete_where (x ∷ xs) h = ground (arith, h.0, exists_where-delete_where xs h.1)

  -- A SELECT finds the same rows after a DELETE that spares them.
  pub select_where-delete_where :
      (xs : List A)
      → All (λ x. (q x ≡ false) ⊎ (p x ≡ false)) xs
      → select_where q (delete_where p xs) ≡ select_where q xs
  unfolding select_where delete_where
  select_where-delete_where [] h = refl
  select_where-delete_where (x ∷ xs) h = ground (arith, h.0, select_where-delete_where xs h.1)

  -- The row that a clause finds first is still found after a DELETE that spares that row.
  pub find_where-spared :
      (xs : List A) {x : A}
      → find_where q xs ≡ some x
      → p x ≡ false
      → find_where q (delete_where p xs) ≡ some x
  unfolding find_where delete_where
  find_where-spared [] h k = absurd (ground arith)
  find_where-spared (y ∷ ys) {x} h k = ground (arith, find_where-spared ys {x = x})

  -- A DELETE that deletes what an earlier one deleted, and more, makes the earlier one redundant.
  -- What a clause finds, a wider one finds.
  pub exists_where-weaken :
      ((x : A) → p x ≡ true → q x ≡ true)
      → (xs : List A) → exists_where p xs ≡ true
      → exists_where q xs ≡ true
  unfolding exists_where
  exists_where-weaken wider [] h = absurd (ground arith)
  exists_where-weaken wider (x ∷ xs) h = ground (arith, h, wider x, exists_where-weaken wider xs)

  pub delete_where-again :
      ((x : A) → p x ≡ true → q x ≡ true)
      → (xs : List A) → delete_where q (delete_where p xs) ≡ delete_where q xs
  unfolding delete_where
  delete_where-again wider [] = refl
  delete_where-again wider (x ∷ xs) = ground (arith, wider x, delete_where-again wider xs)
