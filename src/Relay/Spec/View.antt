-- ===== src/Relay/Spec/View.antt =====
-- What the statements of the handlers do to the queue that the tables hold.
use secure_messenger_lab.Prelude.{
  ℕ, ◌≡◌, refl, ap, true, false, Bool, none, some, List, [], ◌∷◌, ◌++◌, arith, ◌⊎◌, inl, inr,
  Bool-cases, subst, sym,
}
use secure_messenger_lab.Bytes.{Bytes, bytes_eq}
use secure_messenger_lab.Bytes.Laws.{bytes_eq_iff}
use secure_messenger_lab.Crypto.{Crypto}
use secure_messenger_lab.Table.{select_where, find_where, delete_where}
use secure_messenger_lab.Relay.Store.{Tables}
use secure_messenger_lab.Relay.Sql.{message_expired}
use secure_messenger_lab.Relay.Success.{purged}
use secure_messenger_lab.Relay.Spec.{is_of, queue_of}

module _ {ℓ} {A : Type ℓ} (p q : A → Bool) where
  -- A SELECT after a DELETE is a DELETE after the SELECT.
  pub select_where-delete_comm :
      (xs : List A) → select_where p (delete_where q xs) ≡ delete_where q (select_where p xs)
  unfolding select_where delete_where
  select_where-delete_comm [] = refl
  select_where-delete_comm (x ∷ xs) = ground (arith, select_where-delete_comm xs)

  -- A primary key that implies the clause of a SELECT is found among what it selects.
  pub find_where-select_where :
      ((x : A) → p x ≡ true → q x ≡ true)
      → (xs : List A) → find_where p (select_where q xs) ≡ find_where p xs
  unfolding find_where select_where
  find_where-select_where wider [] = refl
  find_where-select_where wider (x ∷ xs) = ground (arith, wider x, find_where-select_where wider xs)

module _ {ℓ} {A : Type ℓ} (p : A → Bool) where
  pub find_where-append_other :
      (xs : List A) (x : A) → p x ≡ false → find_where p (xs ++ x ∷ []) ≡ find_where p xs
  unfolding find_where
  find_where-append_other [] x h = ground (arith, h)
  find_where-append_other (y ∷ xs) x h = ground (arith, find_where-append_other xs x h)

  pub find_where-append_one :
      (xs : List A) (x : A)
      → find_where p xs ≡ none
      → p x ≡ true
      → find_where p (xs ++ x ∷ []) ≡ some x
  unfolding find_where
  find_where-append_one [] x h k = ground (arith, k)
  find_where-append_one (y ∷ xs) x h k = ground (arith, h, k, find_where-append_one xs x)

  pub find_where-delete_same : (xs : List A) → find_where p (delete_where p xs) ≡ none
  unfolding find_where delete_where
  find_where-delete_same [] = refl
  find_where-delete_same (x ∷ xs) = ground (arith, find_where-delete_same xs)

  pub select_where-append_one :
      (xs : List A) (x : A)
      → p x ≡ true
      → select_where p (xs ++ x ∷ []) ≡ select_where p xs ++ x ∷ []
  unfolding select_where
  select_where-append_one [] x h = ground (arith, h)
  select_where-append_one (y ∷ xs) x h = ground (arith, select_where-append_one xs x h)

  pub select_where-append_other :
      (xs : List A) (x : A) → p x ≡ false → select_where p (xs ++ x ∷ []) ≡ select_where p xs
  unfolding select_where
  select_where-append_other [] x h = ground (arith, h)
  select_where-append_other (y ∷ xs) x h = ground (arith, select_where-append_other xs x h)

  pub select_where-delete_same : (xs : List A) → select_where p (delete_where p xs) ≡ []
  unfolding select_where delete_where
  select_where-delete_same [] = refl
  select_where-delete_same (x ∷ xs) = ground (arith, select_where-delete_same xs)

module _ (c : Crypto) (queue_id : Bytes) where
  -- The sweep of the tables is the sweep of the queue.
  pub queue_of-purged :
      (now : ℕ) (t : Tables)
      → queue_of c queue_id (purged now t) ≡ record (queue_of c queue_id t) {
        messages = delete_where (message_expired now) (queue_of c queue_id t).messages;
      }
  queue_of-purged now t =
      ap (λ ms. record (queue_of c queue_id t) { messages = ms })
        (select_where-delete_comm (is_of queue_id) (message_expired now) t.messages)

-- A row of one queue is no row of another.
pub of_one_queue :
    (queue other id : Bytes)
    → bytes_eq other queue ≡ false
    → (bytes_eq id queue ≡ false) ⊎ (bytes_eq id other ≡ false)
of_one_queue queue other id differ = elim (Bool-cases (bytes_eq id other)) [
  | inr outside ↦ inr outside
  | inl inside ↦
      inl (subst (λ x. bytes_eq x queue ≡ false) (sym ((bytes_eq_iff id other).0 inside)) differ)
]
