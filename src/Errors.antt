-- ===== src/Errors.antt =====
-- src/error.rs: the coarse error values, and results as a monad.
use secure_messenger_lab.Prelude.{◌≡◌, refl, Bool, true, false, ◌⊎◌, inl, inr}

-- `LabError`
pub data LabError : Type 0 where
  missing_session session_already_exists expected_pre_key peer_verification_failed : LabError
  crypto encoding invalid_payload wrong_conversation message_id_mismatch : LabError
  duplicate_message unauthorized request_expired invalid_expiry : LabError
  mailbox_not_found mailbox_conflict message_conflict message_gone message_not_found : LabError
  storage : LabError

-- `Result<T>`
pub data Result {ℓ} (A : Type ℓ) : Type ℓ where
  ok : A → Result A
  err : LabError → Result A

-- `if test { return Err(e) }`
abbrev pub reject_if : Bool → LabError → Result (Unit {0})
reject_if true e = err e
reject_if false e = ok tt

infixl 5 ◌>>=◌
-- The operator `?`.
abbrev pub ◌>>=◌ {ℓ κ} : {A : Type ℓ} {B : Type κ} → Result A → (A → Result B) → Result B
err e >>= next = err e
ok value >>= next = next value

pub Result-cases {ℓ} :
    {A : Type ℓ} (r : Result A) → ((a : A) × (r ≡ ok a)) ⊎ ((e : LabError) × (r ≡ err e))
Result-cases (ok a) = inl (a, refl)
Result-cases (err e) = inr (e, refl)

infixl 5 ◌>>◌
abbrev pub ◌>>◌ {ℓ} : {B : Type ℓ} → Result (Unit {0}) → Result B → Result B
first >> rest = first >>= λ _. rest

-- Inversion of a successful bind.
pub >>=-eq-ok {ℓ κ} :
    {A : Type ℓ} {B : Type κ} (first : Result A) (next : A → Result B) {end : B}
    → (first >>= next) ≡ ok end
    → (a : A) × (first ≡ ok a) × (next a ≡ ok end)
>>=-eq-ok (err x) next h = cc
>>=-eq-ok (ok value) next h = (value, refl, h)
