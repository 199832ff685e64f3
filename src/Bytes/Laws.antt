-- ===== src/Bytes/Laws.antt =====
-- Laws of byte strings: comparison decides equality, and fixed-width integers are injective.
use native.Mathlib.Nat.{pow-suc}
use secure_messenger_lab.Prelude.{
  ℕ, zero, suc, ◌+◌, ◌/◌, ◌%◌, ◌^◌, ◌<◌, ◌≤◌, ◌≡◌, refl, ◌↔◌, true, some, [], ◌∷◌, ◌++◌, arith,
  length, length-append,
}
use secure_messenger_lab.Bytes.{Bytes, bytes_eq, from_slice, to_be_bytes, saturating_add, u64_max}

pub bytes_eq-true : (xs ys : Bytes) → bytes_eq xs ys ≡ true → xs ≡ ys
unfolding bytes_eq
bytes_eq-true [] [] h = refl
bytes_eq-true [] (y ∷ ys) h = absurd (ground arith)
bytes_eq-true (x ∷ xs) [] h = absurd (ground arith)
bytes_eq-true (x ∷ xs) (y ∷ ys) h = ground (arith, bytes_eq-true xs ys)

pub bytes_eq_refl : (xs : Bytes) → bytes_eq xs xs ≡ true
unfolding bytes_eq
bytes_eq_refl [] = refl
bytes_eq_refl (x ∷ xs) = ground (arith, bytes_eq_refl xs)

pub bytes_eq_iff : (xs ys : Bytes) → (bytes_eq xs ys ≡ true) ↔ (xs ≡ ys)
bytes_eq_iff xs ys = (bytes_eq-true xs ys, λ e. ground (arith, bytes_eq_refl xs))

pub from_slice-length :
    (size : ℕ) (v : Bytes) {w : Bytes} → from_slice size v ≡ some w → (w ≡ v) × (length v ≡ size)
unfolding from_slice
from_slice-length size v h = ground arith

pub from_slice_array : (size : ℕ) (v : Bytes) → length v ≡ size → from_slice size v ≡ some v
unfolding from_slice
from_slice_array size v h = ground arith

pub length-to_be_bytes : (w n : ℕ) → length (to_be_bytes w n) ≡ w
unfolding to_be_bytes
length-to_be_bytes zero n = refl
length-to_be_bytes (suc w) n =
    omega (
      arith,
      length-append (to_be_bytes w (n / 256)) (n % 256 ∷ []),
      length-to_be_bytes w (n / 256),
    )

-- Equal concatenations of parts of equal length have equal parts.
pub append_injective :
    (xs ys r s : Bytes) → length xs ≡ length ys → xs ++ r ≡ ys ++ s → (xs ≡ ys) × (r ≡ s)
append_injective [] [] r s l e = (refl, e)
append_injective [] (y ∷ ys) r s l e = absurd (omega arith)
append_injective (x ∷ xs) [] r s l e = absurd (omega arith)
append_injective (x ∷ xs) (y ∷ ys) r s l e = ground (arith, append_injective xs ys r s)

pub to_be_bytes_injective :
    (w n m : ℕ) → n < 256 ^ w → m < 256 ^ w → to_be_bytes w n ≡ to_be_bytes w m → n ≡ m
unfolding to_be_bytes
to_be_bytes_injective zero n m hn hm e = omega arith
to_be_bytes_injective (suc w) n m hn hm e =
    let lengths : length (to_be_bytes w (n / 256)) ≡ length (to_be_bytes w (m / 256)) =
      omega (arith, length-to_be_bytes w (n / 256), length-to_be_bytes w (m / 256)) in
    let parts = append_injective _ _ _ _ lengths e in
    let high : n / 256 ≡ m / 256 =
      to_be_bytes_injective w (n / 256) (m / 256) (omega (arith, pow-suc 256 w))
        (omega (arith, pow-suc 256 w)) parts.0 in
    let low : n % 256 ≡ m % 256 = ground (arith, parts.1) in omega arith

pub saturating_add_bounds :
    (a b : ℕ) → (saturating_add a b ≤ u64_max) × (saturating_add a b ≤ a + b)
unfolding saturating_add
saturating_add_bounds a b = ground arith
