-- ===== src/Crypto.antt =====
-- The third-party cryptography that the program calls, as a parameter: Ed25519 of vodozemac and
-- SHA-256 of sha2. A key, a signature and a digest stand for their encodings as bytes, so a
-- public key here is the result of its `as_bytes`.
use secure_messenger_lab.Prelude.{◌≡◌, Bool, true, length}
use secure_messenger_lab.Bytes.{Bytes}

pub record Crypto : Type 0 where
  -- `Ed25519Keypair`: the public half of a key pair, and its `sign`
  pub public_key : Bytes → Bytes
  pub sign : Bytes → Bytes → Bytes
  -- `Ed25519PublicKey::verify(message, signature).is_ok()`
  pub verify : Bytes → Bytes → Bytes → Bool
  -- whether `Ed25519PublicKey::from_slice` and `Ed25519Signature::from_slice` take the bytes
  pub is_public_key : Bytes → Bool
  pub is_signature : Bytes → Bool
  -- `Sha256::digest`
  pub sha256 : Bytes → Bytes

-- Documented behaviour of the two libraries: a signature verifies under its own key and message,
-- encodings have their fixed sizes and parse, and a digest has 32 bytes.
pub record Laws (c : Crypto) : Type 0 where
  pub verify_sign : (k m : Bytes) → c.verify (c.public_key k) m (c.sign k m) ≡ true
  pub length_public_key : (k : Bytes) → length (c.public_key k) ≡ 32
  pub length_sign : (k m : Bytes) → length (c.sign k m) ≡ 64
  pub parse_public_key : (k : Bytes) → c.is_public_key (c.public_key k) ≡ true
  pub parse_sign : (k m : Bytes) → c.is_signature (c.sign k m) ≡ true
  pub length_sha256 : (m : Bytes) → length (c.sha256 m) ≡ 32
