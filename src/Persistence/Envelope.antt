-- ===== src/Persistence/Envelope.antt =====
-- src/persistence/envelope.rs and `ProfileBinding` of src/persistence/protector.rs: one sealed
-- generation of the client state.
use secure_messenger_lab.Prelude.{
  ℕ, ◌+◌, ◌-◌, ◌*◌, ◌≡◌, Bool, Option, some, List, [], ◌∷◌, ◌||◌, ltb, ◌==◌, not, length,
}
use secure_messenger_lab.Errors.{Result, ok, storage, ◌>>=◌, ◌>>◌, reject_if}
use secure_messenger_lab.Bytes.{Bytes, ascii, to_be_bytes, i64_max}
use secure_messenger_lab.Encoding.{protocol_domain, try_append_parts}
use secure_messenger_lab.Crypto.{Crypto}
use secure_messenger_lab.Sqlite.{or_storage}

-- XChaCha20-Poly1305 of the crate chacha20poly1305, as a parameter.
pub record Aead : Type 0 where
  -- whether `new_from_slice` takes the key
  pub takes_key : Bytes → Bool
  -- key, nonce, message or ciphertext, associated data
  pub encrypt : Bytes → Bytes → Bytes → Bytes → Option Bytes
  pub decrypt : Bytes → Bytes → Bytes → Bytes → Option Bytes

-- Documented behaviour: decryption under the same key, nonce and associated data inverts
-- encryption, and the tag takes 16 bytes.
pub record AeadLaws (a : Aead) : Type 0 where
  pub decrypt_encrypt :
      (key nonce plain aad sealed : Bytes)
      → a.encrypt key nonce plain aad ≡ some sealed
      → a.decrypt key nonce sealed aad ≡ some plain
  pub length_encrypt :
      (key nonce plain aad sealed : Bytes)
      → a.encrypt key nonce plain aad ≡ some sealed
      → length sealed ≡ length plain + 16

pub record ProfileBinding : Type 0 where
  pub profile_id : Bytes
  pub key_ref : Bytes

abbrev pub envelope_version : ℕ
envelope_version = 1

abbrev pub crypto_suite : ℕ
crypto_suite = 1

abbrev pub state_schema_version : ℕ
state_schema_version = 1

abbrev pub max_ciphertext_bytes : ℕ
max_ciphertext_bytes = 8 * 1024 * 1024

abbrev pub nonce_bytes : ℕ
nonce_bytes = 24

abbrev pub max_plaintext_bytes : ℕ
max_plaintext_bytes = max_ciphertext_bytes - 16

abbrev pub max_wrapped_dek_bytes : ℕ
max_wrapped_dek_bytes = 8192

abbrev pub state_domain : Bytes
state_domain = ascii "secure-messenger-lab/client-state"

abbrev pub vodozemac_version : Bytes
vodozemac_version = ascii "0.10.0"

unfoldable pub validate_header : ℕ → Bytes → ℕ → Result (Unit {0})
validate_header generation wrapped_dek plaintext_len =
    reject_if
      ((generation == 0)
        || (ltb i64_max generation
            || ((length wrapped_dek == 0)
                || (ltb max_wrapped_dek_bytes (length wrapped_dek)
                    || ltb max_plaintext_bytes plaintext_len))))
      storage

-- The parts that `aad` appends.
unfoldable pub header_parts : Crypto → ProfileBinding → ℕ → Bytes → List Bytes
header_parts c binding generation wrapped_dek =
    state_domain
    ∷ to_be_bytes 8 envelope_version
    ∷ to_be_bytes 8 crypto_suite
    ∷ binding.profile_id
    ∷ to_be_bytes 8 generation
    ∷ binding.key_ref
    ∷ c.sha256 wrapped_dek
    ∷ protocol_domain
    ∷ vodozemac_version
    ∷ to_be_bytes 8 state_schema_version
    ∷ []

unfoldable pub aad : Crypto → ProfileBinding → ℕ → Bytes → Result Bytes
aad c binding generation wrapped_dek =
    try_append_parts [] (header_parts c binding generation wrapped_dek)

module _ (c : Crypto) (a : Aead) where
  -- `seal`
  unfoldable pub seal_state : ProfileBinding → ℕ → Bytes → Bytes → Bytes → Bytes → Result Bytes
  seal_state binding generation wrapped_dek dek nonce plaintext = do
    validate_header generation wrapped_dek (length plaintext)
    header ← aad c binding generation wrapped_dek
    reject_if (not (a.takes_key dek)) storage
    ciphertext ← or_storage (a.encrypt dek nonce plaintext header)
    reject_if (ltb max_ciphertext_bytes (length ciphertext)) storage
    ok ciphertext

  -- `open`
  unfoldable pub open_state : ProfileBinding → ℕ → Bytes → Bytes → Bytes → Bytes → Result Bytes
  open_state binding generation wrapped_dek dek nonce ciphertext = do
    reject_if (ltb (length ciphertext) 16 || ltb max_ciphertext_bytes (length ciphertext)) storage
    validate_header generation wrapped_dek (length ciphertext - 16)
    header ← aad c binding generation wrapped_dek
    reject_if (not (a.takes_key dek)) storage
    or_storage (a.decrypt dek nonce ciphertext header)
