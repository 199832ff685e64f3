-- ===== src/Persistence/Header.antt =====
-- The sealed envelope: its associated data determine the header, and what is sealed opens.
use secure_messenger_lab.Prelude.{
  ℕ, ◌≤◌, ◌<◌, ◌≡◌, sym, ◌∙◌, true, some, [], arith, length, Option-cases, inl, inr,
}
use secure_messenger_lab.Errors.{ok, Result-cases}
use secure_messenger_lab.Bytes.{Bytes, i64_max}
use secure_messenger_lab.Bytes.Laws.{to_be_bytes_injective}
use secure_messenger_lab.Encoding.Injective.{frames_injective, try_append_parts-frames}
use secure_messenger_lab.Crypto.{Crypto}
use secure_messenger_lab.Persistence.Envelope.{
  Aead, AeadLaws, ProfileBinding, max_ciphertext_bytes, max_plaintext_bytes, max_wrapped_dek_bytes,
  validate_header, header_parts, aad, seal_state, open_state,
}

-- Two headers of any bindings, generations below 2^63 and wrapped keys that have the same
-- associated data have the same binding, the same generation and wrapped keys of one SHA-256.
pub aad_injective :
    (c : Crypto) (x y : ProfileBinding) (g h : ℕ) (v w : Bytes) {header : Bytes}
    → g ≤ i64_max
    → h ≤ i64_max
    → aad c x g v ≡ ok header
    → aad c y h w ≡ ok header
    → (x.profile_id ≡ y.profile_id) × (x.key_ref ≡ y.key_ref) × (g ≡ h) × (c.sha256 v ≡ c.sha256 w)
unfolding aad header_parts
aad_injective c x y g h v w small small' e f =
    let (fits, shape) = try_append_parts-frames [] (header_parts c x g v) e in
    let (fits', shape') = try_append_parts-frames [] (header_parts c y h w) f in
    let same =
      frames_injective 4 (header_parts c x g v) (header_parts c y h w) (omega arith) fits fits'
        (sym shape ∙ shape') in
    (cc same, cc same, to_be_bytes_injective 8 g h (omega arith) (omega arith) (cc same), cc same)

-- What `seal` does when it succeeds.
pub seal_state-ok :
    (c : Crypto) (a : Aead) (binding : ProfileBinding) (generation : ℕ)
    (wrapped dek nonce plain : Bytes) {sealed : Bytes}
    → seal_state c a binding generation wrapped dek nonce plain ≡ ok sealed
    → (0 < generation)
      × (generation ≤ i64_max)
      × (0 < length wrapped)
      × (length wrapped ≤ max_wrapped_dek_bytes)
      × (length plain ≤ max_plaintext_bytes)
      × (length sealed ≤ max_ciphertext_bytes)
      × (a.takes_key dek ≡ true)
      × ((header : Bytes) × (aad c binding generation wrapped ≡ ok header)
          × (a.encrypt dek nonce plain header ≡ some sealed))
unfolding seal_state validate_header
seal_state-ok c a binding generation wrapped dek nonce plain {sealed} e =
    elim (Result-cases (aad c binding generation wrapped)) [
      | inr (x, refused) ↦ absurd (ground arith)
      | inl (header, built) ↦ elim (Option-cases (a.encrypt dek nonce plain header)) [
        | inl failed ↦ absurd (ground arith)
        | inr (ciphertext, encrypted) ↦
            let same : ciphertext ≡ sealed = ground arith in
            (
              ground arith,
              ground arith,
              ground arith,
              ground arith,
              ground arith,
              ground arith,
              ground arith,
              (header, built, cc (encrypted, same)),
            )
      ]
    ]

-- Under the laws of the cipher, a generation that `seal` has sealed opens to the sealed state with
-- the same binding, generation, wrapped key, key and nonce.
pub open_state-seal_state :
    (c : Crypto) (a : Aead) (laws : AeadLaws a) (binding : ProfileBinding) (generation : ℕ)
    (wrapped dek nonce plain sealed : Bytes)
    → seal_state c a binding generation wrapped dek nonce plain ≡ ok sealed
    → open_state c a binding generation wrapped dek nonce sealed ≡ ok plain
unfolding open_state validate_header
open_state-seal_state c a laws binding generation wrapped dek nonce plain sealed e =
    let (
      positive,
      small,
      some_key,
      short_key,
      short_plain,
      short,
      takes,
      (header, built, encrypted),
    ) =
      seal_state-ok c a binding generation wrapped dek nonce plain e in
    let longer = laws.length_encrypt dek nonce plain header sealed encrypted in
    let decrypted = laws.decrypt_encrypt dek nonce plain header sealed encrypted in
    ground (
      arith, positive, small, some_key, short_key, short_plain, short, takes, built, longer,
      decrypted,
    )
