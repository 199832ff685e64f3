-- ===== src/Client/PreKeys.antt =====
-- Contact bundles of src/client.rs: `PeerPreKey`, its check and its signed bytes.
use secure_messenger_lab.Prelude.{
  ℕ, ◌+◌, ◌*◌, ◌≤◌, ◌<◌, ◌≡◌, true, [], ◌∷◌, ◌||◌, not, leb, ltb, if◌then◌else◌, arith, ◌⊎◌, inl,
  inr, Bool-cases,
}
use secure_messenger_lab.Errors.{Result, ok, err, peer_verification_failed}
use secure_messenger_lab.Bytes.{Bytes, ascii, bytes_eq, to_be_bytes, saturating_add, u64_max}
use secure_messenger_lab.Bytes.Laws.{bytes_eq_iff}
use secure_messenger_lab.Encoding.{canonical}
use secure_messenger_lab.Crypto.{Crypto}

abbrev pub contact_bundle_action : Bytes
contact_bundle_action = ascii "peer-prekey"

abbrev pub contact_bundle_max_validity_seconds : ℕ
contact_bundle_max_validity_seconds = 5 * 60

pub record PeerPreKey : Type 0 where
  pub signing_identity : Bytes
  pub curve_identity : Bytes
  pub one_time_key : Bytes
  pub valid_until : ℕ
  pub signature : Bytes

pub record VerifiedPeerPreKey : Type 0 where
  pub signing_identity : Bytes
  pub curve_identity : Bytes
  pub one_time_key : Bytes
  pub valid_until : ℕ

unfoldable pub peer_prekey_signing_bytes : Bytes → Bytes → Bytes → ℕ → Bytes
peer_prekey_signing_bytes signing_identity curve_identity one_time_key valid_until =
    canonical contact_bundle_action
      (signing_identity ∷ curve_identity ∷ one_time_key ∷ to_be_bytes 8 valid_until ∷ [])

-- `PeerPreKey::signing_bytes`
unfoldable pub bundle_signing_bytes : PeerPreKey → Bytes
bundle_signing_bytes b =
    peer_prekey_signing_bytes b.signing_identity b.curve_identity b.one_time_key b.valid_until

abbrev pub without_signature : PeerPreKey → VerifiedPeerPreKey
without_signature b = record {
  signing_identity = b.signing_identity;
  curve_identity = b.curve_identity;
  one_time_key = b.one_time_key;
  valid_until = b.valid_until;
}

module _ (c : Crypto) where
  -- `PeerPreKey::verify`
  unfoldable pub verify : PeerPreKey → Bytes → ℕ → Result VerifiedPeerPreKey
  unfolding saturating_add
  verify b pinned now =
      if not (bytes_eq b.signing_identity pinned)
        || (leb b.valid_until now
            || ltb (saturating_add now contact_bundle_max_validity_seconds) b.valid_until)
      then err peer_verification_failed
      else if c.verify pinned (bundle_signing_bytes b) b.signature
      then ok (without_signature b)
      else err peer_verification_failed

  -- The bundle is of the pinned identity, in its short window, and signed by that identity.
  pub record IsTrusted (b : PeerPreKey) (pinned : Bytes) (now : ℕ) : Type 0 where
    pub pinned_identity : b.signing_identity ≡ pinned
    pub live : now < b.valid_until
    pub short : b.valid_until ≤ now + contact_bundle_max_validity_seconds
    pub signed : c.verify pinned (bundle_signing_bytes b) b.signature ≡ true

  verify-cases :
      (b : PeerPreKey) (pinned : Bytes) (now : ℕ)
      → (verify b pinned now ≡ err peer_verification_failed)
        ⊎ ((verify b pinned now ≡ ok (without_signature b)) × IsTrusted b pinned now)
  unfolding verify
  verify-cases b pinned now =
      elim (Bool-cases (
        not (bytes_eq b.signing_identity pinned)
        || (leb b.valid_until now
            || ltb (saturating_add now contact_bundle_max_validity_seconds) b.valid_until))) [
              | inl bad ↦ inl (rw bad)
              | inr good ↦
                  elim (Bool-cases (c.verify pinned (bundle_signing_bytes b) b.signature)) [
                    | inr forged ↦ inl (rw (good, forged))
                    | inl signed ↦ inr (
                      rw (good, signed),
                      record {
                        pinned_identity = ground (arith, bytes_eq_iff b.signing_identity pinned);
                        live = ground arith;
                        short = ground arith;
                        signed = signed;
                      },
                    )
                  ]
            ]

  -- For times whose five-minute window does not pass `u64::MAX`, `PeerPreKey::verify` accepts exactly
  -- the bundles of the pinned identity that are unexpired, valid for at most five more minutes and
  -- signed by that identity, returns their fields unchanged, and refuses all others with
  -- `PeerVerificationFailed`.
  pub verify_exact :
      (b : PeerPreKey) (pinned : Bytes) (now : ℕ)
      → now + contact_bundle_max_validity_seconds ≤ u64_max
      → (IsTrusted b pinned now → verify b pinned now ≡ ok (without_signature b))
        × (¬ IsTrusted b pinned now → verify b pinned now ≡ err peer_verification_failed)
  unfolding verify
  verify_exact b pinned now h = (
    λ t. ground (
      arith,
      bytes_eq_iff b.signing_identity pinned,
      t.pinned_identity,
      t.live,
      t.short,
      t.signed,
    ),
    λ no_trust. elim (verify-cases b pinned now) [
      | inl refused ↦ refused
      | inr (_, t) ↦ absurd (no_trust t)
    ],
  )
