-- ===== src/Capability/Envelopes.antt =====
-- What `verify_envelope` accepts.
use secure_messenger_lab.Prelude.{ℕ, ◌<◌, ◌≡◌, refl, true, arith, leb, Bool-cases, inl, inr, ◌⊎◌}
use secure_messenger_lab.Errors.{ok, err, unauthorized}
use secure_messenger_lab.Bytes.{Bytes, bytes_eq}
use secure_messenger_lab.Bytes.Laws.{bytes_eq_iff}
use secure_messenger_lab.Crypto.{Crypto, Laws}
use secure_messenger_lab.Packets.{EncryptedPacket, StoredEnvelope, VerifiedEnvelope}
use secure_messenger_lab.Capability.{
  MailboxOwner, ReceiveCapability, SendRequest, sender_capability, receiver_capability, authorize,
  send_signing_bytes, verify_envelope,
}

-- The row that the relay keeps of a send request, as a fetch returns it.
abbrev pub envelope_of : SendRequest → StoredEnvelope
envelope_of r = record {
  queue_id = r.queue_id;
  message_id = r.message_id;
  packet = r.packet;
  expires_at = r.expires_at;
  sender_signature = r.signature;
}

-- The envelope without its signature.
abbrev pub verified : StoredEnvelope → VerifiedEnvelope
verified e = record {
  queue_id = e.queue_id;
  message_id = e.message_id;
  packet = e.packet;
  expires_at = e.expires_at;
}

module _ (c : Crypto) (cap : ReceiveCapability) (e : StoredEnvelope) (now : ℕ) where
  -- For this mailbox, not yet expired, and signed by the sender.
  pub record IsGenuine : Type 0 where
    pub own_queue : e.queue_id ≡ cap.queue_id
    pub live : now < e.expires_at
    pub signed :
        c.verify cap.send_verification_key
          (send_signing_bytes c e.queue_id e.message_id e.packet e.expires_at)
          e.sender_signature
        ≡ true

  verify_envelope-cases : (verify_envelope c cap e now ≡ err unauthorized) ⊎ IsGenuine
  unfolding verify_envelope
  verify_envelope-cases = elim (Bool-cases (bytes_eq e.queue_id cap.queue_id)) [
    | inr other ↦ inl (rw other)
    | inl own ↦ elim (Bool-cases (leb e.expires_at now)) [
      | inl gone ↦ inl (rw (own, gone))
      | inr live ↦
          elim (Bool-cases (
            c.verify cap.send_verification_key
              (send_signing_bytes c e.queue_id e.message_id e.packet e.expires_at)
              e.sender_signature)) [
                | inr forged ↦ inl (rw (own, live, forged))
                | inl signed ↦ inr (record {
                  own_queue = (bytes_eq_iff _ _).0 own;
                  live = ground arith;
                  signed = signed;
                })
              ]
    ]
  ]

  -- `verify_envelope` accepts exactly the envelopes of its own queue that have not expired and whose
  -- sender signature verifies, hands those on unchanged, and answers `Unauthorized` to all others.
  pub verify_envelope_exact :
      (IsGenuine → verify_envelope c cap e now ≡ ok (verified e))
      × (¬ IsGenuine → verify_envelope c cap e now ≡ err unauthorized)
  unfolding verify_envelope
  verify_envelope_exact = (
    λ g. ground (arith, bytes_eq_iff e.queue_id cap.queue_id, g.own_queue, g.live, g.signed),
    λ bogus. elim verify_envelope-cases [ inl refused ↦ refused | inr g ↦ absurd (bogus g) ],
  )

  pub verify_envelope-IsGenuine :
      {v : VerifiedEnvelope} → verify_envelope c cap e now ≡ ok v → IsGenuine × (v ≡ verified e)
  verify_envelope-IsGenuine {v} h = elim verify_envelope-cases [
    | inl refused ↦ absurd (ground arith)
    | inr g ↦ (g, ground (arith, verify_envelope_exact.0 g))
  ]

-- The envelope of any packet that a mailbox's send capability authorizes is accepted unchanged by
-- the same mailbox's receive capability until it expires.
pub verify_envelope-authorize :
    (c : Crypto) (laws : Laws c) (owner : MailboxOwner) (message_id : Bytes)
    (packet : EncryptedPacket) (expires_at now : ℕ)
    → now < expires_at
    → let sent =
        envelope_of (authorize c (sender_capability c owner) message_id packet expires_at) in
      verify_envelope c (receiver_capability c owner) sent now ≡ ok (verified sent)
unfolding authorize sender_capability receiver_capability send_signing_bytes
verify_envelope-authorize c laws owner message_id packet expires_at now h =
    (verify_envelope_exact c _ _ now).0
      (record { own_queue = refl; live = h; signed = laws.verify_sign _ _ })
