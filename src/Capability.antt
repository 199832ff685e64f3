-- ===== src/Capability.antt =====
-- src/capability.rs: the three capabilities of a mailbox, the requests that they sign and the
-- bytes that are signed. What the code draws from the operating system's random generator
-- (identifiers, key pairs, nonces) is an argument.
pub mod Requests
pub mod Signing
pub mod Envelopes
use secure_messenger_lab.Prelude.{ℕ, Bool, [], ◌∷◌, ◌||◌, not, leb, if◌then◌else◌}
use secure_messenger_lab.Errors.{Result, ok, err, unauthorized}
use secure_messenger_lab.Bytes.{Bytes, bytes_eq, to_be_bytes}
use secure_messenger_lab.Encoding.{
  canonical, action_register, action_send, action_fetch, action_ack, action_delete,
}
use secure_messenger_lab.Crypto.{Crypto}
use secure_messenger_lab.Packets.{EncryptedPacket, StoredEnvelope, VerifiedEnvelope, OpenedMessage}

-- `Ed25519Keypair`: the bytes of the private key.
abbrev pub Keypair : Type 0
Keypair = Bytes

pub record MailboxOwner : Type 0 where
  pub queue_id : Bytes
  pub send : Keypair
  pub receive : Keypair
  pub manage : Keypair

pub record SendCapability : Type 0 where
  pub queue_id : Bytes
  pub signing_key : Keypair

pub record ReceiveCapability : Type 0 where
  pub queue_id : Bytes
  pub signing_key : Keypair
  pub send_verification_key : Bytes

pub record ManageCapability : Type 0 where
  pub queue_id : Bytes
  pub signing_key : Keypair

pub record MailboxRegistration : Type 0 where
  pub queue_id : Bytes
  pub send_key : Bytes
  pub receive_key : Bytes
  pub manage_key : Bytes
  pub nonce : Bytes
  pub valid_until : ℕ
  pub signature : Bytes

pub record SendRequest : Type 0 where
  pub queue_id : Bytes
  pub message_id : Bytes
  pub packet : EncryptedPacket
  pub expires_at : ℕ
  pub signature : Bytes

pub record FetchRequest : Type 0 where
  pub queue_id : Bytes
  pub nonce : Bytes
  pub valid_until : ℕ
  pub signature : Bytes

pub record AckRequest : Type 0 where
  pub queue_id : Bytes
  pub message_id : Bytes
  pub packet_hash : Bytes
  pub valid_until : ℕ
  pub signature : Bytes

pub record DeleteMailboxRequest : Type 0 where
  pub queue_id : Bytes
  pub nonce : Bytes
  pub valid_until : ℕ
  pub signature : Bytes

-- `to_be_bytes` of a `u64`
abbrev u64_bytes : ℕ → Bytes
u64_bytes = to_be_bytes 8

-- The `signing_bytes` methods.
unfoldable pub registration_signing_bytes : MailboxRegistration → Bytes
registration_signing_bytes r = canonical action_register (
    r.queue_id ∷ r.send_key ∷ r.receive_key ∷ r.manage_key ∷ r.nonce ∷ u64_bytes r.valid_until ∷ [])

unfoldable pub fetch_signing_bytes : FetchRequest → Bytes
fetch_signing_bytes r = canonical action_fetch (r.queue_id ∷ r.nonce ∷ u64_bytes r.valid_until ∷ [])

unfoldable pub ack_signing_bytes : AckRequest → Bytes
ack_signing_bytes r =
    canonical action_ack (r.queue_id ∷ r.message_id ∷ r.packet_hash ∷ u64_bytes r.valid_until ∷ [])

unfoldable pub delete_signing_bytes : DeleteMailboxRequest → Bytes
delete_signing_bytes r =
    canonical action_delete (r.queue_id ∷ r.nonce ∷ u64_bytes r.valid_until ∷ [])

module _ (c : Crypto) where
  -- `send_signing_bytes`
  unfoldable pub send_signing_bytes : Bytes → Bytes → EncryptedPacket → ℕ → Bytes
  send_signing_bytes queue_id message_id packet expires_at =
      canonical action_send (queue_id ∷ message_id ∷ c.sha256 packet ∷ u64_bytes expires_at ∷ [])

  -- `SendRequest::signing_bytes`
  unfoldable pub request_signing_bytes : SendRequest → Bytes
  request_signing_bytes r = send_signing_bytes r.queue_id r.message_id r.packet r.expires_at

  -- `MailboxOwner::registration`
  unfoldable pub registration : MailboxOwner → Bytes → ℕ → MailboxRegistration
  registration owner nonce valid_until =
      let send_key = c.public_key owner.send in
      let receive_key = c.public_key owner.receive in
      let manage_key = c.public_key owner.manage in
      let signing_bytes = canonical action_register (
        owner.queue_id
        ∷ send_key
        ∷ receive_key
        ∷ manage_key
        ∷ nonce
        ∷ u64_bytes valid_until
        ∷ []) in
      record {
        queue_id = owner.queue_id;
        send_key = send_key;
        receive_key = receive_key;
        manage_key = manage_key;
        nonce = nonce;
        valid_until = valid_until;
        signature = c.sign owner.manage signing_bytes;
      }

  unfoldable pub sender_capability : MailboxOwner → SendCapability
  sender_capability owner = record { queue_id = owner.queue_id; signing_key = owner.send }

  unfoldable pub receiver_capability : MailboxOwner → ReceiveCapability
  receiver_capability owner = record {
    queue_id = owner.queue_id;
    signing_key = owner.receive;
    send_verification_key = c.public_key owner.send;
  }

  unfoldable pub manager_capability : MailboxOwner → ManageCapability
  manager_capability owner = record { queue_id = owner.queue_id; signing_key = owner.manage }

  -- `SendCapability::authorize`
  unfoldable pub authorize : SendCapability → Bytes → EncryptedPacket → ℕ → SendRequest
  authorize cap message_id packet expires_at =
      let signing_bytes =
        canonical action_send
          (cap.queue_id ∷ message_id ∷ c.sha256 packet ∷ u64_bytes expires_at ∷ []) in
      record {
        queue_id = cap.queue_id;
        message_id = message_id;
        packet = packet;
        expires_at = expires_at;
        signature = c.sign cap.signing_key signing_bytes;
      }

  -- `ReceiveCapability::authorize_fetch`
  unfoldable pub authorize_fetch : ReceiveCapability → Bytes → ℕ → FetchRequest
  authorize_fetch cap nonce valid_until = record {
    queue_id = cap.queue_id;
    nonce = nonce;
    valid_until = valid_until;
    signature =
        c.sign cap.signing_key
          (canonical action_fetch (cap.queue_id ∷ nonce ∷ u64_bytes valid_until ∷ []));
  }

  -- `ReceiveCapability::verify_envelope`
  unfoldable pub verify_envelope : ReceiveCapability → StoredEnvelope → ℕ → Result VerifiedEnvelope
  verify_envelope cap envelope now =
      if not (bytes_eq envelope.queue_id cap.queue_id) || leb envelope.expires_at now
      then err unauthorized
      else if c.verify cap.send_verification_key
          (send_signing_bytes envelope.queue_id envelope.message_id envelope.packet
            envelope.expires_at)
          envelope.sender_signature
      then ok (record {
        queue_id = envelope.queue_id;
        message_id = envelope.message_id;
        packet = envelope.packet;
        expires_at = envelope.expires_at;
      })
      else err unauthorized

  -- `ReceiveCapability::authorize_ack`
  unfoldable pub authorize_ack : ReceiveCapability → OpenedMessage → ℕ → AckRequest
  authorize_ack cap opened valid_until =
      let envelope = opened.envelope in
      let packet_hash = c.sha256 envelope.packet in
      record {
        queue_id = cap.queue_id;
        message_id = envelope.message_id;
        packet_hash = packet_hash;
        valid_until = valid_until;
        signature = c.sign cap.signing_key (
            canonical action_ack
              (cap.queue_id ∷ envelope.message_id ∷ packet_hash ∷ u64_bytes valid_until ∷ []));
      }

  -- `ManageCapability::authorize_delete`
  unfoldable pub authorize_delete : ManageCapability → Bytes → ℕ → DeleteMailboxRequest
  authorize_delete cap nonce valid_until = record {
    queue_id = cap.queue_id;
    nonce = nonce;
    valid_until = valid_until;
    signature =
        c.sign cap.signing_key
          (canonical action_delete (cap.queue_id ∷ nonce ∷ u64_bytes valid_until ∷ []));
  }
