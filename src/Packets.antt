-- ===== src/Packets.antt =====
-- The values that travel between the clients and the relay: envelopes of src/relay.rs and
-- src/capability.rs, messages of src/client.rs.
use secure_messenger_lab.Prelude.{ℕ}
use secure_messenger_lab.Bytes.{Bytes}

-- `EncryptedPacket(Vec<u8>)`, with `from_untrusted`, `as_bytes` and `into_bytes` the identity.
abbrev pub EncryptedPacket : Type 0
EncryptedPacket = Bytes

pub record StoredEnvelope : Type 0 where
  pub queue_id : Bytes
  pub message_id : Bytes
  pub packet : EncryptedPacket
  pub expires_at : ℕ
  pub sender_signature : Bytes

pub record VerifiedEnvelope : Type 0 where
  pub queue_id : Bytes
  pub message_id : Bytes
  pub packet : EncryptedPacket
  pub expires_at : ℕ

-- `body` is the UTF-8 of the text.
pub record PlainMessage : Type 0 where
  pub version : ℕ
  pub conversation_id : Bytes
  pub message_id : Bytes
  pub sent_at : ℕ
  pub body : Bytes

pub record OpenedMessage : Type 0 where
  pub message : PlainMessage
  pub envelope : VerifiedEnvelope
