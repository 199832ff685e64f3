-- ===== src/Capability/Requests.antt =====
-- Every request that a capability authorizes carries a signature that the relay's check accepts.
use secure_messenger_lab.Prelude.{ℕ, ◌≡◌, true}
use secure_messenger_lab.Bytes.{Bytes}
use secure_messenger_lab.Crypto.{Crypto, Laws}
use secure_messenger_lab.Packets.{EncryptedPacket, OpenedMessage}
use secure_messenger_lab.Capability.{
  MailboxOwner, registration, sender_capability, receiver_capability, manager_capability, authorize,
  authorize_fetch, authorize_ack, authorize_delete, registration_signing_bytes,
  request_signing_bytes, send_signing_bytes, fetch_signing_bytes, ack_signing_bytes,
  delete_signing_bytes,
}

module _ (c : Crypto) (laws : Laws c) (owner : MailboxOwner) where
  -- Under the laws of the signature scheme, each of the five requests that a mailbox's capabilities
  -- authorize verifies, over the bytes that the relay recomputes from the request's own fields,
  -- under the public half of the key that the relay checks it with.
  pub authorize_verifies :
      (nonce message_id : Bytes) (packet : EncryptedPacket) (opened : OpenedMessage) (time : ℕ)
      → let reg = registration c owner nonce time in
        let sent = authorize c (sender_capability c owner) message_id packet time in
        let fetched = authorize_fetch c (receiver_capability c owner) nonce time in
        let acked = authorize_ack c (receiver_capability c owner) opened time in
        let deleted = authorize_delete c (manager_capability c owner) nonce time in
        (c.verify reg.manage_key (registration_signing_bytes reg) reg.signature ≡ true)
        × (c.verify reg.send_key (request_signing_bytes c sent) sent.signature ≡ true)
        × (c.verify reg.receive_key (fetch_signing_bytes fetched) fetched.signature ≡ true)
        × (c.verify reg.receive_key (ack_signing_bytes acked) acked.signature ≡ true)
        × (c.verify reg.manage_key (delete_signing_bytes deleted) deleted.signature ≡ true)
  unfolding registration sender_capability receiver_capability manager_capability authorize
      authorize_fetch authorize_ack authorize_delete registration_signing_bytes
      request_signing_bytes send_signing_bytes fetch_signing_bytes ack_signing_bytes
      delete_signing_bytes
  authorize_verifies nonce message_id packet opened time = (
    laws.verify_sign _ _,
    laws.verify_sign _ _,
    laws.verify_sign _ _,
    laws.verify_sign _ _,
    laws.verify_sign _ _,
  )
