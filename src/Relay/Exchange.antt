-- ===== src/Relay/Exchange.antt =====
-- A whole exchange through the relay: `enqueue` by the sender's capability, `fetch`,
-- `verify_envelope` and `acknowledge` by the receiver's, as `run_demo` of src/main.rs composes
-- them for each message.
pub mod Steps
pub mod Delivered
use mathlib.Core.List.{append-nil}
use secure_messenger_lab.Prelude.{
  ℕ, ◌+◌, ◌≤◌, ◌<◌, ◌≡◌, refl, ◌∙◌, ap, true, false, some, none, List, [], ◌∷◌, ◌++◌, ◌&&◌, ◌⊎◌,
  Bool, arith, length, ltb, All, All-intro, All-append, All-map, map,
}
use secure_messenger_lab.Errors.{ok}
use secure_messenger_lab.Bytes.{Bytes, i64_max, bytes_eq}
use secure_messenger_lab.Bytes.Laws.{bytes_eq_refl}
use secure_messenger_lab.Crypto.{Crypto, Laws}
use secure_messenger_lab.Packets.{StoredEnvelope, PlainMessage, EncryptedPacket}
use secure_messenger_lab.Capability.{
  MailboxOwner, SendRequest, FetchRequest, AckRequest, sender_capability, receiver_capability,
  authorize, authorize_fetch, authorize_ack, verify_envelope, send_signing_bytes,
  request_signing_bytes, fetch_signing_bytes, ack_signing_bytes,
}
use secure_messenger_lab.Capability.Envelopes.{envelope_of, verified, verify_envelope-authorize}
use secure_messenger_lab.Table.{find_where, exists_where, select_where, delete_where}
use secure_messenger_lab.Table.Laws.{
  exists_where-false, exists_where-none, All-delete_where, All-select_where, find_where-append,
  find_where-spared, find_none-delete_where, exists_false-delete_where, select_where-append,
  select_where-delete_where, find_where-All-none, delete_where-none, delete_where-append,
  delete_where-again,
}
use secure_messenger_lab.Relay.Store.{Mailbox, Message, Relay, receive}
use secure_messenger_lab.Relay.Sql.{
  of_queue, is_message, is_tombstone, is_request_nonce, message_expired, tombstone_expired,
  request_nonce_expired,
}
use secure_messenger_lab.Relay.Checks.{
  max_packet_bytes, max_message_ttl_seconds, tombstone_ttl_seconds,
}
use secure_messenger_lab.Relay.Enqueue.{stored, message_of, enqueue}
use secure_messenger_lab.Relay.Fetch.{decode_row, decode_rows, fetch}
use secure_messenger_lab.Relay.Acknowledge.{deleted, acknowledge}
use secure_messenger_lab.Relay.Effects.Fetch.{selected}
use secure_messenger_lab.Relay.Delivery.{envelope, pending, pending-purged}
use secure_messenger_lab.Relay.Retry.{healthy}
use secure_messenger_lab.Relay.Progress.{
  Sendable, Fetchable, Acknowledgeable, tables_after_send, tables_after_fetch, tables_after_ack,
  enqueue-served, fetch-served, acknowledge-served,
}

-- A row that `fetch` can parse, as every row that `enqueue` inserts is.
abbrev pub IsReadable : Crypto → Message → Type 0
IsReadable c m = (length m.message_id ≡ 16) × (c.is_signature m.sender_signature ≡ true)

-- One exchange: who owns the mailbox, the relay's row of it, the message, and the times of the three
-- requests.
pub record Exchange : Type 0 where
  pub owner : MailboxOwner
  pub mailbox : Mailbox
  pub message_id : Bytes
  pub packet : EncryptedPacket
  pub message : PlainMessage
  pub expires_at : ℕ
  pub nonce : Bytes
  pub sent_at : ℕ
  pub fetched_at : ℕ
  pub fetch_until : ℕ
  pub acknowledged_at : ℕ
  pub ack_until : ℕ

module _ (c : Crypto) (e : Exchange) where
  abbrev pub sent_request : SendRequest
  sent_request = authorize c (sender_capability c e.owner) e.message_id e.packet e.expires_at

  abbrev pub fetch_request : FetchRequest
  fetch_request = authorize_fetch c (receiver_capability c e.owner) e.nonce e.fetch_until

  -- The relay's mailbox is the owner's, the identifiers are new to it, its messages can be read,
  -- and the times are in order and in their windows.
  pub record Ready (r : Relay) : Type 0 where
    pub mailbox : find_where (of_queue e.owner.queue_id) r.tables.mailboxes ≡ some e.mailbox
    pub send_key : e.mailbox.send_key ≡ c.public_key e.owner.send
    pub receive_key : e.mailbox.receive_key ≡ c.public_key e.owner.receive
    pub new_message : find_where (is_message e.owner.queue_id e.message_id) r.tables.messages ≡ none
    pub not_gone :
        exists_where (is_tombstone e.owner.queue_id e.message_id) r.tables.tombstones ≡ false
    pub new_nonce :
        exists_where (is_request_nonce e.owner.queue_id receive e.nonce) r.tables.request_nonces
        ≡ false
    pub readable : All (IsReadable c) r.tables.messages
    pub id_size : length e.message_id ≡ 16
    pub nonce_size : length e.nonce ≡ 16
    pub nonempty : 0 < length e.packet
    pub short : length e.packet ≤ max_packet_bytes
    pub ordered :
        (e.sent_at ≤ e.fetched_at)
        × (e.fetched_at ≤ e.acknowledged_at)
        × (e.acknowledged_at < e.expires_at)
    pub bounded : e.expires_at ≤ e.sent_at + max_message_ttl_seconds
    pub fetch_window : (e.fetched_at < e.fetch_until) × (e.fetch_until ≤ e.fetched_at + 300)
    pub ack_window : (e.acknowledged_at < e.ack_until) × (e.ack_until ≤ e.acknowledged_at + 300)
    pub clock : e.acknowledged_at + tombstone_ttl_seconds ≤ i64_max

  abbrev pub row : Message
  row = message_of sent_request e.expires_at

  abbrev pub sent_relay : Relay → Relay
  sent_relay r = record {
    tables = tables_after_send c r e.sent_at e.mailbox sent_request;
    audit_events = r.audit_events ++ "message_enqueued" ∷ [];
  }

  abbrev pub fetched_relay : Relay → Relay
  fetched_relay r = record {
    tables = tables_after_fetch c (sent_relay r) e.fetched_at e.mailbox fetch_request;
    audit_events = (sent_relay r).audit_events ++ "mailbox_fetched" ∷ [];
  }

  abbrev pub envelopes : Relay → List StoredEnvelope
  envelopes r =
      map (envelope e.owner.queue_id)
        (pending e.owner.queue_id e.fetched_at r.tables.messages ++ row ∷ [])

  -- What the recipient acknowledges: the envelope that it verified, with the message that its
  -- session opened.
  abbrev pub ack_request : AckRequest
  ack_request =
      authorize_ack c (receiver_capability c e.owner)
        (record { message = e.message; envelope = verified (envelope_of sent_request) }) e.ack_until

  abbrev pub acknowledged_relay : Relay → Relay
  acknowledged_relay r = record {
    tables = tables_after_ack c (fetched_relay r) e.acknowledged_at e.mailbox ack_request;
    audit_events = (fetched_relay r).audit_events ++ "message_acknowledged_and_deleted" ∷ [];
  }
