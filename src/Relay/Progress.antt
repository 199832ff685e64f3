-- ===== src/Relay/Progress.antt =====
-- The relay serves: a request in order is answered, when no statement fails, and this is what the
-- relay's tables are then.
pub mod Registration
use secure_messenger_lab.Prelude.{
  ℕ, ◌+◌, ◌≤◌, ◌<◌, ◌≡◌, true, false, some, none, List, [], ◌∷◌, ◌++◌, ◌&&◌, arith, length, ltb,
}
use secure_messenger_lab.Errors.{ok}
use secure_messenger_lab.Bytes.{Bytes, i64_max}
use secure_messenger_lab.Bytes.Laws.{bytes_eq_refl}
use secure_messenger_lab.Crypto.{Crypto}
use secure_messenger_lab.Packets.{StoredEnvelope}
use secure_messenger_lab.Capability.{
  SendRequest, FetchRequest, AckRequest, request_signing_bytes, fetch_signing_bytes,
  ack_signing_bytes,
}
use secure_messenger_lab.Table.{find_where, exists_where, delete_where}
use secure_messenger_lab.Table.Laws.{exists_where-find_none, exists_where-find_some}
use secure_messenger_lab.Relay.Store.{
  Mailbox, Message, Tables, Relay, receive, settle, immediate, to_i64,
}
use secure_messenger_lab.Relay.Sql.{
  of_queue, is_message, is_tombstone, is_request_nonce, insert_message_sql,
  insert_request_nonce_sql, delete_message_sql, upsert_tombstone, upsert_tombstone_sql,
}
use secure_messenger_lab.Relay.Checks.{
  parse_key, mailbox_key, purge_expired_in, record_nonce, validate_request_time,
  validate_message_expiry, max_packet_bytes, max_message_ttl_seconds, tombstone_ttl_seconds,
}
use secure_messenger_lab.Relay.Success.{purged}
use secure_messenger_lab.Relay.Enqueue.{
  stored, message_of, enqueue_new, enqueue_in, enqueue, enqueue_body,
}
use secure_messenger_lab.Relay.Fetch.{decode_rows, fetch_in, fetch, fetch_body}
use secure_messenger_lab.Relay.Acknowledge.{
  deleted, acknowledge_queued, acknowledge_in, acknowledge, acknowledge_body,
}
use secure_messenger_lab.Relay.Effects.Fetch.{nonce_row, selected}
use secure_messenger_lab.Relay.Retry.{healthy}

-- A key that the relay can read.
pub record IsKey (c : Crypto) (key : Bytes) : Type 0 where
  pub size : length key ≡ 32
  pub parses : c.is_public_key key ≡ true

module _ (c : Crypto) (r : Relay) (now : ℕ) (m : Mailbox) where
  module _ (request : SendRequest) where
    pub record Sendable : Type 0 where
      pub clock : now ≤ i64_max
      pub mailbox : find_where (of_queue request.queue_id) r.tables.mailboxes ≡ some m
      pub key : IsKey c m.send_key
      pub signed : c.verify m.send_key (request_signing_bytes c request) request.signature ≡ true
      pub nonempty : 0 < length request.packet
      pub short : length request.packet ≤ max_packet_bytes
      pub live : now < request.expires_at
      pub bounded : request.expires_at ≤ now + max_message_ttl_seconds
      pub representable : request.expires_at ≤ i64_max
      pub not_gone :
          exists_where
            (λ d. is_tombstone request.queue_id request.message_id d && ltb now d.delete_after)
            (purged now r.tables).tombstones
          ≡ false
      pub not_queued :
          find_where (is_message request.queue_id request.message_id) (purged now r.tables).messages
          ≡ none
      pub id_size : length request.message_id ≡ 16
      pub signature_size : length request.signature ≡ 64

    abbrev pub tables_after_send : Tables
    tables_after_send = record (purged now r.tables) {
      messages = (purged now r.tables).messages ++ message_of request request.expires_at ∷ [];
    }

    pub enqueue-served :
        Sendable
        → enqueue c healthy r request now ≡ (
          ok stored,
          record {
            tables = tables_after_send;
            audit_events = r.audit_events ++ "message_enqueued" ∷ [];
          },
        )
    unfolding enqueue enqueue_body enqueue_in enqueue_new settle immediate purge_expired_in
        mailbox_key parse_key to_i64 validate_message_expiry insert_message_sql
    enqueue-served h =
        let known =
          exists_where-find_some (of_queue request.queue_id) r.tables.mailboxes h.mailbox in
        let absent =
          exists_where-find_none (is_message request.queue_id request.message_id)
            (purged now r.tables).messages h.not_queued in
        ground (
          arith, h.clock, h.mailbox, h.key.size, h.key.parses, h.signed, h.nonempty, h.short,
          h.live, h.bounded, h.representable, h.not_gone, h.not_queued, h.id_size, h.signature_size,
          known, absent,
        )

  module _ (request : FetchRequest) where
    pub record Fetchable (envelopes : List StoredEnvelope) : Type 0 where
      pub mailbox : find_where (of_queue request.queue_id) r.tables.mailboxes ≡ some m
      pub key : IsKey c m.receive_key
      pub signed : c.verify m.receive_key (fetch_signing_bytes request) request.signature ≡ true
      pub live : now < request.valid_until
      pub bounded : request.valid_until ≤ now + 300
      pub representable : request.valid_until ≤ i64_max
      pub fresh :
          exists_where
            (is_request_nonce request.queue_id receive request.nonce)
            (purged now r.tables).request_nonces
          ≡ false
      pub nonce_size : length request.nonce ≡ 16
      pub decoded : decode_rows c request.queue_id (selected c request now r.tables) ≡ ok envelopes

    abbrev pub tables_after_fetch : Tables
    tables_after_fetch = record (purged now r.tables) {
      request_nonces =
          (purged now r.tables).request_nonces ++ nonce_row c request now r.tables ∷ [];
    }

    pub fetch-served :
        (envelopes : List StoredEnvelope)
        → Fetchable envelopes
        → fetch c healthy r request now ≡ (
          ok envelopes,
          record {
            tables = tables_after_fetch;
            audit_events = r.audit_events ++ "mailbox_fetched" ∷ [];
          },
        )
    unfolding fetch fetch_body fetch_in settle immediate purge_expired_in mailbox_key parse_key
        to_i64 validate_request_time record_nonce insert_request_nonce_sql
    fetch-served envelopes h =
        let known =
          exists_where-find_some (of_queue request.queue_id) r.tables.mailboxes h.mailbox in
        ground (
          arith, h.mailbox, h.key.size, h.key.parses, h.signed, h.live, h.bounded, h.representable,
          h.fresh, h.nonce_size, h.decoded, known,
        )

  module _ (request : AckRequest) where
    pub record Acknowledgeable (old : Message) : Type 0 where
      pub mailbox : find_where (of_queue request.queue_id) r.tables.mailboxes ≡ some m
      pub key : IsKey c m.receive_key
      pub signed : c.verify m.receive_key (ack_signing_bytes request) request.signature ≡ true
      pub live : now < request.valid_until
      pub bounded : request.valid_until ≤ now + 300
      pub representable : now + tombstone_ttl_seconds ≤ i64_max
      pub queued :
          find_where (is_message request.queue_id request.message_id) (purged now r.tables).messages
          ≡ some old
      pub same_packet : c.sha256 old.ciphertext ≡ request.packet_hash
      pub id_size : length request.message_id ≡ 16

    abbrev pub tables_after_ack : Tables
    tables_after_ack = record (purged now r.tables) {
      messages =
          delete_where (is_message request.queue_id request.message_id)
            (purged now r.tables).messages;
      tombstones =
          upsert_tombstone
            (record {
              queue_id = request.queue_id;
              message_id = request.message_id;
              delete_after = now + tombstone_ttl_seconds;
            })
            (purged now r.tables).tombstones;
    }

    pub acknowledge-served :
        (old : Message)
        → Acknowledgeable old
        → acknowledge c healthy r request now ≡ (
          ok deleted,
          record {
            tables = tables_after_ack;
            audit_events = r.audit_events ++ "message_acknowledged_and_deleted" ∷ [];
          },
        )
    unfolding acknowledge acknowledge_body acknowledge_in acknowledge_queued settle immediate
        purge_expired_in mailbox_key parse_key to_i64 validate_request_time delete_message_sql
        upsert_tombstone_sql
    acknowledge-served old h =
        let known =
          exists_where-find_some (of_queue request.queue_id) r.tables.mailboxes h.mailbox in
        ground (
          arith,
          h.mailbox,
          h.key.size,
          h.key.parses,
          h.signed,
          h.live,
          h.bounded,
          h.representable,
          h.queued,
          h.same_packet,
          h.id_size,
          known,
          bytes_eq_refl request.packet_hash,
        )
