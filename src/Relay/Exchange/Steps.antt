-- ===== src/Relay/Exchange/Steps.antt =====
-- Each request of an exchange is in order when its turn comes.
use mathlib.Core.List.{append-nil}
use secure_messenger_lab.Prelude.{
  ℕ, ◌≤◌, ◌<◌, ◌≡◌, refl, ◌∙◌, true, false, none, List, [], ◌∷◌, ◌++◌, ◌&&◌, ◌⊎◌, Bool, arith, ltb,
  All, All-intro, All-append, All-map, map,
}
use secure_messenger_lab.Errors.{ok}
use secure_messenger_lab.Bytes.{Bytes, bytes_eq}
use secure_messenger_lab.Bytes.Laws.{bytes_eq_refl}
use secure_messenger_lab.Crypto.{Crypto, Laws}
use secure_messenger_lab.Capability.{
  sender_capability, receiver_capability, authorize, authorize_fetch, authorize_ack,
  send_signing_bytes, request_signing_bytes, fetch_signing_bytes, ack_signing_bytes,
}
use secure_messenger_lab.Table.{find_where, select_where, delete_where}
use secure_messenger_lab.Table.Laws.{
  exists_where-false, exists_where-none, All-delete_where, All-select_where, find_where-append,
  find_where-spared, find_none-delete_where, exists_false-delete_where, select_where-append,
  select_where-delete_where, find_where-All-none, delete_where-none, delete_where-append,
  delete_where-again,
}
use secure_messenger_lab.Relay.Store.{Message, Relay, receive}
use secure_messenger_lab.Relay.Sql.{
  is_message, is_tombstone, is_request_nonce, message_expired, tombstone_expired,
  request_nonce_expired,
}
use secure_messenger_lab.Relay.Fetch.{decode_row, decode_rows}
use secure_messenger_lab.Relay.Effects.Fetch.{selected}
use secure_messenger_lab.Relay.Delivery.{envelope, pending, pending-purged}
use secure_messenger_lab.Relay.Progress.{Sendable, Fetchable, Acknowledgeable}
use secure_messenger_lab.Relay.Exchange.{
  Exchange, IsReadable, Ready, sent_request, fetch_request, ack_request, row, sent_relay,
  fetched_relay, acknowledged_relay, envelopes,
}

decode_rows-readable :
    (c : Crypto) (queue_id : Bytes) (ms : List Message)
    → All (IsReadable c) ms
    → decode_rows c queue_id ms ≡ ok (map (envelope queue_id) ms)
unfolding decode_rows decode_row
decode_rows-readable c queue_id [] h = refl
decode_rows-readable c queue_id (m ∷ ms) h =
    ground (arith, h.0.0, h.0.1, decode_rows-readable c queue_id ms h.1)

-- Sweeps at later times, and the DELETE of the one new row, leave what the last sweep leaves.
swept_away :
    (t1 t2 t3 : ℕ) (ours : Message → Bool) (ms : List Message) (row : Message)
    → (t1 ≤ t2) × (t2 ≤ t3)
    → find_where ours ms ≡ none
    → ours row ≡ true
    → t3 < row.expires_at
    → delete_where ours (
        delete_where
          (message_expired t3)
          (delete_where (message_expired t2) (delete_where (message_expired t1) ms ++ row ∷ [])))
      ≡ delete_where (message_expired t3) ms
unfolding delete_where
swept_away t1 t2 t3 ours ms row ordered absent is_ours live =
    let e1 = message_expired t1 in
    let e3 = message_expired t3 in
    let once =
      delete_where-again (message_expired t2) e3 (λ x old. ground (arith, ordered))
        (delete_where e1 ms ++ row ∷ []) in
    let split = delete_where-append e3 (delete_where e1 ms) (row ∷ []) in
    let again = delete_where-again e1 e3 (λ x old. ground (arith, ordered)) ms in
    let parted = delete_where-append ours (delete_where e3 ms) (delete_where e3 (row ∷ [])) in
    let others =
      delete_where-none ours (delete_where e3 ms) (
        find_where-All-none ours (delete_where e3 ms) (find_none-delete_where ours e3 ms absent)) in
    rw (once, split, again, parted, others)
      (ground (arith, is_ours, live, append-nil (delete_where e3 ms)))

module _ (c : Crypto) (laws : Laws c) (e : Exchange) where
  pub sendable : (r : Relay) → Ready c e r → Sendable c r e.sent_at e.mailbox (sent_request c e)
  unfolding authorize sender_capability request_signing_bytes send_signing_bytes
  sendable r h = record {
    clock = ground (arith, h.ordered, h.clock);
    mailbox = h.mailbox;
    key = record {
      size = rw h.send_key (laws.length_public_key e.owner.send);
      parses = rw h.send_key (laws.parse_public_key e.owner.send);
    };
    signed = rw h.send_key (laws.verify_sign e.owner.send _);
    nonempty = h.nonempty;
    short = h.short;
    live = ground (arith, h.ordered);
    bounded = h.bounded;
    representable = ground (arith, h.ordered, h.bounded, h.clock);
    not_gone = exists_where-none _ _ (
        All-delete_where (tombstone_expired e.sent_at)
          (λ d.
            (is_tombstone e.owner.queue_id e.message_id d && ltb e.sent_at d.delete_after) ≡ false)
          r.tables.tombstones
          (All-map (λ d other. ground arith) r.tables.tombstones
            (exists_where-false (is_tombstone e.owner.queue_id e.message_id) r.tables.tombstones
              h.not_gone)));
    not_queued =
        find_none-delete_where (is_message e.owner.queue_id e.message_id)
          (message_expired e.sent_at) r.tables.messages h.new_message;
    id_size = h.id_size;
    signature_size = laws.length_sign e.owner.send _;
  }

  -- What the fetch selects: what was pending, and the new row last.
  selected-sent :
      (r : Relay)
      → Ready c e r
      → selected c (fetch_request c e) e.fetched_at (sent_relay c e r).tables
        ≡ pending e.owner.queue_id e.fetched_at r.tables.messages ++ (row c e) ∷ []
  unfolding authorize_fetch receiver_capability authorize sender_capability select_where
  selected-sent r h =
      let is_pending : Message → Bool =
        λ x. bytes_eq x.queue_id e.owner.queue_id && ltb e.fetched_at x.expires_at in
      let kept = delete_where (message_expired e.sent_at) r.tables.messages in
      let split = select_where-append is_pending kept ((row c e) ∷ []) in
      let spared =
        select_where-delete_where (message_expired e.sent_at) is_pending r.tables.messages (
          All-intro {P = λ x. (is_pending x ≡ false) ⊎ (message_expired e.sent_at x ≡ false)}
            (λ x. ground (arith, h.ordered)) r.tables.messages) in
      let swept = pending-purged e.owner.queue_id e.fetched_at (sent_relay c e r).tables in
      swept ∙ split ∙ ground (arith, spared, h.ordered, bytes_eq_refl e.owner.queue_id)

  pub fetchable :
      (r : Relay)
      → Ready c e r
      → Fetchable c (sent_relay c e r) e.fetched_at e.mailbox (fetch_request c e) (envelopes c e r)
  unfolding authorize_fetch receiver_capability fetch_signing_bytes authorize sender_capability
  fetchable r h = record {
    mailbox = h.mailbox;
    key = record {
      size = rw h.receive_key (laws.length_public_key e.owner.receive);
      parses = rw h.receive_key (laws.parse_public_key e.owner.receive);
    };
    signed = rw h.receive_key (laws.verify_sign e.owner.receive _);
    live = h.fetch_window.0;
    bounded = h.fetch_window.1;
    representable = ground (arith, h.fetch_window, h.ordered, h.clock);
    fresh =
        exists_false-delete_where (is_request_nonce e.owner.queue_id receive e.nonce)
          (request_nonce_expired e.fetched_at) _
          (exists_false-delete_where (is_request_nonce e.owner.queue_id receive e.nonce)
            (request_nonce_expired e.sent_at) r.tables.request_nonces h.new_nonce);
    nonce_size = h.nonce_size;
    decoded = rw (selected-sent r h) (
        decode_rows-readable c e.owner.queue_id _ (
          All-append (IsReadable c) (pending e.owner.queue_id e.fetched_at r.tables.messages)
            ((row c e) ∷ []) (All-select_where _ (IsReadable c) r.tables.messages h.readable)
            ((h.id_size, laws.parse_sign e.owner.send _), tt)));
  }

  pub acknowledgeable :
      (r : Relay)
      → Ready c e r
      → Acknowledgeable c
          (fetched_relay c e r)
          e.acknowledged_at
          e.mailbox
          (ack_request c e)
          (row c e)
  unfolding authorize_ack receiver_capability ack_signing_bytes authorize sender_capability
      find_where
  acknowledgeable r h =
      let ours = is_message e.owner.queue_id e.message_id in
      let kept = delete_where (message_expired e.sent_at) r.tables.messages in
      record {
        mailbox = h.mailbox;
        key = record {
          size = rw h.receive_key (laws.length_public_key e.owner.receive);
          parses = rw h.receive_key (laws.parse_public_key e.owner.receive);
        };
        signed = rw h.receive_key (laws.verify_sign e.owner.receive _);
        live = h.ack_window.0;
        bounded = h.ack_window.1;
        representable = h.clock;
        queued =
            find_where-spared (message_expired e.acknowledged_at) ours _
              (find_where-spared (message_expired e.fetched_at) ours (kept ++ (row c e) ∷ [])
                (find_where-append ours kept ((row c e) ∷ []) (
                    find_none-delete_where ours (message_expired e.sent_at) r.tables.messages
                      h.new_message)
                  ∙ ground (arith, bytes_eq_refl e.owner.queue_id, bytes_eq_refl e.message_id))
                (ground (arith, h.ordered)))
              (ground (arith, h.ordered));
        same_packet = refl;
        id_size = h.id_size;
      }

  pub messages_left :
      (r : Relay)
      → Ready c e r
      → (acknowledged_relay c e r).tables.messages
        ≡ delete_where (message_expired e.acknowledged_at) r.tables.messages
  unfolding authorize_ack receiver_capability authorize sender_capability
  messages_left r h =
      swept_away e.sent_at e.fetched_at e.acknowledged_at (is_message e.owner.queue_id e.message_id)
        r.tables.messages (row c e) (h.ordered.0, h.ordered.1) h.new_message
        (ground (arith, bytes_eq_refl e.owner.queue_id, bytes_eq_refl e.message_id)) h.ordered.2
