-- ===== src/Relay/Exchange/Delivered.antt =====
-- The composition of an exchange's requests.
use secure_messenger_lab.Prelude.{◌≡◌, refl, ap, arith}
use secure_messenger_lab.Errors.{ok}
use secure_messenger_lab.Crypto.{Crypto, Laws}
use secure_messenger_lab.Capability.{receiver_capability, verify_envelope}
use secure_messenger_lab.Capability.Envelopes.{envelope_of, verified, verify_envelope-authorize}
use secure_messenger_lab.Table.{delete_where}
use secure_messenger_lab.Relay.Store.{Relay}
use secure_messenger_lab.Relay.Sql.{message_expired}
use secure_messenger_lab.Relay.Enqueue.{stored, enqueue}
use secure_messenger_lab.Relay.Fetch.{fetch}
use secure_messenger_lab.Relay.Acknowledge.{deleted, acknowledge}
use secure_messenger_lab.Relay.Retry.{healthy}
use secure_messenger_lab.Relay.Progress.{enqueue-served, fetch-served, acknowledge-served}
use secure_messenger_lab.Relay.Exchange.{
  Exchange, Ready, sent_request, fetch_request, ack_request, row, sent_relay, fetched_relay,
  acknowledged_relay, envelopes,
}
use secure_messenger_lab.Relay.Exchange.Steps.{sendable, fetchable, acknowledgeable, messages_left}

module _ (c : Crypto) (laws : Laws c) (e : Exchange) where
  -- The relay's answers, with the relay that each leaves.
  pub exchange-served :
      (r : Relay)
      → Ready c e r
      → (enqueue c healthy r (sent_request c e) e.sent_at ≡ (ok stored, sent_relay c e r))
        × (fetch c healthy (sent_relay c e r) (fetch_request c e) e.fetched_at
            ≡ (ok (envelopes c e r), fetched_relay c e r))
        × (acknowledge c healthy (fetched_relay c e r) (ack_request c e) e.acknowledged_at
            ≡ (ok deleted, acknowledged_relay c e r))
  exchange-served r h = (
    enqueue-served c r e.sent_at e.mailbox (sent_request c e) (sendable c laws e r h),
    fetch-served c (sent_relay c e r) e.fetched_at e.mailbox (fetch_request c e) (envelopes c e r)
        (fetchable c laws e r h),
    acknowledge-served c (fetched_relay c e r) e.acknowledged_at e.mailbox (ack_request c e)
        (row c e) (acknowledgeable c laws e r h),
  )

  -- A message that a sender authorizes with a registered mailbox's send capability is stored
  -- when it reaches the relay in time and no statement fails; a later fetch that the mailbox's
  -- receive capability authorizes returns everything that was pending there, in order, and that
  -- message last, and `verify_envelope` accepts it as it was sent; an acknowledgement of it
  -- deletes it, and then the relay holds the messages that it held at first, less those that
  -- have expired meanwhile.
  pub delivered :
      (r : Relay)
      → Ready c e r
      → let sent = enqueue c healthy r (sent_request c e) e.sent_at in
        let got = fetch c healthy sent.1 (fetch_request c e) e.fetched_at in
        let acked = acknowledge c healthy got.1 (ack_request c e) e.acknowledged_at in
        (sent.0 ≡ ok stored)
        × (got.0 ≡ ok (envelopes c e r))
        × (verify_envelope c
              (receiver_capability c e.owner)
              (envelope_of (sent_request c e))
              e.fetched_at
            ≡ ok (verified (envelope_of (sent_request c e))))
        × (acked.0 ≡ ok deleted)
        × (acked.1.tables.messages
            ≡ delete_where (message_expired e.acknowledged_at) r.tables.messages)
  delivered r h =
      let (sent, got, acked) = exchange-served r h in
      (
        ap (λ x. x.0) sent,
        rw (sent, got) refl,
        verify_envelope-authorize c laws e.owner e.message_id e.packet e.expires_at e.fetched_at
            (omega arith),
        rw (sent, got, acked) refl,
        rw (sent, got, acked) (messages_left c laws e r h),
      )
