-- ===== src/Relay/Fetch.antt =====
-- `Relay::fetch`. Each takes the faults of its statements;
-- the value that the code returns and the relay that it mutates are a pair.
use mathlib.Core.Bool.{◌&&◌}
use secure_messenger_lab.Prelude.{ℕ, none, some, List, [], ◌∷◌, ltb, if◌then◌else◌}
use secure_messenger_lab.Errors
use secure_messenger_lab.Errors.{
  Result, ok, err, storage, unauthorized, invalid_payload, mailbox_conflict, message_gone,
  message_conflict, message_not_found, reject_if,
}
use secure_messenger_lab.Bytes.{Bytes, bytes_eq, from_slice}
use secure_messenger_lab.Crypto.{Crypto}
use secure_messenger_lab.Packets.{StoredEnvelope}
use secure_messenger_lab.Capability.{FetchRequest, fetch_signing_bytes}
use secure_messenger_lab.Table.{select_where}
use secure_messenger_lab.Relay.Store.{
  Message, receive, Relay, select_messages, Faults, Tx, pure, lift, statement, ◌>>=◌, ◌>>◌, settle,
  immediate, to_i64, Reply, authorized,
}
use secure_messenger_lab.Relay.Checks.{
  validate_request_time, receive_key, mailbox_key, purge_expired_in, record_nonce,
}

module _ (c : Crypto) where
  -- The row closure of `fetch`: a stored identifier or signature that does not parse is an error.
  unfoldable pub decode_row : Bytes → Message → Result StoredEnvelope
  unfolding from_slice
  decode_row queue_id m = elim (from_slice 16 m.message_id) [
    | none ↦ err storage
    | some message_id ↦
        if c.is_signature m.sender_signature
        then ok (record {
          queue_id = queue_id;
          message_id = message_id;
          packet = m.ciphertext;
          expires_at = m.expires_at;
          sender_signature = m.sender_signature;
        })
        else err storage
  ]

  -- `rows.collect::<Result<Vec<_>, _>>()`
  unfoldable pub decode_rows : Bytes → List Message → Result (List StoredEnvelope)
  decode_rows queue_id [] = ok []
  decode_rows queue_id (m ∷ ms) =
      Errors.◌>>=◌ (decode_row queue_id m)
        λ envelope. Errors.◌>>=◌ (decode_rows queue_id ms) λ rest. ok (envelope ∷ rest)

module _ (c : Crypto) (fails : Faults) where
  unfoldable pub fetch_in : FetchRequest → ℕ → Tx (Reply (List StoredEnvelope))
  unfolding to_i64
  fetch_in request now = do
    _ ← purge_expired_in fails now
    key ← mailbox_key c fails request.queue_id receive_key
    lift (authorized (c.verify key (fetch_signing_bytes request) request.signature))
    record_nonce fails request.queue_id receive request.nonce request.valid_until
    now' ← lift (to_i64 now)
    rows ← statement fails select_messages (λ t. ok (
      select_where (λ m. bytes_eq m.queue_id request.queue_id && ltb now' m.expires_at) t.messages,
      t,
    ))
    envelopes ← lift (decode_rows c request.queue_id rows)
    pure ("mailbox_fetched" ∷ [], envelopes)

  -- `fetch`, up to the reply of its commit.
  unfoldable pub fetch_body : FetchRequest → ℕ → Tx (Reply (List StoredEnvelope))
  fetch_body request now = do
    lift (validate_request_time request.valid_until now)
    immediate fails (fetch_in request now)

  unfoldable pub fetch : Relay → FetchRequest → ℕ → Result (List StoredEnvelope) × Relay
  fetch r request now = settle fails r (fetch_body request now r.tables)
