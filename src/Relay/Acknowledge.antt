-- ===== src/Relay/Acknowledge.antt =====
-- `Relay::acknowledge`. Each takes the faults of its statements;
-- the value that the code returns and the relay that it mutates are a pair.
use secure_messenger_lab.Prelude.{ℕ, none, some, [], ◌∷◌, if◌then◌else◌, not}
use secure_messenger_lab.Errors.{Result, ok, unauthorized, message_not_found, reject_if}
use secure_messenger_lab.Bytes.{bytes_eq, saturating_add}
use secure_messenger_lab.Crypto.{Crypto}
use secure_messenger_lab.Capability.{AckRequest, ack_signing_bytes}
use secure_messenger_lab.Table.{find_where, exists_where}
use secure_messenger_lab.Relay.Store.{
  Message, Relay, select_tombstone, select_message, upsert_tombstone, delete_message, Faults, Tx,
  pure, fail, lift, statement, ◌>>=◌, ◌>>◌, settle, immediate, to_i64, Reply, authorized,
}
use secure_messenger_lab.Relay.Sql.{
  is_message, is_tombstone, delete_message_sql, upsert_tombstone_sql,
}
use secure_messenger_lab.Relay.Checks.{
  tombstone_ttl_seconds, validate_request_time, receive_key, mailbox_key, purge_expired_in,
}

pub data AckOutcome : Type 0 where
  deleted already_deleted : AckOutcome

module _ (c : Crypto) (fails : Faults) where
  -- The two arms of `acknowledge`, by whether the message is queued.
  unfoldable pub acknowledge_missing : AckRequest → Tx (Reply AckOutcome)
  acknowledge_missing request = do
    gone ←
        statement fails select_tombstone (λ t.
          ok (exists_where (is_tombstone request.queue_id request.message_id) t.tombstones, t))
    if gone then pure ("message_ack_duplicate" ∷ [], already_deleted) else fail message_not_found

  unfoldable pub acknowledge_queued : AckRequest → ℕ → Message → Tx (Reply AckOutcome)
  unfolding to_i64 saturating_add
  acknowledge_queued request now m = do
    lift (reject_if (not (bytes_eq (c.sha256 m.ciphertext) request.packet_hash)) unauthorized)
    statement fails delete_message (delete_message_sql request.queue_id request.message_id)
    delete_after ← lift (to_i64 (saturating_add now tombstone_ttl_seconds))
    statement fails upsert_tombstone (
        upsert_tombstone_sql (record {
          queue_id = request.queue_id;
          message_id = request.message_id;
          delete_after = delete_after;
        }))
    pure ("message_acknowledged_and_deleted" ∷ [], deleted)

  unfoldable pub acknowledge_in : AckRequest → ℕ → Tx (Reply AckOutcome)
  acknowledge_in request now = do
    _ ← purge_expired_in fails now
    key ← mailbox_key c fails request.queue_id receive_key
    lift (authorized (c.verify key (ack_signing_bytes request) request.signature))
    existing ←
        statement fails select_message
          (λ t. ok (find_where (is_message request.queue_id request.message_id) t.messages, t))
    elim existing [ none ↦ acknowledge_missing request | some m ↦ acknowledge_queued request now m ]

  -- `acknowledge`, up to the reply of its commit.
  unfoldable pub acknowledge_body : AckRequest → ℕ → Tx (Reply AckOutcome)
  acknowledge_body request now = do
    lift (validate_request_time request.valid_until now)
    immediate fails (acknowledge_in request now)

  unfoldable pub acknowledge : Relay → AckRequest → ℕ → Result AckOutcome × Relay
  acknowledge r request now = settle fails r (acknowledge_body request now r.tables)
