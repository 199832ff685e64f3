-- ===== src/Relay/Enqueue.antt =====
-- `Relay::enqueue`. Each takes the faults of its statements;
-- the value that the code returns and the relay that it mutates are a pair.
use mathlib.Core.Bool.{◌&&◌}
use secure_messenger_lab.Prelude.{ℕ, ◌||◌, none, some, [], ◌∷◌, ltb, ◌==◌, if◌then◌else◌, length}
use secure_messenger_lab.Errors.{
  Result, ok, invalid_payload, message_gone, message_conflict, reject_if,
}
use secure_messenger_lab.Bytes.{bytes_eq}
use secure_messenger_lab.Crypto.{Crypto}
use secure_messenger_lab.Capability.{SendRequest, request_signing_bytes}
use secure_messenger_lab.Table.{find_where, exists_where}
use secure_messenger_lab.Relay.Store.{
  Message, Relay, select_tombstone, select_message, insert_message, Faults, Tx, pure, fail, lift,
  statement, ◌>>=◌, ◌>>◌, settle, immediate, to_i64, Reply, authorized,
}
use secure_messenger_lab.Relay.Sql.{is_message, is_tombstone, insert_message_sql}
use secure_messenger_lab.Relay.Checks.{
  max_packet_bytes, validate_message_expiry, send_key, mailbox_key, purge_expired_in,
}

pub data EnqueueOutcome : Type 0 where
  stored duplicate : EnqueueOutcome

-- The row that `enqueue` inserts.
abbrev pub message_of : SendRequest → ℕ → Message
message_of request expires_at = record {
  queue_id = request.queue_id;
  message_id = request.message_id;
  ciphertext = request.packet;
  expires_at = expires_at;
  sender_signature = request.signature;
}

module _ (c : Crypto) (fails : Faults) where
  -- The arm of `enqueue` for an identifier that is queued: `&&` converts the expiry only if the
  -- ciphertext is the same.
  unfoldable pub enqueue_again : SendRequest → Message → Tx (Reply EnqueueOutcome)
  unfolding to_i64
  enqueue_again request old =
      if bytes_eq old.ciphertext request.packet
      then (do
        expires_at ← lift (to_i64 request.expires_at)
        if old.expires_at == expires_at
            then pure ("message_enqueue_duplicate" ∷ [], duplicate)
            else fail message_conflict)
      else fail message_conflict

  unfoldable pub enqueue_new : SendRequest → Tx (Reply EnqueueOutcome)
  unfolding to_i64
  enqueue_new request = do
    expires_at ← lift (to_i64 request.expires_at)
    statement fails insert_message (insert_message_sql (message_of request expires_at))
    pure ("message_enqueued" ∷ [], stored)

  unfoldable pub enqueue_in : SendRequest → ℕ → Tx (Reply EnqueueOutcome)
  unfolding to_i64
  enqueue_in request now = do
    _ ← purge_expired_in fails now
    key ← mailbox_key c fails request.queue_id send_key
    lift (authorized (c.verify key (request_signing_bytes c request) request.signature))
    now' ← lift (to_i64 now)
    tombstoned ← statement fails select_tombstone (λ t. ok (
      exists_where
          (λ d. is_tombstone request.queue_id request.message_id d && ltb now' d.delete_after)
          t.tombstones,
      t,
    ))
    lift (reject_if tombstoned message_gone)
    existing ←
        statement fails select_message
          (λ t. ok (find_where (is_message request.queue_id request.message_id) t.messages, t))
    elim existing [ some old ↦ enqueue_again request old | none ↦ enqueue_new request ]

  -- `enqueue`, up to the reply of its commit.
  unfoldable pub enqueue_body : SendRequest → ℕ → Tx (Reply EnqueueOutcome)
  enqueue_body request now = do
    lift (
        reject_if (length request.packet == 0 || ltb max_packet_bytes (length request.packet))
          invalid_payload)
    lift (validate_message_expiry request.expires_at now)
    immediate fails (enqueue_in request now)

  unfoldable pub enqueue : Relay → SendRequest → ℕ → Result EnqueueOutcome × Relay
  enqueue r request now = settle fails r (enqueue_body request now r.tables)
