-- ===== src/Relay/Remove.antt =====
-- `Relay::delete_mailbox`, `purge_expired` and the counts. Each takes the faults of its statements;
-- the value that the code returns and the relay that it mutates are a pair.
use secure_messenger_lab.Prelude.{ℕ, Bool, Option, [], ◌∷◌, ltb, ◌==◌, if◌then◌else◌, length}
use secure_messenger_lab.Errors
use secure_messenger_lab.Errors.{
  Result, ok, err, storage, unauthorized, invalid_payload, mailbox_conflict, message_gone,
  message_conflict, message_not_found, reject_if,
}
use secure_messenger_lab.Crypto.{Crypto}
use secure_messenger_lab.Capability.{DeleteMailboxRequest, delete_signing_bytes}
use secure_messenger_lab.Relay.Store.{
  manage, Relay, insert_retired, delete_mailbox_row, count_messages, count_tombstones, Faults, Tx,
  pure, lift, statement, ◌>>=◌, ◌>>◌, settle, immediate, to_i64, Reply, authorized,
}
use secure_messenger_lab.Relay.Sql.{insert_retired_sql, delete_mailbox_sql}
use secure_messenger_lab.Relay.Checks.{
  validate_request_time, manage_key, mailbox_key, purge_expired_in, record_nonce, unix_now,
}

module _ (c : Crypto) (fails : Faults) where
  unfoldable pub delete_mailbox_in : DeleteMailboxRequest → ℕ → Tx (Reply Bool)
  unfolding to_i64
  delete_mailbox_in request now = do
    _ ← purge_expired_in fails now
    key ← mailbox_key c fails request.queue_id manage_key
    lift (authorized (c.verify key (delete_signing_bytes request) request.signature))
    record_nonce fails request.queue_id manage request.nonce request.valid_until
    retired_at ← lift (to_i64 now)
    statement fails insert_retired (
        insert_retired_sql
          (record { queue_hash = c.sha256 request.queue_id; retired_at = retired_at }))
    removed ← statement fails delete_mailbox_row (delete_mailbox_sql request.queue_id)
    pure ("mailbox_deleted" ∷ [], removed == 1)

  -- `delete_mailbox`, up to the reply of its commit.
  unfoldable pub delete_mailbox_body : DeleteMailboxRequest → ℕ → Tx (Reply Bool)
  delete_mailbox_body request now = do
    lift (validate_request_time request.valid_until now)
    immediate fails (delete_mailbox_in request now)

  unfoldable pub delete_mailbox : Relay → DeleteMailboxRequest → ℕ → Result Bool × Relay
  delete_mailbox r request now = settle fails r (delete_mailbox_body request now r.tables)

module _ (fails : Faults) where
  -- `purge_expired`, up to the reply of its commit.
  unfoldable pub purge_expired_body : ℕ → Tx (Reply ℕ)
  purge_expired_body now = do
    removed ← immediate fails (purge_expired_in fails now)
    pure (if ltb 0 removed then "expired_messages_deleted" ∷ [] else [], removed)

  unfoldable pub purge_expired : Relay → ℕ → Result ℕ × Relay
  purge_expired r now = settle fails r (purge_expired_body now r.tables)

  -- The sweep commits before the rows are counted, so it stays when the count fails.
  unfoldable pub queued_message_count_at : Relay → ℕ → Result ℕ × Relay
  queued_message_count_at r now =
      let (swept, r') = purge_expired r now in
      (
        Errors.◌>>=◌ swept
            λ _. if fails count_messages then err storage else ok (length r'.tables.messages),
        r',
      )

  -- `queued_message_count`, at the system clock's time
  unfoldable pub queued_message_count : Relay → Option ℕ → Result ℕ × Relay
  unfolding unix_now
  queued_message_count r clock = elim (unix_now clock) [
    | ok now ↦ queued_message_count_at r now
    | err e ↦ (err e, r)
  ]

  unfoldable pub tombstone_count : Relay → Result ℕ
  tombstone_count r =
      if fails count_tombstones then err storage else ok (length r.tables.tombstones)
