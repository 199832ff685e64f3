-- ===== src/Relay/Register.antt =====
-- `Relay::register`. Each takes the faults of its statements;
-- the value that the code returns and the relay that it mutates are a pair.
use mathlib.Core.Bool.{◌&&◌}
use secure_messenger_lab.Prelude.{
  ℕ, Bool, true, false, none, some, [], ◌∷◌, ◌==◌, if◌then◌else◌, not,
}
use secure_messenger_lab.Errors.{Result, ok, unauthorized, mailbox_conflict, reject_if}
use secure_messenger_lab.Bytes.{bytes_eq}
use secure_messenger_lab.Crypto.{Crypto}
use secure_messenger_lab.Capability.{MailboxRegistration, registration_signing_bytes}
use secure_messenger_lab.Table.{find_where, exists_where}
use secure_messenger_lab.Relay.Store.{
  Mailbox, Relay, select_retired, select_mailbox, insert_registration_nonce, insert_mailbox, Faults,
  Tx, pure, fail, lift, statement, ◌>>=◌, ◌>>◌, settle, immediate, to_i64, Reply, authorized,
}
use secure_messenger_lab.Relay.Sql.{
  of_queue, is_retired, insert_registration_nonce_sql, insert_mailbox_sql,
}
use secure_messenger_lab.Relay.Checks.{validate_request_time, purge_expired_in}

module _ (c : Crypto) (fails : Faults) where
  -- The arm of `register` for a queue that has a mailbox.
  unfoldable pub register_again : MailboxRegistration → Mailbox → Tx (Reply Bool)
  unfolding to_i64
  register_again request old =
      if bytes_eq old.send_key request.send_key
        && (bytes_eq old.receive_key request.receive_key
            && bytes_eq old.manage_key request.manage_key)
      then (do
        until ← lift (to_i64 request.valid_until)
        _ ← statement fails insert_registration_nonce (
            insert_registration_nonce_sql
              (record { queue_id = request.queue_id; nonce = request.nonce; delete_after = until }))
        pure ("mailbox_registration_duplicate" ∷ [], false))
      else fail mailbox_conflict

  -- The rest of `register`, for a queue that has none.
  unfoldable pub register_new : MailboxRegistration → ℕ → Tx (Reply Bool)
  unfolding to_i64
  register_new request now = do
    until ← lift (to_i64 request.valid_until)
    recorded ← statement fails insert_registration_nonce (
        insert_registration_nonce_sql
          (record { queue_id = request.queue_id; nonce = request.nonce; delete_after = until }))
    lift (reject_if (not (recorded == 1)) unauthorized)
    created_at ← lift (to_i64 now)
    statement fails insert_mailbox (
        insert_mailbox_sql (record {
          queue_id = request.queue_id;
          send_key = request.send_key;
          receive_key = request.receive_key;
          manage_key = request.manage_key;
          created_at = created_at;
        }))
    pure ("mailbox_registered" ∷ [], true)

  unfoldable pub register_in : MailboxRegistration → ℕ → Tx (Reply Bool)
  register_in request now = do
    _ ← purge_expired_in fails now
    retired ←
        statement fails select_retired
          (λ t. ok (exists_where (is_retired (c.sha256 request.queue_id)) t.retired_queues, t))
    lift (reject_if retired mailbox_conflict)
    existing ←
        statement fails select_mailbox
          (λ t. ok (find_where (of_queue request.queue_id) t.mailboxes, t))
    elim existing [ some old ↦ register_again request old | none ↦ register_new request now ]

  -- `register`, up to the reply of its commit.
  unfoldable pub register_body : MailboxRegistration → ℕ → Tx (Reply Bool)
  register_body request now = do
    lift (validate_request_time request.valid_until now)
    lift (
        authorized
          (c.verify request.manage_key (registration_signing_bytes request) request.signature))
    immediate fails (register_in request now)

  unfoldable pub register : Relay → MailboxRegistration → ℕ → Result Bool × Relay
  register r request now = settle fails r (register_body request now r.tables)
