-- ===== src/Relay/Checks.antt =====
-- The helpers under the relay's handlers: time windows, keys, the expiry sweep and nonces.
use secure_messenger_lab.Prelude.{
  ℕ, ◌*◌, ◌||◌, Option, none, some, leb, ltb, ◌==◌, if◌then◌else◌, length,
}
use secure_messenger_lab.Errors.{
  Result, ok, err, storage, unauthorized, request_expired, invalid_expiry, mailbox_not_found,
  reject_if,
}
use secure_messenger_lab.Bytes.{Bytes, saturating_add}
use secure_messenger_lab.Crypto.{Crypto}
use secure_messenger_lab.Table.{find_where}
use secure_messenger_lab.Relay.Store.{
  Mailbox, Role, purge_messages, purge_tombstones, purge_request_nonces, purge_registration_nonces,
  select_key, insert_request_nonce, Faults, Tx, pure, fail, lift, statement, ◌>>=◌, ◌>>◌, to_i64,
}
use secure_messenger_lab.Relay.Sql.{
  of_queue, purge_messages_sql, purge_tombstones_sql, purge_request_nonces_sql,
  purge_registration_nonces_sql, insert_request_nonce_sql,
}

abbrev pub max_packet_bytes : ℕ
max_packet_bytes = 1048576

abbrev pub max_message_ttl_seconds : ℕ
max_message_ttl_seconds = 7 * 24 * 60 * 60

abbrev pub tombstone_ttl_seconds : ℕ
tombstone_ttl_seconds = 7 * 24 * 60 * 60

unfoldable pub validate_request_time : ℕ → ℕ → Result (Unit {0})
unfolding saturating_add
validate_request_time valid_until now =
    reject_if (leb valid_until now || ltb (saturating_add now (5 * 60)) valid_until) request_expired

unfoldable pub validate_message_expiry : ℕ → ℕ → Result (Unit {0})
unfolding saturating_add
validate_message_expiry expires_at now =
    reject_if (leb expires_at now || ltb (saturating_add now max_message_ttl_seconds) expires_at)
      invalid_expiry

-- The column that `mailbox_key` reads; its callers name these three and no other.
pub data Column : Type 0 where
  send_key receive_key manage_key : Column

abbrev pub key_of : Column → Mailbox → Bytes
key_of send_key m = m.send_key
key_of receive_key m = m.receive_key
key_of manage_key m = m.manage_key

-- The stored key has to be 32 bytes that parse as a public key.
unfoldable pub parse_key : Crypto → Bytes → Result Bytes
parse_key c key =
    if length key == 32 then (if c.is_public_key key then ok key else err storage) else err storage

unfoldable pub mailbox_key : Crypto → Faults → Bytes → Column → Tx Bytes
unfolding parse_key
mailbox_key c fails queue_id column = do
  found ← statement fails select_key (λ t. ok (find_where (of_queue queue_id) t.mailboxes, t))
  elim found [
    | none ↦ fail mailbox_not_found
    | some mailbox ↦ lift (parse_key c (key_of column mailbox))
  ]

unfoldable pub purge_expired_in : Faults → ℕ → Tx ℕ
unfolding to_i64 purge_messages_sql purge_tombstones_sql purge_request_nonces_sql
    purge_registration_nonces_sql
purge_expired_in fails now = do
  now ← lift (to_i64 now)
  deleted ← statement fails purge_messages (purge_messages_sql now)
  statement fails purge_tombstones (purge_tombstones_sql now)
  statement fails purge_request_nonces (purge_request_nonces_sql now)
  statement fails purge_registration_nonces (purge_registration_nonces_sql now)
  pure deleted

unfoldable pub record_nonce : Faults → Bytes → Role → Bytes → ℕ → Tx (Unit {0})
unfolding to_i64 insert_request_nonce_sql
record_nonce fails queue_id role nonce delete_after = do
  delete_after ← lift (to_i64 delete_after)
  inserted ← statement fails insert_request_nonce (
      insert_request_nonce_sql
        (record { queue_id = queue_id; role = role; nonce = nonce; delete_after = delete_after }))
  if inserted == 1 then pure tt else fail unauthorized

-- `unix_now`: the seconds since the epoch, none before it.
unfoldable pub unix_now : Option ℕ → Result ℕ
unix_now since_epoch = elim since_epoch [ some seconds ↦ ok seconds | none ↦ err storage ]
