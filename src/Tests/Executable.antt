-- ===== src/Tests/Executable.antt =====
-- Opens every function that a run at concrete inputs computes through.
use secure_messenger_lab.Bytes.{bytes_eq, from_slice, to_be_bytes, saturating_add}
use secure_messenger_lab.Encoding.{append_part, append_parts, canonical}
use secure_messenger_lab.Table.{select_where, delete_where, find_where, exists_where}
use secure_messenger_lab.Capability.{
  registration_signing_bytes, fetch_signing_bytes, ack_signing_bytes, delete_signing_bytes,
  send_signing_bytes, request_signing_bytes, registration, sender_capability, receiver_capability,
  manager_capability, authorize, authorize_fetch, verify_envelope, authorize_ack, authorize_delete,
}
use secure_messenger_lab.Relay.Store.{settle, immediate, to_i64}
use secure_messenger_lab.Relay.Sql.{
  purge_messages_sql, purge_tombstones_sql, purge_request_nonces_sql, purge_registration_nonces_sql,
  insert_registration_nonce_sql, insert_mailbox_sql, insert_message_sql, insert_request_nonce_sql,
  delete_message_sql, extend_tombstone, upsert_tombstone, upsert_tombstone_sql, insert_retired,
  insert_retired_sql, delete_mailbox_sql,
}
use secure_messenger_lab.Relay.Checks.{
  validate_request_time, validate_message_expiry, parse_key, mailbox_key, purge_expired_in,
  record_nonce,
}
use secure_messenger_lab.Relay.Register.{
  register_again, register_new, register_in, register, register_body,
}
use secure_messenger_lab.Relay.Enqueue.{
  enqueue_again, enqueue_new, enqueue_in, enqueue, enqueue_body,
}
use secure_messenger_lab.Relay.Fetch.{decode_row, decode_rows, fetch_in, fetch, fetch_body}
use secure_messenger_lab.Relay.Acknowledge.{
  acknowledge_missing, acknowledge_queued, acknowledge_in, acknowledge, acknowledge_body,
}
use secure_messenger_lab.Relay.Remove.{
  delete_mailbox_in, delete_mailbox, purge_expired, queued_message_count_at, tombstone_count,
  delete_mailbox_body, purge_expired_body,
}
use secure_messenger_lab.Tests.Fixtures.{fit, checksum, toy_sign}

-- On an `unfolding` line, this name stands for all on the line below.
unfoldable pub executable : Unit {0}
unfolding bytes_eq from_slice to_be_bytes saturating_add append_part append_parts canonical
    select_where delete_where find_where exists_where registration_signing_bytes fetch_signing_bytes
    ack_signing_bytes delete_signing_bytes send_signing_bytes request_signing_bytes registration
    sender_capability receiver_capability manager_capability authorize authorize_fetch
    verify_envelope authorize_ack authorize_delete register_body enqueue_body fetch_body
    acknowledge_body delete_mailbox_body purge_expired_body settle immediate to_i64
    purge_messages_sql purge_tombstones_sql purge_request_nonces_sql purge_registration_nonces_sql
    insert_registration_nonce_sql insert_mailbox_sql insert_message_sql insert_request_nonce_sql
    delete_message_sql extend_tombstone upsert_tombstone upsert_tombstone_sql insert_retired
    insert_retired_sql delete_mailbox_sql validate_request_time validate_message_expiry parse_key
    mailbox_key purge_expired_in record_nonce register_again register_new register_in register
    enqueue_again enqueue_new enqueue_in enqueue decode_row decode_rows fetch_in fetch
    acknowledge_missing acknowledge_queued acknowledge_in acknowledge delete_mailbox_in
    delete_mailbox purge_expired queued_message_count_at tombstone_count fit checksum toy_sign
executable = tt
