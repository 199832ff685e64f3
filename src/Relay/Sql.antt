-- ===== src/Relay/Sql.antt =====
-- The SQL statements of src/relay.rs, as functions on the tables. Each checks the constraints of
-- the schema: primary keys, CHECK clauses on lengths, and foreign keys with ON DELETE CASCADE.
-- INSERT OR IGNORE skips a row that violates a key or a CHECK, and counts no change; a foreign
-- key that it violates is an error all the same.
use secure_messenger_lab.Prelude.{
  ℕ, Bool, true, false, not, ◌&&◌, ◌||◌, [], ◌∷◌, ◌++◌, map, List, leb, ◌==◌, if◌then◌else◌, length,
}
use secure_messenger_lab.Errors.{ok, err, storage}
use secure_messenger_lab.Bytes.{Bytes, bytes_eq}
use secure_messenger_lab.Table.{select_where, delete_where, exists_where}
use secure_messenger_lab.Relay.Store.{
  Mailbox, Message, Tombstone, Role, receive, manage, RequestNonce, RegistrationNonce, RetiredQueue,
  Tx,
}

-- WHERE clauses.
abbrev pub of_queue : Bytes → Mailbox → Bool
of_queue queue m = bytes_eq m.queue_id queue

abbrev pub is_message : Bytes → Bytes → Message → Bool
is_message queue id m = bytes_eq m.queue_id queue && bytes_eq m.message_id id

abbrev pub is_tombstone : Bytes → Bytes → Tombstone → Bool
is_tombstone queue id d = bytes_eq d.queue_id queue && bytes_eq d.message_id id

abbrev pub role_eq : Role → Role → Bool
role_eq receive receive = true
role_eq manage manage = true
role_eq _ _ = false

abbrev pub is_request_nonce : Bytes → Role → Bytes → RequestNonce → Bool
is_request_nonce queue role nonce n =
    bytes_eq n.queue_id queue && (role_eq n.role role && bytes_eq n.nonce nonce)

abbrev pub is_registration_nonce : Bytes → Bytes → RegistrationNonce → Bool
is_registration_nonce queue nonce n = bytes_eq n.queue_id queue && bytes_eq n.nonce nonce

abbrev pub is_retired : Bytes → RetiredQueue → Bool
is_retired hash q = bytes_eq q.queue_hash hash

abbrev pub message_expired : ℕ → Message → Bool
message_expired now m = leb m.expires_at now

abbrev pub tombstone_expired : ℕ → Tombstone → Bool
tombstone_expired now d = leb d.delete_after now

abbrev pub request_nonce_expired : ℕ → RequestNonce → Bool
request_nonce_expired now n = leb n.delete_after now

abbrev pub registration_nonce_expired : ℕ → RegistrationNonce → Bool
registration_nonce_expired now n = leb n.delete_after now

-- DELETE FROM messages WHERE expires_at <= ?1, with the number of rows deleted
unfoldable pub purge_messages_sql : ℕ → Tx ℕ
purge_messages_sql now t = ok (
  length (select_where (message_expired now) t.messages),
  record t { messages = delete_where (message_expired now) t.messages },
)

-- DELETE FROM tombstones WHERE delete_after <= ?1
unfoldable pub purge_tombstones_sql : ℕ → Tx (Unit {0})
purge_tombstones_sql now t =
    ok (tt, record t { tombstones = delete_where (tombstone_expired now) t.tombstones })

-- DELETE FROM request_nonces WHERE delete_after <= ?1
unfoldable pub purge_request_nonces_sql : ℕ → Tx (Unit {0})
purge_request_nonces_sql now t =
    ok (tt, record t { request_nonces = delete_where (request_nonce_expired now) t.request_nonces })

-- DELETE FROM registration_nonces WHERE delete_after <= ?1
unfoldable pub purge_registration_nonces_sql : ℕ → Tx (Unit {0})
purge_registration_nonces_sql now t = ok (
  tt,
  record t {
    registration_nonces = delete_where (registration_nonce_expired now) t.registration_nonces;
  },
)

-- INSERT OR IGNORE INTO registration_nonces
unfoldable pub insert_registration_nonce_sql : RegistrationNonce → Tx ℕ
insert_registration_nonce_sql row t =
    if exists_where (is_registration_nonce row.queue_id row.nonce) t.registration_nonces
      || not (length row.queue_id == 32 && length row.nonce == 16)
    then ok (0, t)
    else ok (1, record t { registration_nonces = t.registration_nonces ++ (row ∷ []) })

-- INSERT INTO mailboxes
unfoldable pub insert_mailbox_sql : Mailbox → Tx (Unit {0})
insert_mailbox_sql row t =
    if exists_where (of_queue row.queue_id) t.mailboxes
      || not (
          length row.queue_id == 32
          && (length row.send_key == 32
              && (length row.receive_key == 32 && length row.manage_key == 32)))
    then err storage
    else ok (tt, record t { mailboxes = t.mailboxes ++ (row ∷ []) })

-- INSERT INTO messages
unfoldable pub insert_message_sql : Message → Tx (Unit {0})
insert_message_sql row t =
    if exists_where (is_message row.queue_id row.message_id) t.messages
      || (not (exists_where (of_queue row.queue_id) t.mailboxes)
          || not (length row.message_id == 16 && length row.sender_signature == 64))
    then err storage
    else ok (tt, record t { messages = t.messages ++ (row ∷ []) })

-- INSERT OR IGNORE INTO request_nonces
unfoldable pub insert_request_nonce_sql : RequestNonce → Tx ℕ
insert_request_nonce_sql row t =
    if exists_where (is_request_nonce row.queue_id row.role row.nonce) t.request_nonces
      || not (length row.nonce == 16)
    then ok (0, t)
    else if exists_where (of_queue row.queue_id) t.mailboxes
    then ok (1, record t { request_nonces = t.request_nonces ++ (row ∷ []) })
    else err storage

-- DELETE FROM messages WHERE queue_id = ?1 AND message_id = ?2
unfoldable pub delete_message_sql : Bytes → Bytes → Tx (Unit {0})
delete_message_sql queue id t =
    ok (tt, record t { messages = delete_where (is_message queue id) t.messages })

-- INSERT INTO tombstones … ON CONFLICT(queue_id, message_id) DO UPDATE SET delete_after
unfoldable pub extend_tombstone : Tombstone → Tombstone → Tombstone
extend_tombstone row d =
    if is_tombstone row.queue_id row.message_id d
    then record d { delete_after = row.delete_after }
    else d

unfoldable pub upsert_tombstone : Tombstone → List Tombstone → List Tombstone
upsert_tombstone row ds =
    if exists_where (is_tombstone row.queue_id row.message_id) ds
    then map (extend_tombstone row) ds
    else ds ++ (row ∷ [])

unfoldable pub upsert_tombstone_sql : Tombstone → Tx (Unit {0})
upsert_tombstone_sql row t =
    if not (length row.message_id == 16) || not (exists_where (of_queue row.queue_id) t.mailboxes)
    then err storage
    else ok (tt, record t { tombstones = upsert_tombstone row t.tombstones })

unfoldable pub insert_retired : RetiredQueue → List RetiredQueue → List RetiredQueue
insert_retired row qs =
    if exists_where (is_retired row.queue_hash) qs || not (length row.queue_hash == 32)
    then qs
    else qs ++ (row ∷ [])

-- INSERT OR IGNORE INTO retired_queues
unfoldable pub insert_retired_sql : RetiredQueue → Tx (Unit {0})
insert_retired_sql row t =
    ok (tt, record t { retired_queues = insert_retired row t.retired_queues })

-- DELETE FROM mailboxes WHERE queue_id = ?1, with its cascades and the number of rows deleted
unfoldable pub delete_mailbox_sql : Bytes → Tx ℕ
delete_mailbox_sql queue t = ok (
  length (select_where (of_queue queue) t.mailboxes),
  record t {
    mailboxes = delete_where (of_queue queue) t.mailboxes;
    messages = delete_where (λ m. bytes_eq m.queue_id queue) t.messages;
    tombstones = delete_where (λ d. bytes_eq d.queue_id queue) t.tombstones;
    request_nonces = delete_where (λ n. bytes_eq n.queue_id queue) t.request_nonces;
  },
)
