-- ===== src/Relay/Ddl.antt =====
-- The schema texts of src/relay.rs.
use secure_messenger_lab.Prelude.{[], ◌∷◌, ◌++◌}
use secure_messenger_lab.Bytes.{Bytes, ascii}
use secure_messenger_lab.Sqlite.{text}

unfoldable pub current_schema_ddl : Bytes
current_schema_ddl =
    text (
      "" ∷ "        CREATE TABLE mailboxes ("
      ∷ "            queue_id BLOB PRIMARY KEY NOT NULL CHECK(length(queue_id) = 32),"
      ∷ "            send_key BLOB NOT NULL CHECK(length(send_key) = 32),"
      ∷ "            receive_key BLOB NOT NULL CHECK(length(receive_key) = 32),"
      ∷ "            manage_key BLOB NOT NULL CHECK(length(manage_key) = 32),"
      ∷ "            created_at INTEGER NOT NULL" ∷ "        ) STRICT;" ∷ ""
      ∷ "        CREATE TABLE messages (" ∷ "            queue_id BLOB NOT NULL,"
      ∷ "            message_id BLOB NOT NULL CHECK(length(message_id) = 16),"
      ∷ "            ciphertext BLOB NOT NULL," ∷ "            expires_at INTEGER NOT NULL,"
      ∷ "            sender_signature BLOB NOT NULL CHECK(length(sender_signature) = 64),"
      ∷ "            PRIMARY KEY (queue_id, message_id),"
      ∷ "            FOREIGN KEY (queue_id) REFERENCES mailboxes(queue_id) ON DELETE CASCADE"
      ∷ "        ) STRICT;" ∷ "" ∷ "        CREATE TABLE tombstones ("
      ∷ "            queue_id BLOB NOT NULL,"
      ∷ "            message_id BLOB NOT NULL CHECK(length(message_id) = 16),"
      ∷ "            delete_after INTEGER NOT NULL,"
      ∷ "            PRIMARY KEY (queue_id, message_id),"
      ∷ "            FOREIGN KEY (queue_id) REFERENCES mailboxes(queue_id) ON DELETE CASCADE"
      ∷ "        ) STRICT;" ∷ "" ∷ "        CREATE TABLE request_nonces ("
      ∷ "            queue_id BLOB NOT NULL," ∷ "            role TEXT NOT NULL,"
      ∷ "            nonce BLOB NOT NULL CHECK(length(nonce) = 16),"
      ∷ "            delete_after INTEGER NOT NULL,"
      ∷ "            PRIMARY KEY (queue_id, role, nonce),"
      ∷ "            FOREIGN KEY (queue_id) REFERENCES mailboxes(queue_id) ON DELETE CASCADE"
      ∷ "        ) STRICT;" ∷ "" ∷ "        CREATE TABLE registration_nonces ("
      ∷ "            queue_id BLOB NOT NULL CHECK(length(queue_id) = 32),"
      ∷ "            nonce BLOB NOT NULL CHECK(length(nonce) = 16),"
      ∷ "            delete_after INTEGER NOT NULL," ∷ "            PRIMARY KEY (queue_id, nonce)"
      ∷ "        ) STRICT;" ∷ "" ∷ "        CREATE TABLE retired_queues ("
      ∷ "            queue_hash BLOB PRIMARY KEY NOT NULL CHECK(length(queue_hash) = 32),"
      ∷ "            retired_at INTEGER NOT NULL" ∷ "        ) STRICT;" ∷ [])
    ++ ascii "        "

unfoldable pub current_messages_ddl : Bytes
current_messages_ddl =
    text (
      "" ∷ "        CREATE TABLE messages (" ∷ "            queue_id BLOB NOT NULL,"
      ∷ "            message_id BLOB NOT NULL CHECK(length(message_id) = 16),"
      ∷ "            ciphertext BLOB NOT NULL," ∷ "            expires_at INTEGER NOT NULL,"
      ∷ "            sender_signature BLOB NOT NULL CHECK(length(sender_signature) = 64),"
      ∷ "            PRIMARY KEY (queue_id, message_id),"
      ∷ "            FOREIGN KEY (queue_id) REFERENCES mailboxes(queue_id) ON DELETE CASCADE"
      ∷ "        ) STRICT;" ∷ [])
    ++ ascii "        "

unfoldable pub legacy_schema_ddl : Bytes
legacy_schema_ddl =
    text (
      "" ∷ "        CREATE TABLE mailboxes ("
      ∷ "            queue_id BLOB PRIMARY KEY NOT NULL CHECK(length(queue_id) = 32),"
      ∷ "            send_key BLOB NOT NULL CHECK(length(send_key) = 32),"
      ∷ "            receive_key BLOB NOT NULL CHECK(length(receive_key) = 32),"
      ∷ "            manage_key BLOB NOT NULL CHECK(length(manage_key) = 32),"
      ∷ "            created_at INTEGER NOT NULL" ∷ "        ) STRICT;" ∷ ""
      ∷ "        CREATE TABLE messages (" ∷ "            queue_id BLOB NOT NULL,"
      ∷ "            message_id BLOB NOT NULL CHECK(length(message_id) = 16),"
      ∷ "            ciphertext BLOB NOT NULL," ∷ "            expires_at INTEGER NOT NULL,"
      ∷ "            PRIMARY KEY (queue_id, message_id),"
      ∷ "            FOREIGN KEY (queue_id) REFERENCES mailboxes(queue_id) ON DELETE CASCADE"
      ∷ "        ) STRICT;" ∷ "" ∷ "        CREATE TABLE tombstones ("
      ∷ "            queue_id BLOB NOT NULL,"
      ∷ "            message_id BLOB NOT NULL CHECK(length(message_id) = 16),"
      ∷ "            delete_after INTEGER NOT NULL,"
      ∷ "            PRIMARY KEY (queue_id, message_id),"
      ∷ "            FOREIGN KEY (queue_id) REFERENCES mailboxes(queue_id) ON DELETE CASCADE"
      ∷ "        ) STRICT;" ∷ "" ∷ "        CREATE TABLE request_nonces ("
      ∷ "            queue_id BLOB NOT NULL," ∷ "            role TEXT NOT NULL,"
      ∷ "            nonce BLOB NOT NULL CHECK(length(nonce) = 16),"
      ∷ "            delete_after INTEGER NOT NULL,"
      ∷ "            PRIMARY KEY (queue_id, role, nonce),"
      ∷ "            FOREIGN KEY (queue_id) REFERENCES mailboxes(queue_id) ON DELETE CASCADE"
      ∷ "        ) STRICT;" ∷ "" ∷ "        CREATE TABLE registration_nonces ("
      ∷ "            queue_id BLOB NOT NULL CHECK(length(queue_id) = 32),"
      ∷ "            nonce BLOB NOT NULL CHECK(length(nonce) = 16),"
      ∷ "            delete_after INTEGER NOT NULL," ∷ "            PRIMARY KEY (queue_id, nonce)"
      ∷ "        ) STRICT;" ∷ "" ∷ "        CREATE TABLE retired_queues ("
      ∷ "            queue_hash BLOB PRIMARY KEY NOT NULL CHECK(length(queue_hash) = 32),"
      ∷ "            retired_at INTEGER NOT NULL" ∷ "        ) STRICT;" ∷ [])
    ++ ascii "        "
