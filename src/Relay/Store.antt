-- ===== src/Relay/Store.antt =====
-- The relay's tables (`CURRENT_SCHEMA_DDL` of src/relay.rs), its state, and SQLite transactions.
-- A statement may fail at any time: `Faults` says which do, and a failure is `Storage`. A
-- transaction that returns an error, or whose commit fails, is rolled back when it is dropped; a
-- commit may also be written and its reply be an error.
-- INTEGER columns hold what `to_i64` gives, which is never negative.
use secure_messenger_lab.Prelude.{ℕ, String, Bool, true, false, List, [], ◌++◌, leb, if◌then◌else◌}
use secure_messenger_lab.Errors.{LabError, Result, ok, err, storage, unauthorized}
use secure_messenger_lab.Bytes.{Bytes, i64_max}

pub record Mailbox : Type 0 where
  pub queue_id : Bytes
  pub send_key : Bytes
  pub receive_key : Bytes
  pub manage_key : Bytes
  pub created_at : ℕ

pub record Message : Type 0 where
  pub queue_id : Bytes
  pub message_id : Bytes
  pub ciphertext : Bytes
  pub expires_at : ℕ
  pub sender_signature : Bytes

pub record Tombstone : Type 0 where
  pub queue_id : Bytes
  pub message_id : Bytes
  pub delete_after : ℕ

-- The column `role` holds "receive" or "manage".
pub data Role : Type 0 where
  receive manage : Role

pub record RequestNonce : Type 0 where
  pub queue_id : Bytes
  pub role : Role
  pub nonce : Bytes
  pub delete_after : ℕ

pub record RegistrationNonce : Type 0 where
  pub queue_id : Bytes
  pub nonce : Bytes
  pub delete_after : ℕ

pub record RetiredQueue : Type 0 where
  pub queue_hash : Bytes
  pub retired_at : ℕ

pub record Tables : Type 0 where
  pub mailboxes : List Mailbox
  pub messages : List Message
  pub tombstones : List Tombstone
  pub request_nonces : List RequestNonce
  pub registration_nonces : List RegistrationNonce
  pub retired_queues : List RetiredQueue

-- `Relay`: the database behind its connection, and the audit events of this process.
pub record Relay : Type 0 where
  pub tables : Tables
  pub audit_events : List String

abbrev pub empty_tables : Tables
empty_tables = record {
  mailboxes = [];
  messages = [];
  tombstones = [];
  request_nonces = [];
  registration_nonces = [];
  retired_queues = [];
}

-- The statements that an operation sends to SQLite.
pub data Statement : Type 0 where
  begin commit commit_reply : Statement
  purge_messages purge_tombstones purge_request_nonces purge_registration_nonces : Statement
  select_retired select_mailbox select_key select_tombstone select_message select_messages :
      Statement
  insert_registration_nonce insert_request_nonce insert_mailbox insert_message : Statement
  insert_retired upsert_tombstone delete_message delete_mailbox_row : Statement
  count_messages count_tombstones : Statement

abbrev pub Faults : Type 0
Faults = Statement → Bool

-- What runs inside a transaction, on its view of the tables.
abbrev pub Tx {ℓ} : Type ℓ → Type ℓ
Tx A = Tables → Result (A × Tables)

module _ {ℓ} {A : Type ℓ} where
  abbrev pub pure : A → Tx A
  pure a t = ok (a, t)

  abbrev pub fail : LabError → Tx A
  fail e t = err e

  abbrev pub lift : Result A → Tx A
  lift r t = elim r [ ok a ↦ ok (a, t) | err e ↦ err e ]

  abbrev pub statement : Faults → Statement → Tx A → Tx A
  statement fails s m t = elim (fails s) [ true ↦ err storage | false ↦ m t ]

module _ {ℓ κ} {A : Type ℓ} {B : Type κ} where
  infixl 5 ◌>>=◌
  abbrev pub ◌>>=◌ : Tx A → (A → Tx B) → Tx B
  ◌>>=◌ m f t = elim (m t) [ ok (a, t') ↦ f a t' | err e ↦ err e ]

module _ {ℓ} {B : Type ℓ} where
  infixl 5 ◌>>◌
  abbrev pub ◌>>◌ : Tx (Unit {0}) → Tx B → Tx B
  m >> k = m >>= λ _. k

-- The end of an operation: on success the committed tables, with the audit events pushed after
-- the commit; on an error the relay as it was, unless the commit was written and its reply is an
-- error, which comes before the events are pushed.
unfoldable pub settle {ℓ} :
    {A : Type ℓ} → Faults → Relay → Result ((List String × A) × Tables) → Result A × Relay
settle fails r (ok ((events, a), t)) =
    if fails commit_reply
    then (err storage, record r { tables = t })
    else (ok a, record r { tables = t; audit_events = r.audit_events ++ events })
settle fails r (err e) = (err e, r)

-- `transaction_with_behavior(Immediate)`, the body, `commit`.
unfoldable pub immediate {ℓ} : {A : Type ℓ} → Faults → Tx A → Tx A
immediate fails body = do
  statement fails begin (pure tt)
  a ← body
  statement fails commit (pure tt)
  pure a

-- `to_i64`
unfoldable pub to_i64 : ℕ → Result ℕ
to_i64 value = if leb value i64_max then ok value else err storage

-- What an operation returns, beside the audit events that it pushes.
abbrev pub Reply {ℓ} : Type ℓ → Type ℓ
Reply A = List String × A

-- `verify(..).map_err(|_| LabError::Unauthorized)?`
abbrev pub authorized : Bool → Result (Unit {0})
authorized verified = if verified then ok tt else err unauthorized
