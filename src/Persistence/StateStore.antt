-- ===== src/Persistence/StateStore.antt =====
-- `StateKeyProtector` of src/persistence/protector.rs and `ClientStateStore` of
-- src/persistence/sqlite.rs. An operation takes the database of its path and returns it. The
-- random key and nonces are arguments, and the file system answers about the path's companion.
use secure_messenger_lab.Prelude.{
  ℕ, ◌+◌, ◌≡◌, Bool, true, false, ◌||◌, not, leb, ltb, ◌==◌, length, if◌then◌else◌,
}
use secure_messenger_lab.Errors.{Result, ok, err, storage, ◌>>=◌, ◌>>◌, reject_if}
use secure_messenger_lab.Bytes.{Bytes, u64_max, i64_max}
use secure_messenger_lab.Crypto.{Crypto}
use secure_messenger_lab.Sqlite.{execute}
use secure_messenger_lab.Persistence.Companion.{FileSystem, reject_anomalous_wal}
use secure_messenger_lab.Persistence.Envelope.{
  Aead, ProfileBinding, envelope_version, crypto_suite, state_schema_version, max_wrapped_dek_bytes,
  seal_state, open_state,
}
use secure_messenger_lab.Persistence.Catalog.{
  StateFaults, random_dek, random_nonce, open_file, execute_pragmas, begin, commit, commit_reply,
  validate_empty_database, validate_schema, create_schema,
}
use secure_messenger_lab.Persistence.Rows.{
  StateRow, StateDatabase, state_slot, insert_row_sql, update_row_sql, read_row,
  validate_ciphertext_len,
}

pub data ProtectionLevel : Type 0 where
  strong_box trusted_environment software_backed indeterminate : ProtectionLevel

-- The platform's implementation of the trait, as a parameter.
pub record StateKeyProtector : Type 0 where
  pub expected_binding : Result ProfileBinding
  pub protection_level : ProtectionLevel
  pub wrap_dek : Bytes → Result Bytes
  pub unwrap_dek : Bytes → Result Bytes

-- The trait's documented contract: what it wraps, it unwraps.
pub record ProtectorLaws (p : StateKeyProtector) : Type 0 where
  pub unwrap_wrap :
      (dek wrapped : Bytes) → p.wrap_dek dek ≡ ok wrapped → p.unwrap_dek wrapped ≡ ok dek

-- `ClientStateStore`, a handle on the database, without its connection.
pub record ClientStateStore : Type 0 where
  pub protector : StateKeyProtector
  pub binding : ProfileBinding
  pub dek : Bytes
  pub wrapped_dek : Bytes
  pub nonce : Bytes
  pub ciphertext : Bytes
  pub generation : ℕ
  pub state : Bytes
  pub poisoned : Bool

-- The row that the store writes for a handle, and that its UPDATE expects.
abbrev pub row_of : ClientStateStore → StateRow
row_of s = record {
  slot = state_slot;
  profile_id = s.binding.profile_id;
  generation = s.generation;
  envelope_version = envelope_version;
  state_schema_version = state_schema_version;
  crypto_suite = crypto_suite;
  key_ref = s.binding.key_ref;
  wrapped_dek = s.wrapped_dek;
  nonce = s.nonce;
  ciphertext = s.ciphertext;
}

unfoldable pub open_connection : StateFaults → FileSystem → Bytes → Result (Unit {0})
open_connection fails fs path = do
  reject_anomalous_wal fs path
  execute fails open_file
  execute fails execute_pragmas

unfoldable pub activate_storage_settings : StateFaults → Result (Unit {0})
activate_storage_settings fails = execute fails execute_pragmas

-- `transaction.commit()` of a transaction that gives the database `after`: it is written, or it is
-- rolled back with an error, or it is written and an error is reported.
unfoldable pub commit_transaction {ℓ} :
    {A : Type ℓ} → StateFaults → A → StateDatabase → StateDatabase → Result A × StateDatabase
commit_transaction fails a before after =
    if fails commit
    then (err storage, before)
    else if fails commit_reply
    then (err storage, after)
    else (ok a, after)

-- The transaction of `create_with_rng`.
unfoldable pub create_in : StateFaults → ClientStateStore → StateDatabase → Result StateDatabase
create_in fails store db = do
  execute fails begin
  validate_empty_database fails db.catalog
  catalog ← create_schema fails db.catalog
  rows ← insert_row_sql fails (row_of store) db.rows
  validate_schema fails catalog
  ok (record { catalog = catalog; rows = rows })

-- The transaction of `commit_inner`.
unfoldable pub commit_in :
    StateFaults → ClientStateStore → ClientStateStore → StateDatabase → Result StateDatabase
commit_in fails store next db = do
  execute fails begin
  validate_schema fails db.catalog
  (rows, changed) ←
      update_row_sql fails (row_of store) next.generation next.nonce next.ciphertext db.rows
  reject_if (not (changed == 1)) storage
  ok (record db { rows = rows })

-- `if result.is_err() { self.poisoned = true }`
unfoldable pub adopt :
    ClientStateStore
    → Result ClientStateStore × StateDatabase
    → Result (Unit {0}) × ClientStateStore × StateDatabase
adopt store (ok next, after) = (ok tt, next, after)
adopt store (err e, after) = (err e, record store { poisoned = true }, after)

module _ (c : Crypto) (a : Aead) (fs : FileSystem) where
  -- `create_with_rng` up to the first statement that writes.
  unfoldable pub prepare_create :
      StateFaults
      → StateKeyProtector
      → Bytes
      → StateDatabase
      → Bytes
      → Bytes
      → Bytes
      → Result ClientStateStore
  prepare_create fails protector path db dek nonce state = do
    binding ← protector.expected_binding
    open_connection fails fs path
    validate_empty_database fails db.catalog
    execute fails random_dek
    wrapped_dek ← protector.wrap_dek dek
    reject_if ((length wrapped_dek == 0) || ltb max_wrapped_dek_bytes (length wrapped_dek)) storage
    execute fails random_nonce
    ciphertext ← seal_state c a binding 1 wrapped_dek dek nonce state
    validate_ciphertext_len (length ciphertext)
    activate_storage_settings fails
    ok (record {
      protector = protector;
      binding = binding;
      dek = dek;
      wrapped_dek = wrapped_dek;
      nonce = nonce;
      ciphertext = ciphertext;
      generation = 1;
      state = state;
      poisoned = false;
    })

  -- `create_with_rng`. The faults before the transaction and in it are apart, since some of the
  -- statements run in both.
  unfoldable pub create :
      StateFaults
      → StateFaults
      → StateKeyProtector
      → Bytes
      → StateDatabase
      → Bytes
      → Bytes
      → Bytes
      → Result ClientStateStore × StateDatabase
  create before fails protector path db dek nonce state =
      elim (prepare_create before protector path db dek nonce state) [
        | err e ↦ (err e, db)
        | ok store ↦ elim (create_in fails store db) [
          | err e ↦ (err e, db)
          | ok after ↦ commit_transaction fails store db after
        ]
      ]

  -- `ClientStateStore::open`, which reads only.
  unfoldable pub open_store :
      StateFaults → StateKeyProtector → Bytes → StateDatabase → Result ClientStateStore
  open_store fails protector path db = do
    binding ← protector.expected_binding
    open_connection fails fs path
    execute fails begin
    validate_schema fails db.catalog
    row ← read_row fails db.rows binding
    execute fails commit
    dek ← protector.unwrap_dek row.wrapped_dek
    state ← open_state c a binding row.generation row.wrapped_dek dek row.nonce row.ciphertext
    activate_storage_settings fails
    ok (record {
      protector = protector;
      binding = binding;
      dek = dek;
      wrapped_dek = row.wrapped_dek;
      nonce = row.nonce;
      ciphertext = row.ciphertext;
      generation = row.generation;
      state = state;
      poisoned = false;
    })

module _ (c : Crypto) (a : Aead) where
  -- `commit_inner` up to its transaction: the handle as the commit would leave it.
  unfoldable pub prepare_commit :
      StateFaults → ClientStateStore → Bytes → Bytes → Result ClientStateStore
  prepare_commit fails store nonce state = do
    reject_if (not (leb (store.generation + 1) u64_max)) storage
    execute fails random_nonce
    ciphertext ←
        seal_state c a store.binding (store.generation + 1) store.wrapped_dek store.dek nonce state
    validate_ciphertext_len (length ciphertext)
    reject_if (ltb i64_max store.generation) storage
    reject_if (ltb i64_max (store.generation + 1)) storage
    ok (record store {
      generation = store.generation + 1;
      state = state;
      nonce = nonce;
      ciphertext = ciphertext;
    })

  unfoldable pub commit_inner :
      StateFaults
      → ClientStateStore
      → StateDatabase
      → Bytes
      → Bytes
      → Result ClientStateStore × StateDatabase
  commit_inner fails store db nonce state = elim (prepare_commit fails store nonce state) [
    | err e ↦ (err e, db)
    | ok next ↦ elim (commit_in fails store next db) [
      | err e ↦ (err e, db)
      | ok after ↦ commit_transaction fails next db after
    ]
  ]

  -- `commit_with_rng`
  unfoldable pub commit_state :
      StateFaults
      → ClientStateStore
      → StateDatabase
      → Bytes
      → Bytes
      → Result (Unit {0}) × ClientStateStore × StateDatabase
  commit_state fails store db nonce state =
      if store.poisoned
      then (err storage, store, db)
      else adopt store (commit_inner fails store db nonce state)

unfoldable pub ensure_usable : ClientStateStore → Result (Unit {0})
ensure_usable s = reject_if s.poisoned storage

unfoldable pub read_state : ClientStateStore → Result Bytes
read_state s = do ensure_usable s; ok s.state

unfoldable pub read_generation : ClientStateStore → Result ℕ
read_generation s = do ensure_usable s; ok s.generation

unfoldable pub read_binding : ClientStateStore → Result ProfileBinding
read_binding s = do ensure_usable s; ok s.binding

-- The one method that does not ask whether the handle is usable.
unfoldable pub read_protection_level : ClientStateStore → ProtectionLevel
read_protection_level s = s.protector.protection_level
