-- ===== src/Relay/Schema.antt =====
-- Schema checks and migration of src/relay.rs.
use secure_messenger_lab.Prelude.{
  ℕ, Bool, false, Option, List, [], ◌∷◌, leb, ◌==◌, not, if◌then◌else◌,
}
use secure_messenger_lab.Errors.{Result, ok, err, storage, ◌>>=◌, ◌>>◌, reject_if}
use secure_messenger_lab.Bytes.{Bytes, ascii, bytes_eq}
use secure_messenger_lab.Sqlite.{query, execute, or_storage, list_eq}
use secure_messenger_lab.Relay.Store.{Tables, empty_tables}
use secure_messenger_lab.Relay.Ddl.{current_schema_ddl, current_messages_ddl, legacy_schema_ddl}
use secure_messenger_lab.Relay.Manifest.{
  SchemaCatalog, SchemaManifest, OpenFaults, schema_manifest, manifest_eq, empty_manifest,
  open_memory, memory_pragmas, memory_ddl, select_version, set_version, check_foreign_keys,
  check_integrity, delete_messages, drop_messages, create_messages, create_tables,
}

abbrev pub current_schema_version : ℕ
current_schema_version = 2

-- A row of the legacy table messages, which has no signature.
pub record LegacyMessage : Type 0 where
  pub queue_id : Bytes
  pub message_id : Bytes
  pub ciphertext : Bytes
  pub expires_at : ℕ

-- The relay's file. Its table messages holds `legacy_messages` under the legacy schema, and
-- `tables.messages` under the current one.
pub record RelayDatabase : Type 0 where
  pub user_version : ℕ
  pub catalog : SchemaCatalog
  pub tables : Tables
  pub legacy_messages : List LegacyMessage

-- SQLite, as a parameter: what a script makes of a schema, the schema of a new database in memory,
-- and what PRAGMA foreign_key_check (whether it finds a row) and integrity_check answer for a
-- file's contents.
pub record SchemaEngine : Type 0 where
  pub execute_batch : Bytes → SchemaCatalog → Option SchemaCatalog
  pub blank : SchemaCatalog
  pub foreign_key_check : RelayDatabase → Bool
  pub integrity_check : RelayDatabase → List Bytes

pub data SchemaKind : Type 0 where
  empty legacy current unknown : SchemaKind

unfoldable pub classify_schema :
    SchemaManifest → SchemaManifest → SchemaManifest → SchemaManifest → SchemaKind
classify_schema actual expected_empty expected_legacy expected_current =
    if manifest_eq actual expected_empty
    then empty
    else if manifest_eq actual expected_legacy
    then legacy
    else if manifest_eq actual expected_current
    then current
    else unknown

-- The pairs of a version and a kind that the relay opens.
abbrev pub is_supported : ℕ → SchemaKind → Bool
is_supported version current = version == current_schema_version
is_supported version empty = leb version 1
is_supported version legacy = leb version 1
is_supported version unknown = false

module _ (engine : SchemaEngine) where
  unfoldable pub validate_database_integrity : OpenFaults → RelayDatabase → Result (Unit {0})
  validate_database_integrity fails db = do
    foreign_key_problem ← query fails check_foreign_keys (engine.foreign_key_check db)
    reject_if foreign_key_problem storage
    integrity ← query fails check_integrity (engine.integrity_check db)
    reject_if (not (list_eq bytes_eq integrity (ascii "ok" ∷ []))) storage

  unfoldable pub validate_current_schema :
      OpenFaults → RelayDatabase → SchemaManifest → Result (Unit {0})
  validate_current_schema fails db expected = do
    actual ← schema_manifest fails db.catalog
    reject_if (not (manifest_eq actual expected)) storage
    validate_database_integrity fails db

  unfoldable pub reference_manifest : OpenFaults → Bytes → Result SchemaManifest
  reference_manifest fails ddl = do
    execute fails open_memory
    execute fails memory_pragmas
    execute fails memory_ddl
    catalog ← or_storage (engine.execute_batch ddl engine.blank)
    schema_manifest fails catalog

  -- The version, the kind of the schema, and the reference for the current one.
  unfoldable pub inspect : OpenFaults → RelayDatabase → Result (SchemaKind × SchemaManifest)
  inspect fails db = do
    actual ← schema_manifest fails db.catalog
    expected_legacy ← reference_manifest fails legacy_schema_ddl
    expected_current ← reference_manifest fails current_schema_ddl
    ok (classify_schema actual empty_manifest expected_legacy expected_current, expected_current)

  unfoldable pub validate_schema_for_open : OpenFaults → RelayDatabase → Result (Unit {0})
  validate_schema_for_open fails db = do
    version ← query fails select_version db.user_version
    reject_if (not (leb version current_schema_version)) storage
    inspected ← inspect fails db
    reject_if (not (is_supported version inspected.0)) storage
    validate_database_integrity fails db

  -- `create_current_schema` and the version, in a database without a schema
  unfoldable pub create_current : OpenFaults → RelayDatabase → Result RelayDatabase
  create_current fails db = do
    execute fails create_tables
    catalog ← or_storage (engine.execute_batch current_schema_ddl db.catalog)
    execute fails set_version
    ok (record db {
      user_version = current_schema_version;
      catalog = catalog;
      tables = empty_tables;
      legacy_messages = [];
    })

  -- The legacy arm: the messages go, and their table is made anew.
  unfoldable pub replace_messages : OpenFaults → RelayDatabase → Result RelayDatabase
  replace_messages fails db = do
    execute fails delete_messages
    execute fails drop_messages
    dropped ← or_storage (engine.execute_batch (ascii "DROP TABLE messages;") db.catalog)
    execute fails create_messages
    catalog ← or_storage (engine.execute_batch current_messages_ddl dropped)
    execute fails set_version
    ok (record db {
      user_version = current_schema_version;
      catalog = catalog;
      tables = record db.tables { messages = [] };
      legacy_messages = [];
    })

  -- `match (version, classify_schema(..))` of `migrate_schema`, up to the last validation.
  unfoldable pub migrate_kind :
      OpenFaults → RelayDatabase → ℕ → SchemaKind → SchemaManifest → Result RelayDatabase
  migrate_kind fails db version current expected =
      if version == current_schema_version then ok db else err storage
  migrate_kind fails db version empty expected =
      if leb version 1
      then (do
        created ← create_current fails db
        validate_current_schema fails created expected
        ok created)
      else err storage
  migrate_kind fails db version legacy expected =
      if leb version 1
      then (do
        replaced ← replace_messages fails db
        validate_current_schema fails replaced expected
        ok replaced)
      else err storage
  migrate_kind fails db version unknown expected = err storage

  unfoldable pub migrate_schema : OpenFaults → RelayDatabase → Result RelayDatabase
  migrate_schema fails db = do
    validate_schema_for_open fails db
    version ← query fails select_version db.user_version
    inspected ← inspect fails db
    migrate_kind fails db version inspected.0 inspected.1
