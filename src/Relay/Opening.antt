-- ===== src/Relay/Opening.antt =====
-- How src/relay.rs opens a database: the preflight, the immutable URI and `initialize`.
pub mod Uri
pub mod Migration
pub mod Outcome
pub mod Reopening
pub mod Guard
use secure_messenger_lab.Prelude.{
  ℕ, ◌+◌, ◌*◌, ◌/◌, ◌%◌, Bool, true, false, ◌&&◌, ◌||◌, Option, some, none, List, [], ◌∷◌, ◌++◌,
  leb, ltb, ◌==◌, not, if◌then◌else◌,
}
use secure_messenger_lab.Errors.{Result, ok, err, storage, ◌>>=◌, ◌>>◌, reject_if}
use secure_messenger_lab.Bytes.{Bytes, ascii}
use secure_messenger_lab.Sqlite.{query, execute, or_storage}
use secure_messenger_lab.Persistence.Companion.{
  FileSystem, IoError, not_found, unexpected_eof, other_error, Io, done, failed, nonempty_companion,
  database_header_uses_wal, reject_anomalous_wal,
}
use secure_messenger_lab.Relay.Store.{Relay, Tables, Faults}
use secure_messenger_lab.Relay.Checks.{purge_expired_in, unix_now}
use secure_messenger_lab.Relay.Manifest.{
  OpenFaults, open_file, open_immutable, set_timeout, set_pragmas, begin, commit,
}
use secure_messenger_lab.Relay.Schema.{
  RelayDatabase, SchemaEngine, validate_schema_for_open, migrate_schema,
}

-- `has_nonempty_recovery_companion`
unfoldable pub has_nonempty_recovery_companion : FileSystem → Bytes → Result Bool
has_nonempty_recovery_companion fs path = do
  resolved ← or_storage (fs.canonicalize path)
  journal ← nonempty_companion fs resolved (ascii "-journal")
  elim journal [
    | true ↦ ok true
    | false ↦ do
      log ← nonempty_companion fs resolved (ascii "-wal")
      elim log [ true ↦ database_header_uses_wal fs resolved | false ↦ ok false ]
  ]

-- The bytes that `immutable_uri` copies as they are.
abbrev pub is_unreserved : ℕ → Bool
is_unreserved b =
    (leb 48 b && leb b 57)
    || ((leb 65 b && leb b 90)
        || ((leb 97 b && leb b 122) || (b == 47 || (b == 46 || (b == 45 || (b == 95 || b == 58))))))

-- `HEX[digit]`
abbrev pub hex_digit : ℕ → ℕ
hex_digit d = if ltb d 10 then 48 + d else 55 + d

abbrev pub encode_byte : ℕ → Bytes
encode_byte b =
    if is_unreserved b then b ∷ [] else 37 ∷ hex_digit (b / 16) ∷ hex_digit (b % 16) ∷ []

-- `for byte in path.as_bytes()`
unfoldable pub encode_path : Bytes → Bytes
encode_path [] = []
encode_path (b ∷ bs) = encode_byte b ++ encode_path bs

unfoldable pub immutable_uri : FileSystem → Bytes → Result Bytes
immutable_uri fs path = do
  text ← or_storage (fs.to_str path)
  ok ((ascii "file:" ++ encode_path text) ++ ascii "?mode=ro&immutable=1")

-- What SQLite shows of the files that it opens, as a parameter: the image at rest behind a
-- read-only immutable URI, and the image that a normal open recovers, or creates.
pub record SqliteFiles : Type 0 where
  pub open_uri : Bytes → Option RelayDatabase
  pub open_path : Bytes → Option RelayDatabase

module _ (engine : SchemaEngine) where
  -- The preflight of a file that is not empty, past `reject_anomalous_wal`.
  unfoldable pub inspect_at_rest : OpenFaults → FileSystem → SqliteFiles → Bytes → Result (Unit {0})
  inspect_at_rest fails fs files path = do
    companion ← has_nonempty_recovery_companion fs path
    elim companion [
      | true ↦ ok tt
      | false ↦ do
        uri ← immutable_uri fs path
        execute fails open_immutable
        image ← or_storage (files.open_uri uri)
        validate_schema_for_open engine fails image
    ]

  -- Both branches on the length call `reject_anomalous_wal`, and the one of length 0 returns it.
  unfoldable pub preflight_existing_database :
      OpenFaults → FileSystem → SqliteFiles → Bytes → Result (Unit {0})
  preflight_existing_database fails fs files path = elim (fs.metadata_len path) [
    | failed not_found ↦ ok tt
    | failed unexpected_eof ↦ err storage
    | failed other_error ↦ err storage
    | done len ↦ do
      reject_if (not (fs.is_file path)) storage
      reject_anomalous_wal fs path
      if len == 0 then ok tt else inspect_at_rest fails fs files path
  ]

  -- The body of `initialize`. The first validation runs outside the transaction, with faults of
  -- its own.
  unfoldable pub initialize_in :
      OpenFaults → OpenFaults → Faults → RelayDatabase → ℕ → Result RelayDatabase
  initialize_in before fails sweeping db now = do
    execute before set_timeout
    validate_schema_for_open engine before db
    execute before set_pragmas
    execute fails begin
    migrated ← migrate_schema engine fails db
    swept ← purge_expired_in sweeping now migrated.tables
    execute fails commit
    ok (record migrated { tables = swept.1 })

  -- `initialize`, with the file that a success leaves. Nothing is said of the file behind an error:
  -- the recovery of a journal or a log and the PRAGMAs run outside the transaction.
  unfoldable pub initialize :
      OpenFaults → OpenFaults → Faults → RelayDatabase → ℕ → Result (Relay × RelayDatabase)
  initialize before fails sweeping db now = do
    after ← initialize_in before fails sweeping db now
    ok (record { tables = after.tables; audit_events = [] }, after)

  -- `open_at`, with the file that it leaves.
  unfoldable pub open_at :
      OpenFaults
      → OpenFaults
      → Faults
      → FileSystem
      → SqliteFiles
      → Bytes
      → ℕ
      → Result (Relay × RelayDatabase)
  open_at before fails sweeping fs files path now = do
    preflight_existing_database before fs files path
    execute before open_file
    db ← or_storage (files.open_path path)
    initialize before fails sweeping db now

  -- `Relay::open`, at the system clock's time
  unfoldable pub open_now :
      OpenFaults
      → OpenFaults
      → Faults
      → FileSystem
      → SqliteFiles
      → Bytes
      → Option ℕ
      → Result (Relay × RelayDatabase)
  open_now before fails sweeping fs files path clock = do
    now ← unix_now clock
    open_at before fails sweeping fs files path now

  unfoldable pub open_in_memory :
      OpenFaults → OpenFaults → Faults → RelayDatabase → Option ℕ → Result (Relay × RelayDatabase)
  open_in_memory before fails sweeping blank clock = do
    execute before open_file
    now ← unix_now clock
    initialize before fails sweeping blank now
