-- ===== src/Tests/Openings.antt =====
-- Opening the relay's database over toy schema statements: a script's length stands for its schema.
use secure_messenger_lab.Prelude.{
  ℕ, ◌≡◌, refl, true, false, some, List, [], ◌∷◌, arith, length, ◌==◌, ltb, if◌then◌else◌, All,
}
use secure_messenger_lab.Errors.{ok}
use secure_messenger_lab.Bytes.{Bytes, ascii, bytes_eq}
use secure_messenger_lab.Sqlite.{SchemaObject, option_eq, object_eq, column_eq, list_eq}
use secure_messenger_lab.Persistence.Companion.{
  FileSystem, failed, not_found, other_error, done, nonempty_companion, resolve,
  reject_anomalous_wal, database_header_uses_wal,
}
use secure_messenger_lab.Relay.Store.{Relay, empty_tables}
use secure_messenger_lab.Relay.Run.{run}
use secure_messenger_lab.Relay.Authentic.{IsAuthentic}
use secure_messenger_lab.Relay.Ddl.{current_schema_ddl, current_messages_ddl, legacy_schema_ddl}
use secure_messenger_lab.Relay.Manifest.{
  SchemaCatalog, SchemaManifest, table_list_eq, index_list_eq, index_column_eq, foreign_key_eq,
  index_eq, shape_eq, entry_eq, manifest_eq, bytes_compare, option_compare, object_compare,
  insert_object, sort_objects, insert_table, index_shapes, table_shape, table_shapes,
  schema_manifest, empty_manifest,
}
use secure_messenger_lab.Relay.Manifest.Laws.{no_open_faults}
use secure_messenger_lab.Relay.Schema.{
  RelayDatabase, SchemaEngine, classify_schema, validate_database_integrity,
  validate_current_schema, reference_manifest, inspect, validate_schema_for_open, create_current,
  replace_messages, migrate_kind, migrate_schema,
}
use secure_messenger_lab.Relay.Opening.{
  SqliteFiles, has_nonempty_recovery_companion, encode_path, immutable_uri, inspect_at_rest,
  preflight_existing_database, initialize_in, initialize, open_at, open_now,
}
use secure_messenger_lab.Relay.Checks.{unix_now}
use secure_messenger_lab.Relay.Opening.Uri.{percent_decode, IsPathByte, encode_path_exact}
use secure_messenger_lab.Relay.Opening.Reopening.{
  DistinctSchemas, initialize_again, opened_run-IsAuthentic,
}
use secure_messenger_lab.Relay.Opening.Guard.{Cleared, open_at-Cleared}
use secure_messenger_lab.Relay.Retry.{healthy}
use secure_messenger_lab.Relay.Success.{purged}
use secure_messenger_lab.Tests.Fixtures.{toy, registering}
use secure_messenger_lab.Tests.Executable.{executable}
use secure_messenger_lab.Tests.Relays.{with_message, history}

abbrev pub toy_object : ℕ → SchemaObject
toy_object n = record {
  kind = ascii "table";
  name = ascii "t";
  tbl_name = ascii "t";
  sql = some (n ∷ []);
}

abbrev pub toy_catalog : List SchemaObject → SchemaCatalog
toy_catalog objects = record {
  objects = objects;
  table_list = λ name. some (record {
    schema = ascii "main";
    name = name;
    kind = ascii "table";
    ncol = 1;
    wr = 1;
    strict = 1;
  });
  table_xinfo = λ name. [];
  index_list = λ name. [];
  index_xinfo = λ name. [];
  foreign_key_list = λ name. [];
}

-- The schema with the new messages table is the current one.
abbrev toy_version : Bytes → ℕ
toy_version ddl =
    if length ddl == length current_messages_ddl then length current_schema_ddl else length ddl

abbrev pub toy_engine : SchemaEngine
toy_engine = record {
  execute_batch = λ ddl catalog. some (toy_catalog (toy_object (toy_version ddl) ∷ []));
  blank = toy_catalog [];
  foreign_key_check = λ db. false;
  integrity_check = λ db. ascii "ok" ∷ [];
}

-- On an `unfolding` line, this name stands for the functions that open a database.
unfoldable pub openings : Unit {0}
unfolding executable nonempty_companion resolve reject_anomalous_wal database_header_uses_wal
    option_eq object_eq column_eq list_eq table_list_eq index_list_eq index_column_eq foreign_key_eq
    index_eq shape_eq entry_eq manifest_eq bytes_compare option_compare object_compare insert_object
    sort_objects insert_table index_shapes table_shape table_shapes schema_manifest classify_schema
    validate_database_integrity validate_current_schema reference_manifest inspect
    validate_schema_for_open create_current replace_messages migrate_kind migrate_schema
    has_nonempty_recovery_companion encode_path immutable_uri inspect_at_rest
    preflight_existing_database initialize_in initialize open_at open_now unix_now
    current_schema_ddl current_messages_ddl legacy_schema_ddl
openings = tt

abbrev manifest_of : Bytes → SchemaManifest
manifest_of ddl = record {
  objects = toy_object (toy_version ddl) ∷ [];
  tables =
      (
        ascii "t",
        record {
          table_list = record {
            schema = ascii "main";
            name = ascii "t";
            kind = ascii "table";
            ncol = 1;
            wr = 1;
            strict = 1;
          };
          columns = [];
          indexes = [];
          foreign_keys = [];
        },
      )
      ∷ [];
}

reads_current :
    reference_manifest toy_engine no_open_faults current_schema_ddl
    ≡ ok (manifest_of current_schema_ddl)
unfolding openings
reads_current = refl

reads_legacy :
    reference_manifest toy_engine no_open_faults legacy_schema_ddl
    ≡ ok (manifest_of legacy_schema_ddl)
unfolding openings
reads_legacy = refl

differ : manifest_eq (manifest_of current_schema_ddl) (manifest_of legacy_schema_ddl) ≡ false
unfolding openings
differ = refl

not_blank : manifest_eq (manifest_of current_schema_ddl) empty_manifest ≡ false
unfolding openings
not_blank = refl

toy-DistinctSchemas : DistinctSchemas toy_engine
toy-DistinctSchemas = record {
  not_legacy = λ m l h k. ground (arith, reads_current, reads_legacy, differ, h, k);
  not_empty = λ m h. ground (arith, reads_current, not_blank, h);
}

-- A file that SQLite has just created, and one of the legacy schema with rows.
abbrev pub fresh : RelayDatabase
fresh = record {
  user_version = 0;
  catalog = toy_catalog [];
  tables = empty_tables;
  legacy_messages = [];
}

abbrev legacy_file : RelayDatabase
legacy_file = record {
  user_version = 1;
  catalog = toy_catalog (toy_object (length legacy_schema_ddl) ∷ []);
  tables = record with_message.tables { messages = [] };
  legacy_messages =
      record {
        queue_id = registering.queue_id;
        message_id = registering.nonce;
        ciphertext = ascii "old";
        expires_at = 9000;
      }
      ∷ [];
}

abbrev upgraded_file : RelayDatabase
upgraded_file = record legacy_file {
  user_version = 2;
  catalog = toy_catalog (toy_object (length current_schema_ddl) ∷ []);
  legacy_messages = [];
}

abbrev upgraded_relay : Relay
upgraded_relay = record { tables = legacy_file.tables; audit_events = [] }

upgrades_it :
    initialize toy_engine no_open_faults no_open_faults healthy legacy_file 1010
    ≡ ok (upgraded_relay, upgraded_file)
unfolding openings
upgrades_it = refl

sound_ok : list_eq bytes_eq (ascii "ok" ∷ []) (ascii "ok" ∷ []) ≡ true
unfolding openings
sound_ok = refl

initialize_again_example :
    initialize toy_engine no_open_faults no_open_faults healthy
      (record upgraded_file { tables = with_message.tables })
      5000
    ≡ ok (
      record { tables = purged 5000 with_message.tables; audit_events = [] },
      record upgraded_file { tables = purged 5000 with_message.tables },
    )
initialize_again_example =
    initialize_again toy_engine toy-DistinctSchemas no_open_faults no_open_faults healthy
      legacy_file upgraded_file 1010 5000 upgraded_relay with_message.tables upgrades_it
      (record { no_foreign_key_problem = refl; integral = sound_ok }) (omega arith)

opened_run-IsAuthentic_example : IsAuthentic toy (run toy upgraded_relay history).tables
opened_run-IsAuthentic_example =
    opened_run-IsAuthentic toy_engine toy no_open_faults no_open_faults healthy legacy_file
      upgraded_file 1010 upgraded_relay history (λ e. absurd (omega (arith, e))) upgrades_it

-- A directory that holds the file alone, without a log beside it.
abbrev pub files_at_rest : FileSystem
files_at_rest = record {
  canonicalize = λ path. some path;
  metadata_len = λ path. if ltb (length path) 13 then done 4096 else failed not_found;
  is_file = λ path. true;
  to_str = λ path. some path;
  open_file = λ path. true;
  read_header = λ path. failed other_error;
}

abbrev toy_files : SqliteFiles
toy_files = record { open_uri = λ uri. some legacy_file; open_path = λ path. some legacy_file }

opens_it :
    open_at toy_engine no_open_faults no_open_faults healthy files_at_rest toy_files
      (ascii "relay.sqlite")
      1010
    ≡ ok (upgraded_relay, upgraded_file)
unfolding openings
opens_it = refl

open_at-Cleared_example :
    Cleared toy_engine no_open_faults files_at_rest toy_files (ascii "relay.sqlite")
open_at-Cleared_example =
    open_at-Cleared toy_engine no_open_faults no_open_faults healthy files_at_rest toy_files
      (ascii "relay.sqlite") 1010 upgraded_relay upgraded_file opens_it

encode_path_exact_example :
    (percent_decode (encode_path (ascii "a b?")) ≡ ascii "a b?")
    × All IsPathByte (encode_path (ascii "a b?"))
encode_path_exact_example =
    encode_path_exact (ascii "a b?") (omega arith, (omega arith, (omega arith, (omega arith, tt))))
