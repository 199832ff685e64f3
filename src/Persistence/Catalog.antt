-- ===== src/Persistence/Catalog.antt =====
-- What SQLite reports of the state database's schema, and the checks of src/persistence/sqlite.rs
-- on it. A text is its bytes; application_id and user_version stand in unsigned form, since the
-- checks only compare them.
use secure_messenger_lab.Prelude.{
  ℕ, suc, Bool, true, none, some, List, [], ◌∷◌, ◌++◌, ◌&&◌, ◌||◌, not, ◌==◌, length,
}
use secure_messenger_lab.Errors.{Result, storage, ◌>>=◌, ◌>>◌, reject_if}
use secure_messenger_lab.Bytes.{Bytes, ascii, bytes_eq}
use secure_messenger_lab.Sqlite.{
  SchemaObject, TableInfo, ColumnInfo, query, option_eq, object_eq, table_eq, list_eq,
}

pub record Catalog : Type 0 where
  pub application_id : ℕ
  pub user_version : ℕ
  pub objects : List SchemaObject
  pub table_list : List TableInfo
  pub table_xinfo : List ColumnInfo
  pub index_count : ℕ
  pub foreign_key_count : ℕ
  pub integrity : Bytes
  pub foreign_key_problem : Bool

-- What may fail in one call of the store, by itself.
pub data StateStatement : Type 0 where
  random_dek random_nonce open_file execute_pragmas begin commit : StateStatement
  -- the transaction is written, and its success is reported as an error
  commit_reply : StateStatement
  select_application_id select_user_version count_objects select_objects : StateStatement
  select_table_list select_table_xinfo count_indexes count_foreign_keys : StateStatement
  check_integrity check_foreign_keys create_table : StateStatement
  select_lengths select_row insert_row update_row : StateStatement

abbrev pub StateFaults : Type 0
StateFaults = StateStatement → Bool

abbrev pub state_application_id : ℕ
state_application_id = 1397576524

abbrev pub state_user_version : ℕ
state_user_version = 1

unfoldable pub client_state_sql : Bytes
client_state_sql =
    ascii
      "CREATE TABLE client_state (slot                 INTEGER PRIMARY KEY NOT NULL CHECK(slot = 1),"
    ++ ascii "profile_id           BLOB NOT NULL CHECK(length(profile_id) = 16),"
    ++ ascii "generation           INTEGER NOT NULL CHECK(generation >= 1),"
    ++ ascii "envelope_version     INTEGER NOT NULL CHECK(envelope_version = 1),"
    ++ ascii "state_schema_version INTEGER NOT NULL CHECK(state_schema_version = 1),"
    ++ ascii "crypto_suite         INTEGER NOT NULL CHECK(crypto_suite = 1),"
    ++ ascii "key_ref              BLOB NOT NULL CHECK(length(key_ref) = 16),"
    ++ ascii "wrapped_dek          BLOB NOT NULL CHECK(length(wrapped_dek) BETWEEN 1 AND 8192),"
    ++ ascii "nonce                BLOB NOT NULL CHECK(length(nonce) = 24),"
    ++ ascii "ciphertext           BLOB NOT NULL CHECK(length(ciphertext) BETWEEN 16 AND 8388608)"
    ++ ascii ") STRICT"

abbrev pub expected_objects : List SchemaObject
expected_objects =
    record {
      kind = ascii "table";
      name = ascii "client_state";
      tbl_name = ascii "client_state";
      sql = some client_state_sql;
    }
    ∷ []

abbrev pub expected_tables : List TableInfo
expected_tables =
    record { name = ascii "client_state"; kind = ascii "table"; ncol = 10; wr = 0; strict = 1 }
    ∷ record { name = ascii "sqlite_schema"; kind = ascii "table"; ncol = 5; wr = 0; strict = 0 }
    ∷ []

abbrev pub expected_columns : List (Bytes × Bytes × ℕ)
expected_columns =
    (ascii "slot", ascii "INTEGER", 1)
    ∷ (ascii "profile_id", ascii "BLOB", 0)
    ∷ (ascii "generation", ascii "INTEGER", 0)
    ∷ (ascii "envelope_version", ascii "INTEGER", 0)
    ∷ (ascii "state_schema_version", ascii "INTEGER", 0)
    ∷ (ascii "crypto_suite", ascii "INTEGER", 0)
    ∷ (ascii "key_ref", ascii "BLOB", 0)
    ∷ (ascii "wrapped_dek", ascii "BLOB", 0)
    ∷ (ascii "nonce", ascii "BLOB", 0)
    ∷ (ascii "ciphertext", ascii "BLOB", 0)
    ∷ []

unfoldable pub validate_empty_database : StateFaults → Catalog → Result (Unit {0})
validate_empty_database fails catalog = do
  application_id ← query fails select_application_id catalog.application_id
  user_version ← query fails select_user_version catalog.user_version
  object_count ← query fails count_objects (length catalog.objects)
  integrity ← query fails check_integrity catalog.integrity
  reject_if
      (not (application_id == 0)
        || (not (user_version == 0)
            || (not (object_count == 0) || not (bytes_eq integrity (ascii "ok")))))
      storage

unfoldable pub validate_table_list : StateFaults → Catalog → Result (Unit {0})
validate_table_list fails catalog = do
  tables ← query fails select_table_list catalog.table_list
  reject_if (not (list_eq table_eq tables expected_tables)) storage

-- The loop of `validate_table_xinfo`, from an index on.
unfoldable pub columns_match : ℕ → List ColumnInfo → List (Bytes × Bytes × ℕ) → Bool
columns_match index rows [] = true
columns_match index [] (n ∷ names) = true
columns_match index (row ∷ rows) ((name, type_name, pk) ∷ names) =
    ((row.cid == index)
      && (bytes_eq row.name name
          && (bytes_eq row.type_name type_name
              && ((row.not_null == 1)
                  && (option_eq row.default none && ((row.pk == pk) && (row.hidden == 0)))))))
    && columns_match (suc index) rows names

unfoldable pub validate_table_xinfo : StateFaults → Catalog → Result (Unit {0})
validate_table_xinfo fails catalog = do
  actual ← query fails select_table_xinfo catalog.table_xinfo
  reject_if (not (length actual == length expected_columns)) storage
  reject_if (not (columns_match 0 actual expected_columns)) storage

unfoldable pub validate_no_indexes_or_foreign_keys : StateFaults → Catalog → Result (Unit {0})
validate_no_indexes_or_foreign_keys fails catalog = do
  index_count ← query fails count_indexes catalog.index_count
  foreign_key_count ← query fails count_foreign_keys catalog.foreign_key_count
  reject_if (not (index_count == 0) || not (foreign_key_count == 0)) storage

unfoldable pub validate_schema : StateFaults → Catalog → Result (Unit {0})
validate_schema fails catalog = do
  application_id ← query fails select_application_id catalog.application_id
  user_version ← query fails select_user_version catalog.user_version
  reject_if
      (not (application_id == state_application_id) || not (user_version == state_user_version))
      storage
  objects ← query fails select_objects catalog.objects
  reject_if (not (list_eq object_eq objects expected_objects)) storage
  validate_table_list fails catalog
  validate_table_xinfo fails catalog
  validate_no_indexes_or_foreign_keys fails catalog
  integrity ← query fails check_integrity catalog.integrity
  reject_if (not (bytes_eq integrity (ascii "ok"))) storage
  problem ← query fails check_foreign_keys catalog.foreign_key_problem
  reject_if problem storage

-- `enumerate` numbers the columns as SQLite does.
unfoldable pub column_infos : ℕ → List (Bytes × Bytes × ℕ) → List ColumnInfo
column_infos cid [] = []
column_infos cid ((name, type_name, pk) ∷ names) =
    record {
      cid = cid;
      name = name;
      type_name = type_name;
      not_null = 1;
      default = none;
      pk = pk;
      hidden = 0;
    }
    ∷ column_infos (suc cid) names

-- `create_schema`: what SQLite then reports of a database that was empty.
unfoldable pub create_schema : StateFaults → Catalog → Result Catalog
create_schema fails catalog = query fails create_table (record catalog {
  application_id = state_application_id;
  user_version = state_user_version;
  objects = catalog.objects ++ expected_objects;
  table_list = expected_tables;
  table_xinfo = column_infos 0 expected_columns;
  index_count = 0;
  foreign_key_count = 0;
})
