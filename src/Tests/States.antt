-- ===== src/Tests/States.antt =====
-- The client-state store at concrete files, over a toy cipher and a toy platform that hide nothing.
use secure_messenger_lab.Prelude.{
  ℕ, suc, zero, ◌≡◌, refl, sym, true, false, some, none, [], ◌∷◌, arith,
}
use secure_messenger_lab.Errors.{ok}
use secure_messenger_lab.Bytes.{Bytes, ascii}
use secure_messenger_lab.Persistence.Companion.{
  FileSystem, failed, not_found, other_error, nonempty_companion, resolve, reject_anomalous_wal,
}
use secure_messenger_lab.Encoding.{try_append_part, try_append_parts}
use secure_messenger_lab.Persistence.Envelope.{
  Aead, AeadLaws, ProfileBinding, validate_header, header_parts, aad, seal_state, open_state,
}
use secure_messenger_lab.Sqlite.{option_eq, object_eq, table_eq, list_eq}
use secure_messenger_lab.Persistence.Catalog.{
  Catalog, validate_empty_database, client_state_sql, validate_table_list, columns_match,
  validate_table_xinfo, validate_no_indexes_or_foreign_keys, validate_schema, column_infos,
  create_schema, expected_objects, expected_tables, expected_columns,
}
use secure_messenger_lab.Persistence.Rows.{
  StateDatabase, satisfies_checks, insert_row_sql, same_row, update_rows, update_row_sql,
  validate_ciphertext_len,
}
use secure_messenger_lab.Persistence.StateStore.{
  ClientStateStore, StateKeyProtector, ProtectorLaws, software_backed, row_of, open_connection,
  activate_storage_settings, commit_transaction, prepare_create, create_in, create, prepare_commit,
  commit_in, commit_inner, adopt, commit_state,
}
use secure_messenger_lab.Persistence.Reopen.{no_state_faults}
use secure_messenger_lab.Tests.Fixtures.{toy, fit}
use secure_messenger_lab.Tests.Executable.{executable}

unfoldable pub drop_tag : ℕ → Bytes → Bytes
drop_tag n [] = []
drop_tag zero (x ∷ xs) = x ∷ xs
drop_tag (suc n) (x ∷ xs) = drop_tag n xs

abbrev tagged : Bytes → Bytes
tagged plain = 0 ∷ 0 ∷ 0 ∷ 0 ∷ 0 ∷ 0 ∷ 0 ∷ 0 ∷ 0 ∷ 0 ∷ 0 ∷ 0 ∷ 0 ∷ 0 ∷ 0 ∷ 0 ∷ plain

drop_tag-tagged : (plain : Bytes) → drop_tag 16 (tagged plain) ≡ plain
unfolding drop_tag
drop_tag-tagged [] = refl
drop_tag-tagged (x ∷ xs) = refl

abbrev pub toy_aead : Aead
toy_aead = record {
  takes_key = λ k. true;
  encrypt = λ key nonce plain header. some (tagged plain);
  decrypt = λ key nonce sealed header. some (drop_tag 16 sealed);
}

pub toy_aead-AeadLaws : AeadLaws toy_aead
toy_aead-AeadLaws = record {
  decrypt_encrypt = λ key nonce plain header sealed e. ground (arith, drop_tag-tagged plain, e);
  length_encrypt = λ key nonce plain header sealed e. ground (arith, e);
}

abbrev pub binding : ProfileBinding
binding = record { profile_id = fit 16 (ascii "profile"); key_ref = fit 16 (ascii "key") }

abbrev pub platform : StateKeyProtector
platform = record {
  expected_binding = ok binding;
  protection_level = software_backed;
  wrap_dek = λ dek. ok dek;
  unwrap_dek = λ wrapped. ok wrapped;
}

pub platform-ProtectorLaws : ProtectorLaws platform
platform-ProtectorLaws = record { unwrap_wrap = λ dek wrapped e. sym e }

abbrev pub no_files : FileSystem
no_files = record {
  canonicalize = λ path. none;
  metadata_len = λ path. failed not_found;
  is_file = λ path. false;
  to_str = λ path. some path;
  open_file = λ path. false;
  read_header = λ path. failed other_error;
}

abbrev pub path : Bytes
path = ascii "state.sqlite"

abbrev pub blank : StateDatabase
blank = record {
  catalog = record {
    application_id = 0;
    user_version = 0;
    objects = [];
    table_list = [];
    table_xinfo = [];
    index_count = 0;
    foreign_key_count = 0;
    integrity = ascii "ok";
    foreign_key_problem = false;
  };
  rows = [];
}

abbrev pub dek : Bytes
dek = fit 32 (ascii "dek")

abbrev pub iv : ℕ → Bytes
iv n = fit 24 (n ∷ [])

-- On an `unfolding` line, this name stands for the store's functions.
unfoldable pub stores : Unit {0}
unfolding executable nonempty_companion resolve reject_anomalous_wal try_append_part
    try_append_parts validate_header header_parts aad seal_state open_state validate_empty_database
    client_state_sql option_eq object_eq table_eq list_eq validate_table_list columns_match
    validate_table_xinfo validate_no_indexes_or_foreign_keys validate_schema column_infos
    create_schema satisfies_checks insert_row_sql same_row update_rows update_row_sql
    validate_ciphertext_len open_connection activate_storage_settings commit_transaction
    prepare_create create_in create prepare_commit commit_in commit_inner adopt commit_state
stores = tt

abbrev pub first : ClientStateStore
first = record {
  protector = platform;
  binding = binding;
  dek = dek;
  wrapped_dek = dek;
  nonce = iv 1;
  ciphertext = tagged (ascii "one");
  generation = 1;
  state = ascii "one";
  poisoned = false;
}

abbrev pub second : ClientStateStore
second = record first {
  nonce = iv 2;
  ciphertext = tagged (ascii "two");
  generation = 2;
  state = ascii "two";
}

abbrev pub catalog : Catalog
unfolding stores
catalog = record {
  application_id = 1397576524;
  user_version = 1;
  objects = expected_objects;
  table_list = expected_tables;
  table_xinfo = column_infos 0 expected_columns;
  index_count = 0;
  foreign_key_count = 0;
  integrity = ascii "ok";
  foreign_key_problem = false;
}

abbrev pub stored : StateDatabase
stored = record { catalog = catalog; rows = row_of first ∷ [] }

abbrev pub replaced : StateDatabase
replaced = record { catalog = catalog; rows = row_of second ∷ [] }

pub creates_it :
    create toy toy_aead no_files no_state_faults no_state_faults platform path blank dek
      (iv 1)
      (ascii "one")
    ≡ (ok first, stored)
unfolding stores
creates_it = refl

pub commits_it :
    commit_state toy toy_aead no_state_faults first stored (iv 2) (ascii "two")
    ≡ (ok tt, second, replaced)
unfolding stores
commits_it = refl
