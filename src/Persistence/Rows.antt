-- ===== src/Persistence/Rows.antt =====
-- The table client_state of src/persistence/sqlite.rs and its SQL statements.
use secure_messenger_lab.Prelude.{
  ℕ, suc, Bool, List, [], ◌∷◌, ◌++◌, ◌&&◌, ◌||◌, not, leb, ltb, ◌==◌, if◌then◌else◌, length,
}
use secure_messenger_lab.Errors.{Result, ok, storage, ◌>>=◌, ◌>>◌, reject_if}
use secure_messenger_lab.Bytes.{Bytes, bytes_eq, from_slice}
use secure_messenger_lab.Table.{find_where, exists_where}
use secure_messenger_lab.Sqlite.{query, execute, or_storage}
use secure_messenger_lab.Persistence.Envelope.{
  ProfileBinding, envelope_version, crypto_suite, state_schema_version, max_ciphertext_bytes,
  nonce_bytes, max_wrapped_dek_bytes,
}
use secure_messenger_lab.Persistence.Catalog.{
  Catalog, StateFaults, select_lengths, select_row, insert_row, update_row,
}

-- A row of client_state.
pub record StateRow : Type 0 where
  pub slot : ℕ
  pub profile_id : Bytes
  pub generation : ℕ
  pub envelope_version : ℕ
  pub state_schema_version : ℕ
  pub crypto_suite : ℕ
  pub key_ref : Bytes
  pub wrapped_dek : Bytes
  pub nonce : Bytes
  pub ciphertext : Bytes

-- The file: what SQLite reports of its schema, and the rows of client_state.
pub record StateDatabase : Type 0 where
  pub catalog : Catalog
  pub rows : List StateRow

abbrev pub state_slot : ℕ
state_slot = 1

-- The CHECK constraints of the table.
unfoldable pub satisfies_checks : StateRow → Bool
satisfies_checks r =
    (r.slot == 1)
    && ((length r.profile_id == 16)
        && (leb 1 r.generation
            && ((r.envelope_version == 1)
                && ((r.state_schema_version == 1)
                    && ((r.crypto_suite == 1)
                        && ((length r.key_ref == 16)
                            && ((leb 1 (length r.wrapped_dek) && leb (length r.wrapped_dek) 8192)
                                && ((length r.nonce == 24)
                                    && (leb 16 (length r.ciphertext)
                                        && leb (length r.ciphertext) 8388608)))))))))

-- INSERT INTO client_state: the primary key is fresh and the CHECKs hold, or the statement fails.
unfoldable pub insert_row_sql : StateFaults → StateRow → List StateRow → Result (List StateRow)
insert_row_sql fails row rows = do
  execute fails insert_row
  reject_if (exists_where (λ r. r.slot == row.slot) rows || not (satisfies_checks row)) storage
  ok (rows ++ row ∷ [])

-- The WHERE clause of the UPDATE, for an expected row.
unfoldable pub same_row : StateRow → StateRow → Bool
same_row expected r =
    (r.slot == expected.slot)
    && ((r.generation == expected.generation)
        && (bytes_eq r.profile_id expected.profile_id
            && (bytes_eq r.key_ref expected.key_ref
                && ((r.envelope_version == expected.envelope_version)
                    && ((r.state_schema_version == expected.state_schema_version)
                        && ((r.crypto_suite == expected.crypto_suite)
                            && (bytes_eq r.wrapped_dek expected.wrapped_dek
                                && (bytes_eq r.nonce expected.nonce
                                    && bytes_eq r.ciphertext expected.ciphertext))))))))

-- UPDATE client_state SET generation, nonce, ciphertext WHERE …: the rows and how many changed. A
-- changed row that breaks a CHECK fails the statement.
unfoldable pub update_rows :
    StateRow → ℕ → Bytes → Bytes → List StateRow → Result (List StateRow × ℕ)
update_rows expected generation nonce ciphertext [] = ok ([], 0)
update_rows expected generation nonce ciphertext (r ∷ rows) =
    let changed = record r { generation = generation; nonce = nonce; ciphertext = ciphertext } in
    let rest = update_rows expected generation nonce ciphertext rows in
    if same_row expected r
    then (do
      reject_if (not (satisfies_checks changed)) storage
      (others, n) ← rest
      ok (changed ∷ others, suc n))
    else (do (others, n) ← rest; ok (r ∷ others, n))

unfoldable pub update_row_sql :
    StateFaults → StateRow → ℕ → Bytes → Bytes → List StateRow → Result (List StateRow × ℕ)
update_row_sql fails expected generation nonce ciphertext rows = do
  execute fails update_row
  update_rows expected generation nonce ciphertext rows

pub record StoredRow : Type 0 where
  pub generation : ℕ
  pub wrapped_dek : Bytes
  pub nonce : Bytes
  pub ciphertext : Bytes

abbrev pub in_slot : StateRow → Bool
in_slot r = r.slot == state_slot

-- The length checks of `read_row`, which precede any read of a blob.
unfoldable pub has_stored_lengths : StateRow → Bool
has_stored_lengths r = not (
    not (length r.profile_id == 16)
    || (ltb r.generation 1
        || (not (r.envelope_version == envelope_version)
            || (not (r.state_schema_version == state_schema_version)
                || (not (r.crypto_suite == crypto_suite)
                    || (not (length r.key_ref == 16)
                        || (ltb (length r.wrapped_dek) 1
                            || (ltb max_wrapped_dek_bytes (length r.wrapped_dek)
                                || (not (length r.nonce == nonce_bytes)
                                    || (ltb (length r.ciphertext) 16
                                        || ltb max_ciphertext_bytes (length r.ciphertext)))))))))))

unfoldable pub read_row : StateFaults → List StateRow → ProfileBinding → Result StoredRow
read_row fails rows binding = do
  found ← query fails select_lengths (find_where in_slot rows)
  lengths ← or_storage found
  reject_if (not (has_stored_lengths lengths)) storage
  again ← query fails select_row (find_where in_slot rows)
  row ← or_storage again
  reject_if
      (not (bytes_eq row.profile_id binding.profile_id)
        || not (bytes_eq row.key_ref binding.key_ref))
      storage
  nonce ← or_storage (from_slice nonce_bytes row.nonce)
  ok (record {
    generation = row.generation;
    wrapped_dek = row.wrapped_dek;
    nonce = nonce;
    ciphertext = row.ciphertext;
  })

unfoldable pub validate_ciphertext_len : ℕ → Result (Unit {0})
validate_ciphertext_len len = reject_if (not (leb 16 len && leb len max_ciphertext_bytes)) storage
