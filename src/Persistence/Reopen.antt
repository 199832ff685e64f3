-- ===== src/Persistence/Reopen.antt =====
-- Durability: what `create` and `commit` have stored, `open` reads back.
use secure_messenger_lab.Prelude.{◌≡◌, sym, ap, subst, true, false, [], ◌∷◌, arith, length}
use secure_messenger_lab.Errors.{ok}
use secure_messenger_lab.Bytes.{Bytes, from_slice}
use secure_messenger_lab.Bytes.Laws.{bytes_eq_refl}
use secure_messenger_lab.Table.{find_where}
use secure_messenger_lab.Crypto.{Crypto}
use secure_messenger_lab.Persistence.Companion.{FileSystem}
use secure_messenger_lab.Persistence.Envelope.{Aead, AeadLaws, seal_state, nonce_bytes}
use secure_messenger_lab.Persistence.Header.{seal_state-ok, open_state-seal_state}
use secure_messenger_lab.Persistence.Catalog.{
  Catalog, StateFaults, validate_schema, validate_table_list, validate_table_xinfo,
  validate_no_indexes_or_foreign_keys,
}
use secure_messenger_lab.Persistence.Rows.{
  StateDatabase, has_stored_lengths, read_row, validate_ciphertext_len,
}
use secure_messenger_lab.Persistence.StateStore.{
  ClientStateStore, StateKeyProtector, row_of, open_connection, activate_storage_settings,
  open_store, commit_state,
}
use secure_messenger_lab.Persistence.Stale.{commit_state-current}

-- No statement fails.
abbrev pub no_state_faults : StateFaults
no_state_faults = λ _. false

-- The checks of the schema do not depend on which statements might have failed.
pub validate_schema-healthy :
    (fails : StateFaults) (catalog : Catalog)
    → validate_schema fails catalog ≡ ok tt
    → validate_schema no_state_faults catalog ≡ ok tt
unfolding validate_schema validate_table_list validate_table_xinfo
    validate_no_indexes_or_foreign_keys
validate_schema-healthy fails catalog e = ground (arith, e)

module _ (c : Crypto) (a : Aead) where
  -- The database holds this handle's state, sealed under a key that the platform unwraps.
  pub record IsSynced (p : StateKeyProtector) (store : ClientStateStore) (db : StateDatabase)
      : Type 0 where
    pub protector : store.protector ≡ p
    pub usable : store.poisoned ≡ false
    pub rows : db.rows ≡ row_of store ∷ []
    pub checked : validate_schema no_state_faults db.catalog ≡ ok tt
    pub sealed :
        seal_state c a store.binding store.generation store.wrapped_dek store.dek store.nonce
          store.state
        ≡ ok store.ciphertext
    pub sized : validate_ciphertext_len (length store.ciphertext) ≡ ok tt
    pub nonce : length store.nonce ≡ nonce_bytes
    pub profile : length store.binding.profile_id ≡ 16
    pub key_ref : length store.binding.key_ref ≡ 16
    pub expected : p.expected_binding ≡ ok store.binding
    pub unwraps : p.unwrap_dek store.wrapped_dek ≡ ok store.dek

  -- A commit that succeeds keeps the handle and the database in step.
  pub commit_state-IsSynced :
      (p : StateKeyProtector) (fails : StateFaults) (store next : ClientStateStore)
      (db after : StateDatabase) (nonce state : Bytes)
      → IsSynced p store db
      → length nonce ≡ nonce_bytes
      → commit_state c a fails store db nonce state ≡ (ok tt, next, after)
      → IsSynced p next after
  commit_state-IsSynced p fails store next db after nonce state h sized e =
      let r = commit_state-current c a fails store next db after nonce state h.rows e in
      let shape = r.prepared.next_is in
      let binding : next.binding ≡ store.binding = ap (λ u. u.binding) shape in
      let wrapped : next.wrapped_dek ≡ store.wrapped_dek = ap (λ u. u.wrapped_dek) shape in
      let dek : next.dek ≡ store.dek = ap (λ u. u.dek) shape in
      let new_nonce : next.nonce ≡ nonce = ap (λ u. u.nonce) shape in
      let new_state : next.state ≡ state = ap (λ u. u.state) shape in
      record {
        usable = cc (ap (λ u. u.poisoned) shape, r.usable);
        rows = r.rows;
        checked =
            subst (λ t. validate_schema no_state_faults t ≡ ok tt) (sym r.catalog)
              (validate_schema-healthy fails db.catalog r.checked);
        sealed = cc (r.prepared.sealed, binding, wrapped, dek, new_nonce, new_state, r.counted);
        sized = r.prepared.sized;
        nonce = cc (sized, new_nonce);
        profile = cc (h.profile, binding);
        key_ref = cc (h.key_ref, binding);
        expected = cc (h.expected, binding);
        unwraps = cc (h.unwraps, wrapped, dek);
        protector = cc (ap (λ u. u.protector) shape, h.protector);
      }

  stored_lengths :
      (p : StateKeyProtector) (store : ClientStateStore) (db : StateDatabase)
      → IsSynced p store db
      → has_stored_lengths (row_of store) ≡ true
  unfolding has_stored_lengths validate_ciphertext_len
  stored_lengths p store db h =
      let facts =
        seal_state-ok c a store.binding store.generation store.wrapped_dek store.dek store.nonce
          store.state h.sealed in
      ground (arith, h.profile, h.key_ref, h.nonce, h.sized, facts.0, facts.1)

  -- Opening a database that is in step with a handle gives back that handle: the same state, the
  -- same generation and the same keys. The platform's answers, the laws of the cipher, a path
  -- whose companion is in order and statements that do not fail are its conditions.
  pub open_store-IsSynced :
      (fs : FileSystem) (laws : AeadLaws a) (p : StateKeyProtector) (path : Bytes)
      (store : ClientStateStore) (db : StateDatabase)
      → open_connection no_state_faults fs path ≡ ok tt
      → IsSynced p store db
      → open_store c a fs no_state_faults p path db ≡ ok store
  unfolding open_store read_row find_where from_slice activate_storage_settings
  open_store-IsSynced fs laws p path store db reachable h =
      let opened =
        open_state-seal_state c a laws store.binding store.generation store.wrapped_dek store.dek
          store.nonce store.state store.ciphertext h.sealed in
      let lengths = stored_lengths p store db h in
      ground (
        arith,
        reachable,
        h.usable,
        h.protector,
        h.rows,
        h.checked,
        h.expected,
        h.unwraps,
        h.nonce,
        opened,
        lengths,
        bytes_eq_refl store.binding.profile_id,
        bytes_eq_refl store.binding.key_ref,
      )
