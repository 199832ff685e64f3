-- ===== src/Persistence/Create.antt =====
-- What `create` has stored when it succeeds.
use secure_messenger_lab.Prelude.{◌≡◌, ap, true, false, inl, inr, [], ◌∷◌, arith, length}
use secure_messenger_lab.Errors.{ok, Result-cases}
use secure_messenger_lab.Bytes.{Bytes}
use secure_messenger_lab.Crypto.{Crypto}
use secure_messenger_lab.Persistence.Companion.{FileSystem}
use secure_messenger_lab.Persistence.Envelope.{Aead, AeadLaws, seal_state, nonce_bytes}
use secure_messenger_lab.Persistence.Catalog.{StateFaults, validate_schema, create_schema}
use secure_messenger_lab.Persistence.Rows.{
  StateDatabase, satisfies_checks, insert_row_sql, validate_ciphertext_len,
}
use secure_messenger_lab.Persistence.StateStore.{
  ClientStateStore, StateKeyProtector, ProtectorLaws, row_of, open_connection, commit_transaction,
  prepare_create, create_in, create, open_store, commit_state,
}
use secure_messenger_lab.Persistence.Commit.{commit_outcome}
use secure_messenger_lab.Persistence.Reopen.{
  IsSynced, no_state_faults, validate_schema-healthy, open_store-IsSynced, commit_state-IsSynced,
}

module _ (c : Crypto) (a : Aead) (fs : FileSystem) (p : StateKeyProtector) where
  -- The handle that `create` prepares.
  record Fresh (dek nonce state : Bytes) (store : ClientStateStore) : Type 0 where
    expected : p.expected_binding ≡ ok store.binding
    wrapped : p.wrap_dek dek ≡ ok store.wrapped_dek
    sealed : seal_state c a store.binding 1 store.wrapped_dek dek nonce state ≡ ok store.ciphertext
    sized : validate_ciphertext_len (length store.ciphertext) ≡ ok tt
    shape : store ≡ record {
      protector = p;
      binding = store.binding;
      dek = dek;
      wrapped_dek = store.wrapped_dek;
      nonce = nonce;
      ciphertext = store.ciphertext;
      generation = 1;
      state = state;
      poisoned = false;
    }

  prepare_create-Fresh :
      (fails : StateFaults) (path : Bytes) (db : StateDatabase) (dek nonce state : Bytes)
      (store : ClientStateStore)
      → prepare_create c a fs fails p path db dek nonce state ≡ ok store
      → Fresh dek nonce state store
  unfolding prepare_create
  prepare_create-Fresh fails path db dek nonce state store e =
      elim (Result-cases p.expected_binding) [
        | inr (x, refused) ↦ absurd (ground arith)
        | inl (binding, bound) ↦ elim (Result-cases (p.wrap_dek dek)) [
          | inr (x, refused) ↦ absurd (ground arith)
          | inl (wrapped, wraps) ↦
              elim (Result-cases (seal_state c a binding 1 wrapped dek nonce state)) [
                | inr (x, refused) ↦ absurd (ground arith)
                | inl (ciphertext, sealed) ↦
                    let made : store ≡ record {
                      protector = p;
                      binding = binding;
                      dek = dek;
                      wrapped_dek = wrapped;
                      nonce = nonce;
                      ciphertext = ciphertext;
                      generation = 1;
                      state = state;
                      poisoned = false;
                    } =
                      ground arith in
                    let b : store.binding ≡ binding = ap (λ s. s.binding) made in
                    let w : store.wrapped_dek ≡ wrapped = ap (λ s. s.wrapped_dek) made in
                    let t : store.ciphertext ≡ ciphertext = ap (λ s. s.ciphertext) made in
                    let size : validate_ciphertext_len (length ciphertext) ≡ ok tt = ground arith in
                    record {
                      expected = cc (bound, b);
                      wrapped = cc (wraps, w);
                      sealed = cc (sealed, b, w, t);
                      sized = cc (size, t);
                      shape = cc (made, b, w, t);
                    }
              ]
        ]
      ]

  create_in-ok :
      (fails : StateFaults) (store : ClientStateStore) (db after : StateDatabase)
      → db.rows ≡ []
      → create_in fails store db ≡ ok after
      → (after.rows ≡ row_of store ∷ [])
        × (satisfies_checks (row_of store) ≡ true)
        × (validate_schema fails after.catalog ≡ ok tt)
  unfolding create_in insert_row_sql
  create_in-ok fails store db after none_yet e =
      elim (Result-cases (create_schema fails db.catalog)) [
        | inr (x, refused) ↦ absurd (ground arith)
        | inl (catalog, made) ↦ elim (Result-cases (validate_schema fails catalog)) [
          | inr (x, refused) ↦ absurd (ground arith)
          | inl (u, valid) ↦
              let same : after.catalog ≡ catalog = ground arith in
              (ground (arith, none_yet), ground arith, cc (valid, same))
        ]
      ]

  create-ok :
      (before fails : StateFaults) (path : Bytes) (db after : StateDatabase)
      (dek nonce state : Bytes) (store : ClientStateStore)
      → create c a fs before fails p path db dek nonce state ≡ (ok store, after)
      → (prepare_create c a fs before p path db dek nonce state ≡ ok store)
        × (create_in fails store db ≡ ok after)
  unfolding create commit_transaction
  create-ok before fails path db after dek nonce state store e =
      elim (Result-cases (prepare_create c a fs before p path db dek nonce state)) [
        | inr (x, refused) ↦ absurd (ground arith)
        | inl (made, prepared) ↦ elim (Result-cases (create_in fails made db)) [
          | inr (x, refused) ↦ absurd (ground arith)
          | inl (stored, inserted) ↦
              let same : made ≡ store = ground arith in
              let same_after : stored ≡ after = ground arith in
              (cc (prepared, same), cc (inserted, same, same_after))
        ]
      ]

  -- A successful `create` on a database without rows leaves a handle that the database is in step
  -- with.
  create-IsSynced :
      (laws : ProtectorLaws p) (before fails : StateFaults) (path : Bytes)
      (db after : StateDatabase) (dek nonce state : Bytes) (store : ClientStateStore)
      → db.rows ≡ []
      → create c a fs before fails p path db dek nonce state ≡ (ok store, after)
      → IsSynced c a p store after × (store.state ≡ state) × (store.generation ≡ 1)
  unfolding satisfies_checks
  create-IsSynced laws before fails path db after dek nonce state store none_yet e =
      let (prepared, inserted) = create-ok before fails path db after dek nonce state store e in
      let fresh = prepare_create-Fresh before path db dek nonce state store prepared in
      let (rows, checks, valid) = create_in-ok fails store db after none_yet inserted in
      let has_dek : store.dek ≡ dek = ap (λ s. s.dek) fresh.shape in
      let has_nonce : store.nonce ≡ nonce = ap (λ s. s.nonce) fresh.shape in
      let has_state : store.state ≡ state = ap (λ s. s.state) fresh.shape in
      let first : store.generation ≡ 1 = ap (λ s. s.generation) fresh.shape in
      (
        record {
          protector = ap (λ s. s.protector) fresh.shape;
          usable = ap (λ s. s.poisoned) fresh.shape;
          rows = rows;
          checked = validate_schema-healthy fails after.catalog valid;
          sealed = cc (fresh.sealed, has_dek, has_nonce, has_state, first);
          sized = fresh.sized;
          nonce = ground arith;
          profile = ground arith;
          key_ref = ground arith;
          expected = fresh.expected;
          unwraps = cc (laws.unwrap_wrap dek store.wrapped_dek fresh.wrapped, has_dek);
        },
        has_state,
        first,
      )

  -- After a `create` that succeeds on a database without rows, `open` gives back the same handle,
  -- with the state that was created at generation one; and after a `commit` through that handle
  -- that succeeds, `open` gives back the committed state at generation two. The laws of the cipher
  -- and of the platform's keys, a path whose companion is in order and a read that meets no
  -- failing statement are the conditions.
  pub create_commit_open :
      (laws : AeadLaws a) (keys : ProtectorLaws p) (before fails : StateFaults) (path : Bytes)
      (db after : StateDatabase) (dek nonce state : Bytes) (store : ClientStateStore)
      → db.rows ≡ []
      → open_connection no_state_faults fs path ≡ ok tt
      → create c a fs before fails p path db dek nonce state ≡ (ok store, after)
      → (open_store c a fs no_state_faults p path after ≡ ok store)
        × (store.state ≡ state)
        × (store.generation ≡ 1)
        × ((later : StateFaults) (nonce' state' : Bytes) (next : ClientStateStore)
              (committed : StateDatabase)
            → length nonce' ≡ nonce_bytes
            → commit_state c a later store after nonce' state' ≡ (ok tt, next, committed)
            → (open_store c a fs no_state_faults p path committed ≡ ok next)
              × (next.state ≡ state')
              × (next.generation ≡ 2))
  create_commit_open laws keys before fails path db after dek nonce state store none_yet reachable
        e =
      let (synced, has_state, first) =
        create-IsSynced keys before fails path db after dek nonce state store none_yet e in
      (
        open_store-IsSynced c a fs laws p path store after reachable synced,
        has_state,
        first,
        λ later nonce' state' next committed sized f.
            let now =
              commit_state-IsSynced c a p later store next after committed nonce' state' synced
                sized f in
            let outcome = (commit_outcome c a later store next after committed nonce' state').0 f in
            (
              open_store-IsSynced c a fs laws p path next committed reachable now,
              outcome.1,
              ground (arith, outcome.0, first),
            ),
      )
