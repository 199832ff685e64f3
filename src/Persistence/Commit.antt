-- ===== src/Persistence/Commit.antt =====
-- The compare-and-swap of `commit`, and the poisoning of a handle.
use secure_messenger_lab.Prelude.{
  ℕ, ◌+◌, ◌≤◌, ◌≡◌, refl, ap, true, false, ◌⊎◌, inl, inr, List, [], ◌∷◌, arith, Bool-cases, All,
  length,
}
use secure_messenger_lab.Errors.{Result, LabError, ok, err, storage, Result-cases}
use secure_messenger_lab.Bytes.{Bytes, i64_max}
use secure_messenger_lab.Crypto.{Crypto}
use secure_messenger_lab.Persistence.Envelope.{Aead, seal_state}
use secure_messenger_lab.Persistence.Catalog.{StateFaults, commit, commit_reply, validate_schema}
use secure_messenger_lab.Persistence.Rows.{
  StateRow, StateDatabase, same_row, update_rows, update_row_sql, validate_ciphertext_len,
}
use secure_messenger_lab.Persistence.StateStore.{
  ClientStateStore, row_of, commit_transaction, prepare_commit, commit_in, commit_inner, adopt,
  commit_state,
}

update_rows-none :
    (expected : StateRow) (generation : ℕ) (nonce ciphertext : Bytes) (rows : List StateRow)
    → All (λ r. same_row expected r ≡ false) rows
    → update_rows expected generation nonce ciphertext rows ≡ ok (rows, 0)
unfolding update_rows
update_rows-none expected generation nonce ciphertext [] h = refl
update_rows-none expected generation nonce ciphertext (r ∷ rows) h =
    ground (arith, h.0, update_rows-none expected generation nonce ciphertext rows h.1)

pub commit_in-ok :
    (fails : StateFaults) (store next : ClientStateStore) (db after : StateDatabase)
    → commit_in fails store next db ≡ ok after
    → (validate_schema fails db.catalog ≡ ok tt)
      × (after.catalog ≡ db.catalog)
      × (update_rows (row_of store) next.generation next.nonce next.ciphertext db.rows
          ≡ ok (after.rows, 1))
unfolding commit_in update_row_sql
commit_in-ok fails store next db after e = elim (Result-cases (validate_schema fails db.catalog)) [
  | inr (x, refused) ↦ absurd (ground arith)
  | inl (u, valid) ↦
      elim (Result-cases
        (update_rows (row_of store) next.generation next.nonce next.ciphertext db.rows)) [
          | inr (x, refused) ↦ absurd (ground arith)
          | inl ((rows, changed), updated) ↦
              let written : rows ≡ after.rows = ground arith in
              let one : changed ≡ 1 = ground arith in
              (valid, ground arith, cc (updated, written, one))
        ]
]

pub commit_in-stale :
    (fails : StateFaults) (store next : ClientStateStore) (db : StateDatabase)
    → All (λ r. same_row (row_of store) r ≡ false) db.rows
    → (x : LabError) × (commit_in fails store next db ≡ err x)
unfolding commit_in update_row_sql
commit_in-stale fails store next db h = elim (Result-cases (commit_in fails store next db)) [
  | inr refused ↦ refused
  | inl (after, accepted) ↦
      let (_, _, updated) = commit_in-ok fails store next db after accepted in
      let none_updated =
        update_rows-none (row_of store) next.generation next.nonce next.ciphertext db.rows h in
      absurd (ground (arith, updated, none_updated))
]

module _ (c : Crypto) (a : Aead) where
  -- What the handle becomes when its commit succeeds.
  pub record Prepared (store : ClientStateStore) (nonce state : Bytes) (next : ClientStateStore)
      : Type 0 where
    pub sealed :
        seal_state c a store.binding (store.generation + 1) store.wrapped_dek store.dek nonce state
        ≡ ok next.ciphertext
    pub next_is : next ≡ record store {
      generation = store.generation + 1;
      state = state;
      nonce = nonce;
      ciphertext = next.ciphertext;
    }
    pub small : store.generation + 1 ≤ i64_max
    pub sized : validate_ciphertext_len (length next.ciphertext) ≡ ok tt

  pub prepare_commit-ok :
      (fails : StateFaults) (store next : ClientStateStore) (nonce state : Bytes)
      → prepare_commit c a fails store nonce state ≡ ok next
      → Prepared store nonce state next
  unfolding prepare_commit
  prepare_commit-ok fails store next nonce state e =
      elim (Result-cases (
        seal_state c a store.binding (store.generation + 1) store.wrapped_dek store.dek nonce
          state)) [
            | inr (x, refused) ↦ absurd (ground arith)
            | inl (ciphertext, sealed) ↦
                let same : ciphertext ≡ next.ciphertext = ground arith in
                record {
                  sealed = cc (sealed, same);
                  next_is = ground arith;
                  small = ground arith;
                  sized = ground arith;
                }
          ]

  -- What a call of `commit` does to the handle and the database.
  pub data Committed (fails : StateFaults) (store : ClientStateStore) (db : StateDatabase)
      (nonce state : Bytes) (done : Result (Unit {0}) × ClientStateStore × StateDatabase)
      : Type 0 where
    refused :
        store.poisoned ≡ true
        → done ≡ (err storage, store, db)
        → Committed fails store db nonce state done
    rolled_back :
        (x : LabError)
        → done ≡ (err x, record store { poisoned = true }, db)
        → Committed fails store db nonce state done
    written :
        (next : ClientStateStore) (after : StateDatabase)
        → store.poisoned ≡ false
        → Prepared store nonce state next
        → commit_in fails store next db ≡ ok after
        → (done ≡ (ok tt, next, after))
          ⊎ ((fails commit_reply ≡ true)
              × (done ≡ (err storage, record store { poisoned = true }, after)))
        → Committed fails store db nonce state done

  pub commit_state-Committed :
      (fails : StateFaults) (store : ClientStateStore) (db : StateDatabase) (nonce state : Bytes)
      → Committed fails store db nonce state (commit_state c a fails store db nonce state)
  unfolding commit_state commit_inner commit_transaction adopt
  commit_state-Committed fails store db nonce state = elim (Bool-cases store.poisoned) [
    | inl poisoned ↦ refused poisoned (ground arith)
    | inr usable ↦ elim (Result-cases (prepare_commit c a fails store nonce state)) [
      | inr (x, stopped) ↦ rolled_back x (ground arith)
      | inl (next, prepared) ↦ elim (Result-cases (commit_in fails store next db)) [
        | inr (x, stopped) ↦ rolled_back x (ground arith)
        | inl (after, updated) ↦ elim (Bool-cases (fails commit)) [
          | inl lost ↦ rolled_back storage (ground arith)
          | inr sent ↦
              written next after usable (prepare_commit-ok fails store next nonce state prepared)
                updated
                (elim (Bool-cases (fails commit_reply)) [
                  | inl unheard ↦ inr (unheard, ground arith)
                  | inr heard ↦ inl (ground arith)
                ])
        ]
      ]
    ]
  ]

  pub commit_outcome :
      (fails : StateFaults) (store after : ClientStateStore) (db db' : StateDatabase)
      (nonce state : Bytes)
      → (commit_state c a fails store db nonce state ≡ (ok tt, after, db')
          → (after.generation ≡ store.generation + 1)
            × (after.state ≡ state)
            × (after.nonce ≡ nonce)
            × (after.binding ≡ store.binding)
            × (after.wrapped_dek ≡ store.wrapped_dek)
            × (after.poisoned ≡ false)
            × (seal_state c a store.binding
                  (store.generation + 1)
                  store.wrapped_dek
                  store.dek
                  nonce
                  state
                ≡ ok after.ciphertext)
            × (db'.catalog ≡ db.catalog)
            × (update_rows (row_of store) after.generation after.nonce after.ciphertext db.rows
                ≡ ok (db'.rows, 1)))
        × ((x : LabError)
            → commit_state c a fails store db nonce state ≡ (err x, after, db')
            → (after ≡ record store { poisoned = true })
              × ((db' ≡ db) ⊎ (fails commit_reply ≡ true)))
  commit_outcome fails store after db db' nonce state =
      let change = commit_state-Committed fails store db nonce state in
      (λ e. succeeded e change, λ x e. stopped x e change)
    where
      succeeded :
          commit_state c a fails store db nonce state ≡ (ok tt, after, db')
          → Committed fails store db nonce state (commit_state c a fails store db nonce state)
          → (after.generation ≡ store.generation + 1)
            × (after.state ≡ state)
            × (after.nonce ≡ nonce)
            × (after.binding ≡ store.binding)
            × (after.wrapped_dek ≡ store.wrapped_dek)
            × (after.poisoned ≡ false)
            × (seal_state c a store.binding
                  (store.generation + 1)
                  store.wrapped_dek
                  store.dek
                  nonce
                  state
                ≡ ok after.ciphertext)
            × (db'.catalog ≡ db.catalog)
            × (update_rows (row_of store) after.generation after.nonce after.ciphertext db.rows
                ≡ ok (db'.rows, 1))
      succeeded e (refused p q) = absurd (ground arith)
      succeeded e (rolled_back x q) = absurd (ground arith)
      succeeded e (written next _ usable p _ (inr (_, q))) = absurd (ground arith)
      succeeded e (written next reached usable p updated (inl q)) =
          let same : after ≡ next = ground arith in
          let same_db : reached ≡ db' = ground arith in
          let (_, catalog, rows) = commit_in-ok fails store next db reached updated in
          let shape = p.next_is in
          (
            cc (same, ap (λ s. s.generation) shape),
            cc (same, ap (λ s. s.state) shape),
            cc (same, ap (λ s. s.nonce) shape),
            cc (same, ap (λ s. s.binding) shape),
            cc (same, ap (λ s. s.wrapped_dek) shape),
            cc (same, usable, ap (λ s. s.poisoned) shape),
            cc (same, p.sealed),
            cc (same_db, catalog),
            cc (same, same_db, rows),
          )

      stopped :
          (x : LabError)
          → commit_state c a fails store db nonce state ≡ (err x, after, db')
          → Committed fails store db nonce state (commit_state c a fails store db nonce state)
          → (after ≡ record store { poisoned = true }) × ((db' ≡ db) ⊎ (fails commit_reply ≡ true))
      stopped x e (refused p q) = (ground arith, inl (ground arith))
      stopped x e (rolled_back y q) = (ground arith, inl (ground arith))
      stopped x e (written next _ usable p _ (inl q)) = absurd (ground arith)
      stopped x e (written next _ usable p _ (inr (lost, q))) = (ground arith, inr lost)
