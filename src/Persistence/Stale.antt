-- ===== src/Persistence/Stale.antt =====
-- Handles that the database has left behind, and poisoned handles.
use secure_messenger_lab.Prelude.{
  ℕ, ◌+◌, ◌≡◌, sym, ap, subst, ◌∙◌, true, false, inl, inr, List, [], ◌∷◌, arith, All,
}
use secure_messenger_lab.Errors.{LabError, ok, err, storage}
use secure_messenger_lab.Bytes.{Bytes}
use secure_messenger_lab.Bytes.Laws.{bytes_eq_refl}
use secure_messenger_lab.Crypto.{Crypto}
use secure_messenger_lab.Persistence.Envelope.{Aead}
use secure_messenger_lab.Persistence.Catalog.{StateFaults, validate_schema}
use secure_messenger_lab.Persistence.Rows.{StateRow, StateDatabase, same_row, update_rows}
use secure_messenger_lab.Persistence.StateStore.{
  ClientStateStore, row_of, commit_state, ensure_usable, read_state, read_generation, read_binding,
  read_protection_level,
}
use secure_messenger_lab.Persistence.Commit.{
  Prepared, Committed, refused, rolled_back, written, commit_state-Committed, commit_in-ok,
  commit_in-stale, commit_outcome,
}

pub same_row_refl : (r : StateRow) → same_row r r ≡ true
unfolding same_row
same_row_refl r = ground (
  arith,
  bytes_eq_refl r.profile_id,
  bytes_eq_refl r.key_ref,
  bytes_eq_refl r.wrapped_dek,
  bytes_eq_refl r.nonce,
  bytes_eq_refl r.ciphertext,
)

-- The one row of the database becomes the new handle's row.
pub update_rows-current :
    (store next : ClientStateStore) (rows : List StateRow) (changed : ℕ)
    → update_rows (row_of store) next.generation next.nonce next.ciphertext (row_of store ∷ [])
      ≡ ok (rows, changed)
    → rows
      ≡ record (row_of store) {
        generation = next.generation;
        nonce = next.nonce;
        ciphertext = next.ciphertext;
      }
        ∷ []
unfolding update_rows
update_rows-current store next rows changed e = ground (arith, same_row_refl (row_of store))

older_row :
    (old new : ClientStateStore)
    → new.generation ≡ old.generation + 1
    → same_row (row_of old) (row_of new) ≡ false
unfolding same_row
older_row old new h = ground (arith, h)

module _ (c : Crypto) (a : Aead) where
  -- A successful commit on a database that holds the handle's row.
  pub record Replaced (fails : StateFaults) (store next : ClientStateStore)
      (db after : StateDatabase) (nonce state : Bytes) : Type 0 where
    pub prepared : Prepared c a store nonce state next
    pub counted : next.generation ≡ store.generation + 1
    pub rows : after.rows ≡ row_of next ∷ []
    pub catalog : after.catalog ≡ db.catalog
    pub checked : validate_schema fails db.catalog ≡ ok tt
    pub usable : store.poisoned ≡ false

  pub row_of-next :
      (s t : ClientStateStore) (nonce state : Bytes)
      → Prepared c a s nonce state t
      → row_of t ≡ record (row_of s) {
        generation = t.generation;
        nonce = t.nonce;
        ciphertext = t.ciphertext;
      }
  row_of-next s t nonce state p =
      let binding : t.binding ≡ s.binding = ap (λ u. u.binding) p.next_is in
      let wrapped : t.wrapped_dek ≡ s.wrapped_dek = ap (λ u. u.wrapped_dek) p.next_is in
      ground (arith, binding, wrapped)

  pub commit_state-current :
      (fails : StateFaults) (store next : ClientStateStore) (db after : StateDatabase)
      (nonce state : Bytes)
      → db.rows ≡ row_of store ∷ []
      → commit_state c a fails store db nonce state ≡ (ok tt, next, after)
      → Replaced fails store next db after nonce state
  commit_state-current fails store next db after nonce state only e =
      go (commit_state-Committed c a fails store db nonce state)
    where
      go :
          Committed c a fails store db nonce state (commit_state c a fails store db nonce state)
          → Replaced fails store next db after nonce state
      go (refused p q) = absurd (ground arith)
      go (rolled_back x q) = absurd (ground arith)
      go (written reached stored _ _ _ (inr (_, q))) = absurd (ground arith)
      go (written reached stored usable prepared updated (inl q)) =
          let same_next : reached ≡ next = ground arith in
          let same_after : stored ≡ after = ground arith in
          let prepared' = subst (Prepared c a store nonce state) same_next prepared in
          let (checked, catalog, rows) =
            commit_in-ok fails store next db after (cc (updated, same_next, same_after)) in
          let changed = update_rows-current store next after.rows 1 (
            subst
              (λ rs.
                update_rows (row_of store) next.generation next.nonce next.ciphertext rs
                ≡ ok (after.rows, 1))
              only rows) in
          record {
            prepared = prepared';
            counted = ap (λ s. s.generation) prepared'.next_is;
            rows = changed ∙ ap (λ r. r ∷ []) (sym (row_of-next store next nonce state prepared'));
            catalog = catalog;
            checked = checked;
            usable = usable;
          }

  -- A commit through a handle whose generation, nonce, ciphertext, keys or binding are no longer
  -- those of the stored row fails, changes nothing in the database, and poisons the handle.
  pub stale_commit_fails :
      (fails : StateFaults) (store : ClientStateStore) (db : StateDatabase) (nonce state : Bytes)
      → All (λ r. same_row (row_of store) r ≡ false) db.rows
      → (x : LabError) × (commit_state c a fails store db nonce state
          ≡ (err x, record store { poisoned = true }, db))
  stale_commit_fails fails store db nonce state h =
      go (commit_state-Committed c a fails store db nonce state)
    where
      go :
          Committed c a fails store db nonce state (commit_state c a fails store db nonce state)
          → (x : LabError) × (commit_state c a fails store db nonce state
              ≡ (err x, record store { poisoned = true }, db))
      go (refused p q) = (storage, ground arith)
      go (rolled_back x q) = (x, q)
      go (written next after _ _ updated _) =
          let (x, stopped) = commit_in-stale fails store next db h in
          absurd (ground (arith, stopped, updated))

  -- Of two handles of one generation on one database, after a commit of the first succeeds every
  -- commit of the second fails, changes nothing in the database, and poisons the second.
  pub second_commit_fails :
      (fails : StateFaults) (first next second : ClientStateStore) (db after : StateDatabase)
      (nonce state : Bytes)
      → db.rows ≡ row_of first ∷ []
      → second.generation ≡ first.generation
      → commit_state c a fails first db nonce state ≡ (ok tt, next, after)
      → (later : StateFaults) (nonce' state' : Bytes)
      → (x : LabError) × (commit_state c a later second after nonce' state'
          ≡ (err x, record second { poisoned = true }, after))
  second_commit_fails fails first next second db after nonce state only same e later nonce' state' =
      let now = commit_state-current fails first next db after nonce state only e in
      stale_commit_fails later second after nonce' state' (
        subst (All (λ r. same_row (row_of second) r ≡ false)) (sym now.rows)
          (older_row second next (cc (same, now.counted)), tt))

  -- After a commit has failed, its handle's `commit`, `state`, `generation` and `binding` fail,
  -- whatever the database and the faults, and that commit changes nothing; `protection_level`
  -- answers as before.
  pub poisoned_for_good :
      (fails : StateFaults) (store after : ClientStateStore) (db db' : StateDatabase)
      (nonce state : Bytes) (x : LabError)
      → commit_state c a fails store db nonce state ≡ (err x, after, db')
      → ((later : StateFaults) (other : StateDatabase) (nonce' state' : Bytes)
          → commit_state c a later after other nonce' state' ≡ (err storage, after, other))
        × (read_state after ≡ err storage)
        × (read_generation after ≡ err storage)
        × (read_binding after ≡ err storage)
        × (read_protection_level after ≡ read_protection_level store)
  unfolding commit_state read_state read_generation read_binding ensure_usable read_protection_level
  poisoned_for_good fails store after db db' nonce state x e =
      let shape = ((commit_outcome c a fails store after db db' nonce state).1 x e).0 in
      let poisoned : after.poisoned ≡ true = ap (λ s. s.poisoned) shape in
      (
        λ later other nonce' state'. rw poisoned,
        rw poisoned,
        rw poisoned,
        rw poisoned,
        ap (λ s. s.protector.protection_level) shape,
      )
