-- ===== src/Persistence/History/Step.antt =====
-- A commit that is written: the register's generation was the handle's, and the file holds the
-- new version.
use secure_messenger_lab.Prelude.{
  ◌+◌, ◌≡◌, refl, sym, subst, ap, ◌∙◌, true, false, inl, inr, List, [], ◌∷◌, arith, Bool-cases,
}
use secure_messenger_lab.Errors.{ok}
use secure_messenger_lab.Bytes.Laws.{bytes_eq_iff}
use secure_messenger_lab.Crypto.{Crypto}
use secure_messenger_lab.Persistence.Envelope.{Aead}
use secure_messenger_lab.Persistence.Catalog.{validate_schema}
use secure_messenger_lab.Persistence.Rows.{StateRow, StateDatabase, same_row, update_rows}
use secure_messenger_lab.Persistence.StateStore.{
  ClientStateStore, StateKeyProtector, row_of, commit_in,
}
use secure_messenger_lab.Persistence.Commit.{Prepared, commit_in-ok}
use secure_messenger_lab.Persistence.Stale.{update_rows-current, row_of-next}
use secure_messenger_lab.Persistence.Reopen.{IsSynced, no_state_faults, validate_schema-healthy}
use secure_messenger_lab.Persistence.History.{Attempt, Version, IsGenuine, Holds}

same_row-true :
    (s t : ClientStateStore)
    → same_row (row_of s) (row_of t) ≡ true
    → (row_of t ≡ row_of s) × (t.binding ≡ s.binding) × (t.generation ≡ s.generation)
unfolding same_row
same_row-true s t h =
    let profile = (bytes_eq_iff t.binding.profile_id s.binding.profile_id).0 (ground arith) in
    let key = (bytes_eq_iff t.binding.key_ref s.binding.key_ref).0 (ground arith) in
    let wrapped = (bytes_eq_iff t.wrapped_dek s.wrapped_dek).0 (ground arith) in
    let nonce = (bytes_eq_iff t.nonce s.nonce).0 (ground arith) in
    let ciphertext = (bytes_eq_iff t.ciphertext s.ciphertext).0 (ground arith) in
    let generation : t.generation ≡ s.generation = ground arith in
    (
      rw (profile, key, wrapped, nonce, ciphertext, generation) refl,
      rw (profile, key) refl,
      generation,
    )

module _ (c : Crypto) (a : Aead) (p : StateKeyProtector) where
  -- A row that an UPDATE changes is the one that its handle expects.
  expected_row :
      (e : Attempt) (held next : ClientStateStore) (rows : List StateRow)
      → update_rows (row_of e.handle) next.generation next.nonce next.ciphertext (row_of held ∷ [])
        ≡ ok (rows, 1)
      → same_row (row_of e.handle) (row_of held) ≡ true
  unfolding update_rows
  expected_row e held next rows updated =
      elim (Bool-cases (same_row (row_of e.handle) (row_of held))) [
        | inl same ↦ same
        | inr other ↦ absurd (ground arith)
      ]

  next-IsSynced :
      (e : Attempt) (db after : StateDatabase) (held next : ClientStateStore)
      → IsGenuine c a p e
      → IsSynced c a p held db
      → e.handle.poisoned ≡ false
      → Prepared c a e.handle e.nonce e.state next
      → held.binding ≡ e.handle.binding
      → after.rows ≡ row_of next ∷ []
      → after.catalog ≡ db.catalog
      → validate_schema e.fails db.catalog ≡ ok tt
      → IsSynced c a p (record next { protector = p }) after
  next-IsSynced e db after held next genuine h usable prepared bound rows catalog checked =
      let shape = prepared.next_is in
      let binding : next.binding ≡ e.handle.binding = ap (λ u. u.binding) shape in
      let wrapped : next.wrapped_dek ≡ e.handle.wrapped_dek = ap (λ u. u.wrapped_dek) shape in
      let dek : next.dek ≡ e.handle.dek = ap (λ u. u.dek) shape in
      let new_nonce : next.nonce ≡ e.nonce = ap (λ u. u.nonce) shape in
      let new_state : next.state ≡ e.state = ap (λ u. u.state) shape in
      let counted : next.generation ≡ e.handle.generation + 1 = ap (λ u. u.generation) shape in
      record {
        protector = refl;
        usable = cc (ap (λ u. u.poisoned) shape, usable);
        rows = rows;
        checked =
            subst (λ t. validate_schema no_state_faults t ≡ ok tt) (sym catalog)
              (validate_schema-healthy e.fails db.catalog checked);
        sealed = cc (prepared.sealed, binding, wrapped, dek, new_nonce, new_state, counted);
        sized = prepared.sized;
        nonce = cc (genuine.size, new_nonce);
        profile = cc (h.profile, bound, binding);
        key_ref = cc (h.key_ref, bound, binding);
        expected = cc (h.expected, bound, binding);
        unwraps = cc (genuine.unwraps, wrapped, dek);
      }

  pub written-Holds :
      (e : Attempt) (db after : StateDatabase) (v : Version) (next : ClientStateStore)
      → IsGenuine c a p e
      → Holds c a p db v
      → e.handle.poisoned ≡ false
      → Prepared c a e.handle e.nonce e.state next
      → commit_in e.fails e.handle next db ≡ ok after
      → (e.handle.generation ≡ v.generation)
        × Holds c a p after (record { generation = v.generation + 1; state = e.state })
  written-Holds e db after v next genuine h usable prepared updated =
      let (checked, catalog, changed) = commit_in-ok e.fails e.handle next db after updated in
      let rows_before = h.synced.rows in
      let on_held =
        subst
          (λ rs.
            update_rows (row_of e.handle) next.generation next.nonce next.ciphertext rs
            ≡ ok (after.rows, 1))
          rows_before changed in
      let (row, bound, generation) =
        same_row-true e.handle h.store (expected_row e h.store next after.rows on_held) in
      let rows =
        update_rows-current e.handle next after.rows 1 (
          subst
            (λ r.
              update_rows (row_of e.handle) next.generation next.nonce next.ciphertext (r ∷ [])
              ≡ ok (after.rows, 1))
            row on_held)
        ∙ ap (λ r. r ∷ []) (sym (row_of-next c a e.handle next e.nonce e.state prepared)) in
      let counted : next.generation ≡ e.handle.generation + 1 =
        ap (λ u. u.generation) prepared.next_is in
      (
        sym generation ∙ h.generation,
        record {
          store = record next { protector = p };
          synced =
              next-IsSynced e db after h.store next genuine h.synced usable prepared bound rows
                catalog checked;
          generation = omega (arith, counted, generation, h.generation);
          state = ap (λ u. u.state) prepared.next_is;
        },
      )
