-- ===== src/Relay/Opening/Migration.antt =====
-- What `initialize` has done when it succeeds: the schema, the version and the rows.
use secure_messenger_lab.Prelude.{
  ℕ, ◌≡◌, ◌≤◌, refl, sym, ◌∙◌, subst, true, false, [], ◌∷◌, arith, leb, not, Option-cases,
  Bool-cases, inl, inr, ◌⊎◌,
}
use secure_messenger_lab.Errors.{ok, storage, ◌>>=◌, ◌>>◌, reject_if, >>=-eq-ok}
use secure_messenger_lab.Bytes.{ascii, bytes_eq}
use secure_messenger_lab.Sqlite.{query, list_eq}
use secure_messenger_lab.Relay.Store.{empty_tables}
use secure_messenger_lab.Relay.Ddl.{current_schema_ddl, current_messages_ddl, legacy_schema_ddl}
use secure_messenger_lab.Relay.Manifest.{
  SchemaManifest, OpenFaults, select_version, schema_manifest, manifest_eq, empty_manifest,
}
use secure_messenger_lab.Relay.Schema.{
  RelayDatabase, SchemaEngine, SchemaKind, empty, legacy, current, unknown, current_schema_version,
  classify_schema, is_supported, validate_database_integrity, validate_current_schema, inspect,
  validate_schema_for_open, create_current, replace_messages, migrate_kind, reference_manifest,
}

module _ (engine : SchemaEngine) where
  -- What SQLite reports of the file is in order.
  pub record IsSound (db : RelayDatabase) : Type 0 where
    pub no_foreign_key_problem : engine.foreign_key_check db ≡ false
    pub integral : list_eq bytes_eq (engine.integrity_check db) (ascii "ok" ∷ []) ≡ true

  validate_database_integrity-ok :
      (fails : OpenFaults) (db : RelayDatabase)
      → validate_database_integrity engine fails db ≡ ok tt
      → IsSound db
  unfolding validate_database_integrity
  validate_database_integrity-ok fails db e = record {
    no_foreign_key_problem = ground arith;
    integral = ground arith;
  }

  -- The schema of the file is the current one, by the reference that the engine makes of it.
  pub record IsCurrent (fails : OpenFaults) (db : RelayDatabase) : Type 0 where
    pub version : db.user_version ≡ current_schema_version
    pub actual : SchemaManifest
    pub expected : SchemaManifest
    pub old : SchemaManifest
    pub reads : schema_manifest fails db.catalog ≡ ok actual
    pub refers : reference_manifest engine fails current_schema_ddl ≡ ok expected
    pub refers_old : reference_manifest engine fails legacy_schema_ddl ≡ ok old
    pub same : manifest_eq actual expected ≡ true

  -- How the file's schema compares with the references.
  abbrev pub IsOfKind : OpenFaults → RelayDatabase → SchemaKind → Type 0
  IsOfKind fails db kind =
      (expected : SchemaManifest) × (inspect engine fails db ≡ ok (kind, expected))

  -- What the migration makes of a file, by its version and the kind of its schema.
  pub data Migrated (fails : OpenFaults) (db after : RelayDatabase) : Type 0 where
    kept : IsOfKind fails db current → after ≡ db → Migrated fails db after
    created :
        IsOfKind fails db empty
        → db.user_version ≤ 1
        → after.tables ≡ empty_tables
        → Migrated fails db after
    upgraded :
        IsOfKind fails db legacy
        → db.user_version ≤ 1
        → after.tables ≡ record db.tables { messages = [] }
        → after.legacy_messages ≡ []
        → Migrated fails db after

  inspect-ok :
      (fails : OpenFaults) (db : RelayDatabase) {kind : SchemaKind} {expected : SchemaManifest}
      → inspect engine fails db ≡ ok (kind, expected)
      → (actual legacy_manifest : SchemaManifest) × (schema_manifest fails db.catalog ≡ ok actual)
        × (reference_manifest engine fails legacy_schema_ddl ≡ ok legacy_manifest)
        × (reference_manifest engine fails current_schema_ddl ≡ ok expected)
        × (kind ≡ classify_schema actual empty_manifest legacy_manifest expected)
  unfolding inspect
  inspect-ok fails db {kind} {expected} e =
      let (actual, reads, e1) = >>=-eq-ok (schema_manifest fails db.catalog) _ e in
      let (old, refers_old, e2) =
        >>=-eq-ok (reference_manifest engine fails legacy_schema_ddl) _ e1 in
      let (new, refers, e3) = >>=-eq-ok (reference_manifest engine fails current_schema_ddl) _ e2 in
      let same : new ≡ expected = ground arith in
      (actual, old, reads, refers_old, cc (refers, same), ground (arith, same))

  classify_schema-current :
      (actual e l c : SchemaManifest)
      → classify_schema actual e l c ≡ current
      → manifest_eq actual c ≡ true
  unfolding classify_schema
  classify_schema-current actual e l c h = ground arith

  validate_current_schema-ok :
      (fails : OpenFaults) (db : RelayDatabase) (expected : SchemaManifest)
      → validate_current_schema engine fails db expected ≡ ok tt
      → (actual : SchemaManifest) × (schema_manifest fails db.catalog ≡ ok actual)
        × (manifest_eq actual expected ≡ true)
        × IsSound db
  unfolding validate_current_schema
  validate_current_schema-ok fails db expected e =
      let (actual, reads, e1) = >>=-eq-ok (schema_manifest fails db.catalog) _ e in
      let (_, same, e2) = >>=-eq-ok (reject_if (not (manifest_eq actual expected)) storage) _ e1 in
      (actual, reads, ground arith, validate_database_integrity-ok fails db e2)

  create_current-ok :
      (fails : OpenFaults) (db : RelayDatabase) {after : RelayDatabase}
      → create_current engine fails db ≡ ok after
      → (after.user_version ≡ current_schema_version) × (after.tables ≡ empty_tables)
  unfolding create_current
  create_current-ok fails db e =
      elim (Option-cases (engine.execute_batch current_schema_ddl db.catalog)) [
        | inl none_made ↦ absurd (ground arith)
        | inr (catalog, made) ↦ (ground arith, ground arith)
      ]

  replace_messages-ok :
      (fails : OpenFaults) (db : RelayDatabase) {after : RelayDatabase}
      → replace_messages engine fails db ≡ ok after
      → (after.user_version ≡ current_schema_version)
        × (after.tables ≡ record db.tables { messages = [] })
        × (after.legacy_messages ≡ [])
  unfolding replace_messages
  replace_messages-ok fails db e =
      elim (Option-cases (engine.execute_batch (ascii "DROP TABLE messages;") db.catalog)) [
        | inl none_made ↦ absurd (ground arith)
        | inr (dropped, made) ↦
            elim (Option-cases (engine.execute_batch current_messages_ddl dropped)) [
              | inl none_made ↦ absurd (ground arith)
              | inr (catalog, made') ↦ (ground arith, ground arith, ground arith)
            ]
      ]

  pub migrate_kind-ok :
      (fails : OpenFaults) (db : RelayDatabase) (version : ℕ) (kind : SchemaKind)
      (expected : SchemaManifest) {after : RelayDatabase}
      → inspect engine fails db ≡ ok (kind, expected)
      → version ≡ db.user_version
      → migrate_kind engine fails db version kind expected ≡ ok after
      → Migrated fails db after
        × (after.user_version ≡ current_schema_version)
        × ((after ≡ db) × (kind ≡ current)
            ⊎ (validate_current_schema engine fails after expected ≡ ok tt))
  unfolding migrate_kind
  migrate_kind-ok fails db version current expected i v e =
      (kept (expected, i) (ground arith), ground arith, inl (ground arith, refl))
  migrate_kind-ok fails db version unknown expected i v e = absurd (ground arith)
  migrate_kind-ok fails db version empty expected {after} i v e =
      elim (Bool-cases (leb version 1)) [
        | inr newer ↦ absurd (ground arith)
        | inl old ↦
            let checks : (do
              made ← create_current engine fails db
              validate_current_schema engine fails made expected
              ok made)
                ≡ ok after =
              ground arith in
            let (made, makes, e1) = >>=-eq-ok (create_current engine fails db) _ checks in
            let (_, valid, e2) =
              >>=-eq-ok (validate_current_schema engine fails made expected) _ e1 in
            let same : made ≡ after = ground arith in
            let facts = create_current-ok fails db makes in
            (
              created (expected, i) (ground arith) (cc (facts.1, same)),
              cc (facts.0, same),
              inr (subst (λ d. validate_current_schema engine fails d expected ≡ ok tt) same valid),
            )
      ]
  migrate_kind-ok fails db version legacy expected {after} i v e =
      elim (Bool-cases (leb version 1)) [
        | inr newer ↦ absurd (ground arith)
        | inl old ↦
            let checks : (do
              made ← replace_messages engine fails db
              validate_current_schema engine fails made expected
              ok made)
                ≡ ok after =
              ground arith in
            let (made, makes, e1) = >>=-eq-ok (replace_messages engine fails db) _ checks in
            let (_, valid, e2) =
              >>=-eq-ok (validate_current_schema engine fails made expected) _ e1 in
            let same : made ≡ after = ground arith in
            let facts = replace_messages-ok fails db makes in
            (
              upgraded (expected, i) (ground arith) (cc (facts.1, same)) (cc (facts.2, same)),
              cc (facts.0, same),
              inr (subst (λ d. validate_current_schema engine fails d expected ≡ ok tt) same valid),
            )
      ]

  pub validate_schema_for_open-ok :
      (fails : OpenFaults) (db : RelayDatabase)
      → validate_schema_for_open engine fails db ≡ ok tt
      → IsSound db
  unfolding validate_schema_for_open
  validate_schema_for_open-ok fails db e =
      let (version, _, e1) = >>=-eq-ok (query fails select_version db.user_version) _ e in
      let (_, _, e2) =
        >>=-eq-ok (reject_if (not (leb version current_schema_version)) storage) _ e1 in
      let (inspected, _, e3) = >>=-eq-ok (inspect engine fails db) _ e2 in
      let (_, _, e4) =
        >>=-eq-ok (reject_if (not (is_supported version inspected.0)) storage) _ e3 in
      validate_database_integrity-ok fails db e4

  -- Which of the two ways the final schema has been checked.
  pub kind-IsCurrent :
      (fails : OpenFaults) (db after : RelayDatabase) (kind : SchemaKind)
      (expected : SchemaManifest)
      → inspect engine fails db ≡ ok (kind, expected)
      → IsSound db
      → after.user_version ≡ current_schema_version
      → (after ≡ db) × (kind ≡ current)
        ⊎ (validate_current_schema engine fails after expected ≡ ok tt)
      → IsCurrent fails after × IsSound after
  kind-IsCurrent fails db after kind expected inspected sound version (inl (same, is_current)) =
      let (actual, old, reads, refers_old, refers, classified) = inspect-ok fails db inspected in
      (
        record {
          version = version;
          actual = actual;
          expected = expected;
          reads = cc (reads, same);
          refers = refers;
          old = old;
          refers_old = refers_old;
          same =
              classify_schema-current actual empty_manifest old expected
                (sym classified ∙ is_current);
        },
        subst IsSound (sym same) sound,
      )
  kind-IsCurrent fails db after kind expected inspected sound version (inr valid) =
      let (_, old, _, refers_old, refers, _) = inspect-ok fails db inspected in
      let (actual, reads, same, sound') = validate_current_schema-ok fails after expected valid in
      (
        record {
          version = version;
          actual = actual;
          expected = expected;
          reads = reads;
          refers = refers;
          old = old;
          refers_old = refers_old;
          same = same;
        },
        sound',
      )
