-- ===== src/Relay/Opening/Reopening.antt =====
-- A file that the relay has opened once can be opened again, and the relay's invariants hold from
-- the opening on.
use secure_messenger_lab.Prelude.{
  ℕ, ◌≡◌, ◌≤◌, sym, subst, false, List, [], arith, Option-cases, inl, inr,
}
use secure_messenger_lab.Errors.{ok}
use secure_messenger_lab.Bytes.{Bytes, i64_max}
use secure_messenger_lab.Crypto.{Crypto}
use secure_messenger_lab.Relay.Store.{Relay, Tables, Faults, to_i64}
use secure_messenger_lab.Relay.Checks.{purge_expired_in}
use secure_messenger_lab.Relay.Success.{purged}
use secure_messenger_lab.Relay.Retry.{healthy}
use secure_messenger_lab.Relay.Run.{Event, run}
use secure_messenger_lab.Relay.Authentic.{IsAuthentic, purged-IsAuthentic, run-IsAuthentic}
use secure_messenger_lab.Relay.Ddl.{current_schema_ddl, legacy_schema_ddl}
use secure_messenger_lab.Relay.Manifest.{SchemaManifest, OpenFaults, manifest_eq, empty_manifest}
use secure_messenger_lab.Relay.Manifest.Laws.{
  no_open_faults, manifest_eq-true, schema_manifest-healthy,
}
use secure_messenger_lab.Relay.Schema.{
  RelayDatabase, SchemaEngine, current, current_schema_version, classify_schema,
  validate_database_integrity, inspect, validate_schema_for_open, migrate_kind, migrate_schema,
  reference_manifest,
}
use secure_messenger_lab.Relay.Opening.{initialize_in, initialize}
use secure_messenger_lab.Relay.Opening.Migration.{
  IsCurrent, IsSound, Migrated, kept, created, upgraded,
}
use secure_messenger_lab.Relay.Opening.Outcome.{initialize-Opened}

module _ (engine : SchemaEngine) where
  -- The engine tells the current schema from the legacy one and from none at all.
  pub record DistinctSchemas : Type 0 where
    pub not_legacy :
        (m l : SchemaManifest)
        → reference_manifest engine no_open_faults current_schema_ddl ≡ ok m
        → reference_manifest engine no_open_faults legacy_schema_ddl ≡ ok l
        → manifest_eq m l ≡ false
    pub not_empty :
        (m : SchemaManifest)
        → reference_manifest engine no_open_faults current_schema_ddl ≡ ok m
        → manifest_eq m empty_manifest ≡ false

  reference_manifest-healthy :
      (fails : OpenFaults) (ddl : Bytes) {m : SchemaManifest}
      → reference_manifest engine fails ddl ≡ ok m
      → reference_manifest engine no_open_faults ddl ≡ ok m
  unfolding reference_manifest
  reference_manifest-healthy fails ddl {m} e =
      elim (Option-cases (engine.execute_batch ddl engine.blank)) [
        | inl none_made ↦ absurd (ground arith)
        | inr (catalog, made) ↦ ground (arith, schema_manifest-healthy fails catalog {m = m})
      ]

  inspect-current :
      DistinctSchemas
      → (fails : OpenFaults) (db : RelayDatabase) (h : IsCurrent engine fails db)
      → inspect engine no_open_faults db ≡ ok (current, h.expected)
  unfolding inspect classify_schema
  inspect-current distinct fails db h =
      let reads = schema_manifest-healthy fails db.catalog h.reads in
      let refers = reference_manifest-healthy fails current_schema_ddl h.refers in
      let refers_old = reference_manifest-healthy fails legacy_schema_ddl h.refers_old in
      let same = manifest_eq-true h.actual h.expected h.same in
      let not_old = distinct.not_legacy h.expected h.old refers refers_old in
      let not_empty = distinct.not_empty h.expected refers in
      ground (arith, reads, refers, refers_old, same, not_old, not_empty, h.same)

  initialize-current :
      (db : RelayDatabase) (expected : SchemaManifest) (later : ℕ)
      → db.user_version ≡ current_schema_version
      → IsSound engine db
      → inspect engine no_open_faults db ≡ ok (current, expected)
      → later ≤ i64_max
      → initialize engine no_open_faults no_open_faults healthy db later
        ≡ ok (
          record { tables = purged later db.tables; audit_events = [] },
          record db { tables = purged later db.tables },
        )
  unfolding initialize initialize_in migrate_schema validate_schema_for_open
      validate_database_integrity migrate_kind purge_expired_in to_i64
  initialize-current db expected later version sound inspected small =
      ground (arith, version, sound.no_foreign_key_problem, sound.integral, inspected, small)

  -- Whatever rows stand since in a file that the relay opened successfully, and whatever faults that
  -- opening met, a later opening without faults succeeds if SQLite's foreign key and integrity
  -- checks pass for these rows: it changes nothing in the schema and its version, and of the rows
  -- it sweeps those that have expired. The engine tells the current schema from the legacy one and
  -- from none, and the later time fits in an i64.
  pub initialize_again :
      DistinctSchemas
      → (before fails : OpenFaults) (sweeping : Faults) (db after : RelayDatabase) (now later : ℕ)
        (r : Relay) (rows : Tables)
      → initialize engine before fails sweeping db now ≡ ok (r, after)
      → IsSound engine (record after { tables = rows })
      → later ≤ i64_max
      → initialize engine no_open_faults no_open_faults healthy
          (record after { tables = rows })
          later
        ≡ ok (
          record { tables = purged later rows; audit_events = [] },
          record after { tables = purged later rows },
        )
  initialize_again distinct before fails sweeping db after now later r rows e sound small =
      let opened = initialize-Opened engine before fails sweeping db after now r e in
      let current_schema : IsCurrent engine fails (record after { tables = rows }) =
        subst (λ a. IsCurrent engine fails (record a { tables = rows })) (sym opened.file)
          (same_schema opened.migrated opened.now_current) in
      initialize-current (record after { tables = rows }) current_schema.expected later
        current_schema.version sound (inspect-current distinct fails _ current_schema) small
    where
      same_schema :
          (d : RelayDatabase)
          → IsCurrent engine fails d
          → IsCurrent engine fails (record d { tables = rows })
      same_schema d h = record {
        version = h.version;
        actual = h.actual;
        expected = h.expected;
        old = h.old;
        reads = h.reads;
        refers = h.refers;
        refers_old = h.refers_old;
        same = h.same;
      }

  Migrated-IsAuthentic :
      (c : Crypto) (fails : OpenFaults) (db migrated : RelayDatabase)
      → (db.user_version ≡ current_schema_version → IsAuthentic c db.tables)
      → migrated.user_version ≡ current_schema_version
      → Migrated engine fails db migrated
      → IsAuthentic c migrated.tables
  Migrated-IsAuthentic c fails db migrated authentic version (kept _ same) =
      subst (λ d. IsAuthentic c d.tables) (sym same) (authentic (cc (version, same)))
  Migrated-IsAuthentic c fails db migrated authentic version (created _ _ none_yet) =
      subst (IsAuthentic c) (sym none_yet) tt
  Migrated-IsAuthentic c fails db migrated authentic version (upgraded _ _ no_messages _) =
      subst (IsAuthentic c) (sym no_messages) tt

  -- If the rows of a file of schema version 2 are authentic, the relay is authentic after a
  -- successful opening and every history of calls that follows; the rows of a file of an older
  -- version need no such condition.
  pub opened_run-IsAuthentic :
      (c : Crypto) (before fails : OpenFaults) (sweeping : Faults) (db after : RelayDatabase)
      (now : ℕ) (r : Relay) (es : List Event)
      → (db.user_version ≡ current_schema_version → IsAuthentic c db.tables)
      → initialize engine before fails sweeping db now ≡ ok (r, after)
      → IsAuthentic c (run c r es).tables
  opened_run-IsAuthentic c before fails sweeping db after now r es authentic e =
      let opened = initialize-Opened engine before fails sweeping db after now r e in
      run-IsAuthentic c r es (
        subst (λ s. IsAuthentic c s.tables) (sym opened.relay)
          (purged-IsAuthentic c now opened.migrated.tables (
            Migrated-IsAuthentic c fails db opened.migrated authentic opened.now_current.version
              opened.change)))
