-- ===== src/Relay/Opening/Outcome.antt =====
-- What `initialize` has done when it succeeds: a relay of the current schema.
use secure_messenger_lab.Prelude.{ℕ, ◌≡◌, ◌≤◌, [], arith, inl, inr}
use secure_messenger_lab.Errors.{ok, Result-cases, >>=-eq-ok}
use secure_messenger_lab.Bytes.{i64_max}
use secure_messenger_lab.Sqlite.{query, execute}
use secure_messenger_lab.Relay.Store.{Relay, Faults}
use secure_messenger_lab.Relay.Checks.{purge_expired_in}
use secure_messenger_lab.Relay.Success.{purged, purge_expired_in-ok}
use secure_messenger_lab.Relay.Manifest.{
  OpenFaults, set_timeout, set_pragmas, begin, commit, select_version,
}
use secure_messenger_lab.Relay.Schema.{
  RelayDatabase, SchemaEngine, inspect, validate_schema_for_open, migrate_schema,
}
use secure_messenger_lab.Relay.Opening.{initialize_in, initialize}
use secure_messenger_lab.Relay.Opening.Migration.{
  IsCurrent, IsSound, Migrated, kind-IsCurrent, migrate_kind-ok, validate_schema_for_open-ok,
}

module _ (engine : SchemaEngine) where
  migrate_schema-ok :
      (fails : OpenFaults) (db : RelayDatabase) {after : RelayDatabase}
      → migrate_schema engine fails db ≡ ok after
      → Migrated engine fails db after × IsCurrent engine fails after × IsSound engine after
  unfolding migrate_schema validate_schema_for_open
  migrate_schema-ok fails db {after} e =
      let (_, valid, e1) = >>=-eq-ok (validate_schema_for_open engine fails db) _ e in
      let (version, selected, e2) = >>=-eq-ok (query fails select_version db.user_version) _ e1 in
      let ((kind, expected), inspected, migrated) = >>=-eq-ok (inspect engine fails db) _ e2 in
      let sound = validate_schema_for_open-ok engine fails db valid in
      let (change, now_current, checked) =
        migrate_kind-ok engine fails db version kind expected inspected (ground arith) migrated in
      let facts =
        kind-IsCurrent engine fails db after kind expected inspected sound now_current checked in
      (change, facts.0, facts.1)

  -- What a successful opening has made of the file.
  pub record Opened (fails : OpenFaults) (db after : RelayDatabase) (now : ℕ) (r : Relay)
      : Type 0 where
    pub migrated : RelayDatabase
    pub change : Migrated engine fails db migrated
    pub now_current : IsCurrent engine fails migrated
    pub sound : IsSound engine migrated
    pub file : after ≡ record migrated { tables = purged now migrated.tables }
    pub relay : r ≡ record { tables = purged now migrated.tables; audit_events = [] }
    pub time : now ≤ i64_max

  pub initialize-Opened :
      (before fails : OpenFaults) (sweeping : Faults) (db after : RelayDatabase) (now : ℕ)
      (r : Relay)
      → initialize engine before fails sweeping db now ≡ ok (r, after)
      → Opened fails db after now r
  unfolding initialize initialize_in
  initialize-Opened before fails sweeping db after now r e =
      elim (Result-cases (initialize_in engine before fails sweeping db now)) [
        | inr (x, refused) ↦ absurd (ground arith)
        | inl (file, done) ↦
            let (_, _, e1) = >>=-eq-ok (execute before set_timeout) _ done in
            let (_, _, e2) = >>=-eq-ok (validate_schema_for_open engine before db) _ e1 in
            let (_, _, e3) = >>=-eq-ok (execute before set_pragmas) _ e2 in
            let (_, _, e4) = >>=-eq-ok (execute fails begin) _ e3 in
            let (migrated, migrates, e5) = >>=-eq-ok (migrate_schema engine fails db) _ e4 in
            let ((n, tables), sweeps, e6) =
              >>=-eq-ok (purge_expired_in sweeping now migrated.tables) _ e5 in
            let (swept, _, small) = purge_expired_in-ok sweeping now migrated.tables sweeps in
            let (change, now_current, sound) = migrate_schema-ok fails db migrates in
            let (_, _, e7) = >>=-eq-ok (execute fails commit) _ e6 in
            let result : after ≡ record migrated { tables = tables } = ground arith in
            record {
              migrated = migrated;
              change = change;
              now_current = now_current;
              sound = sound;
              file = ground (arith, result, swept);
              relay = ground (arith, result, swept);
              time = small;
            }
      ]
