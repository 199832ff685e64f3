-- ===== src/Relay/Opening/Guard.antt =====
-- What the preflight lets through to a normal open.
use secure_messenger_lab.Prelude.{
  ℕ, ◌<◌, ◌++◌, ◌≡◌, refl, true, false, some, arith, not, Bool-cases, inl, inr, ◌⊎◌, ◌==◌,
  if◌then◌else◌,
}
use secure_messenger_lab.Errors.{ok, storage, reject_if, ◌>>=◌, ◌>>◌, Result-cases, >>=-eq-ok}
use secure_messenger_lab.Bytes.{Bytes, ascii}
use secure_messenger_lab.Sqlite.{execute, or_storage}
use secure_messenger_lab.Relay.Store.{Relay, Faults}
use secure_messenger_lab.Persistence.Companion.{
  FileSystem, Io, done, failed, not_found, unexpected_eof, other_error, HasNoLog, HasLiveLog,
  resolve, reject_anomalous_wal, reject_anomalous_wal_exact, nonempty_companion,
  database_header_uses_wal, live_log,
}
use secure_messenger_lab.Relay.Manifest.{OpenFaults, open_immutable}
use secure_messenger_lab.Relay.Schema.{RelayDatabase, SchemaEngine, validate_schema_for_open}
use secure_messenger_lab.Relay.Opening.{
  SqliteFiles, has_nonempty_recovery_companion, immutable_uri, inspect_at_rest,
  preflight_existing_database, open_at,
}

module _ (engine : SchemaEngine) (fails : OpenFaults) (fs : FileSystem) (files : SqliteFiles)
    (path : Bytes) where
  -- A rollback journal that is not empty lies beside the database.
  pub record HasJournal (resolved : Bytes) : Type 0 where
    pub size : ℕ
    pub journal : fs.metadata_len (resolved ++ ascii "-journal") ≡ done size
    pub nonempty : 0 < size

  -- A file may be opened normally: it is empty, or there is a journal or a live log to recover
  -- from beside its resolved name, or it is accepted as it lies, read without recovery.
  pub data AtRest (len : ℕ) : Type 0 where
    is_empty : len ≡ 0 → AtRest len
    recovers :
        (resolved : Bytes)
        → fs.canonicalize path ≡ some resolved
        → HasJournal resolved ⊎ HasLiveLog fs resolved
        → AtRest len
    accepted :
        (uri : Bytes) (image : RelayDatabase)
        → has_nonempty_recovery_companion fs path ≡ ok false
        → immutable_uri fs path ≡ ok uri
        → files.open_uri uri ≡ some image
        → validate_schema_for_open engine fails image ≡ ok tt
        → AtRest len

  pub data Cleared : Type 0 where
    is_absent : fs.metadata_len path ≡ failed not_found → Cleared
    is_present :
        (len : ℕ)
        → fs.metadata_len path ≡ done len
        → fs.is_file path ≡ true
        → HasNoLog fs (resolve fs path) ⊎ HasLiveLog fs (resolve fs path)
        → AtRest len
        → Cleared

  nonempty_journal :
      (resolved : Bytes)
      → nonempty_companion fs resolved (ascii "-journal") ≡ ok true
      → HasJournal resolved
  unfolding nonempty_companion
  nonempty_journal resolved e = go (fs.metadata_len (resolved ++ ascii "-journal")) refl
    where
      go :
          (answer : Io ℕ)
          → fs.metadata_len (resolved ++ ascii "-journal") ≡ answer
          → HasJournal resolved
      go (done size) p = record { size = size; journal = p; nonempty = ground (arith, p, e) }
      go (failed not_found) p = absurd (ground (arith, p, e))
      go (failed unexpected_eof) p = absurd (ground (arith, p, e))
      go (failed other_error) p = absurd (ground (arith, p, e))

  recovery_companion-true :
      has_nonempty_recovery_companion fs path ≡ ok true
      → (resolved : Bytes) × (fs.canonicalize path ≡ some resolved)
        × (HasJournal resolved ⊎ HasLiveLog fs resolved)
  unfolding has_nonempty_recovery_companion
  recovery_companion-true e =
      let (resolved, named, e1) = >>=-eq-ok (or_storage (fs.canonicalize path)) _ e in
      let (journal, asked, e2) =
        >>=-eq-ok (nonempty_companion fs resolved (ascii "-journal")) _ e1 in
      (
        resolved,
        ground arith,
        elim (Bool-cases journal) [
          | inl there ↦ inl (nonempty_journal resolved (cc (asked, there)))
          | inr gone ↦
              let checks : (do
                log ← nonempty_companion fs resolved (ascii "-wal")
                elim log [ true ↦ database_header_uses_wal fs resolved | false ↦ ok false ])
                  ≡ ok true =
                ground arith in
              let (log, looked, e3) =
                >>=-eq-ok (nonempty_companion fs resolved (ascii "-wal")) _ checks in
              elim (Bool-cases log) [
                | inl planted ↦
                    inr (live_log fs resolved (cc (looked, planted)) (ground (arith, planted)))
                | inr without ↦ absurd (ground (arith, without))
              ]
        ],
      )

  inspect_at_rest-ok : (len : ℕ) → inspect_at_rest engine fails fs files path ≡ ok tt → AtRest len
  unfolding inspect_at_rest
  inspect_at_rest-ok len e = elim (Result-cases (has_nonempty_recovery_companion fs path)) [
    | inr (x, refused) ↦ absurd (ground arith)
    | inl (companion, decided) ↦ elim (Bool-cases companion) [
      | inl there ↦
          let (resolved, named, found) = recovery_companion-true (cc (decided, there)) in
          recovers resolved named found
      | inr gone ↦
          let checks : (do
            uri ← immutable_uri fs path
            execute fails open_immutable
            image ← or_storage (files.open_uri uri)
            validate_schema_for_open engine fails image)
              ≡ ok tt =
            ground arith in
          let (uri, named, e1) = >>=-eq-ok (immutable_uri fs path) _ checks in
          let (_, _, e2) = >>=-eq-ok (execute fails open_immutable) _ e1 in
          let (image, found, e3) = >>=-eq-ok (or_storage (files.open_uri uri)) _ e2 in
          accepted uri image (cc (decided, gone)) named (ground arith) e3
    ]
  ]

  preflight-ok : preflight_existing_database engine fails fs files path ≡ ok tt → Cleared
  unfolding preflight_existing_database
  preflight-ok e = by_answer (fs.metadata_len path) refl
    where
      by_answer : (answer : Io ℕ) → fs.metadata_len path ≡ answer → Cleared
      by_answer (failed not_found) p = is_absent p
      by_answer (failed unexpected_eof) p = absurd (ground arith)
      by_answer (failed other_error) p = absurd (ground arith)
      by_answer (done len) p =
          let checks : (do
            reject_if (not (fs.is_file path)) storage
            reject_anomalous_wal fs path
            if len == 0 then ok tt else inspect_at_rest engine fails fs files path)
              ≡ ok tt =
            ground arith in
          let (_, regular, e1) = >>=-eq-ok (reject_if (not (fs.is_file path)) storage) _ checks in
          let (_, in_order, e2) = >>=-eq-ok (reject_anomalous_wal fs path) _ e1 in
          is_present len p (ground arith) ((reject_anomalous_wal_exact fs path).0 in_order)
            (elim (Bool-cases (len == 0)) [
              | inl zero_length ↦ is_empty (ground arith)
              | inr longer ↦ inspect_at_rest-ok len (ground arith)
            ])

-- A relay is opened only at a path where nothing is, or at a regular file beside which there is no
-- write-ahead log, an empty one, or one that the file's own header calls for; and unless that file
-- is empty, or beside its resolved name lies a journal that is not empty or a log that is not empty
-- and that the header calls for, its image at rest was read and its schema accepted before it was
-- opened for writing.
pub open_at-Cleared :
    (engine : SchemaEngine) (before fails : OpenFaults) (sweeping : Faults) (fs : FileSystem)
    (files : SqliteFiles) (path : Bytes) (now : ℕ) (r : Relay) (after : RelayDatabase)
    → open_at engine before fails sweeping fs files path now ≡ ok (r, after)
    → Cleared engine before fs files path
unfolding open_at
open_at-Cleared engine before fails sweeping fs files path now r after e =
    let (_, cleared, _) = >>=-eq-ok (preflight_existing_database engine before fs files path) _ e in
    preflight-ok engine before fs files path cleared
