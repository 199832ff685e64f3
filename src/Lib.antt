-- ===== src/Lib.antt =====
-- A verification library for secure-messenger-lab, an end-to-end encrypted store-and-forward
-- messenger in Rust.
--
-- The program. A recipient registers a mailbox at a relay with three keys (send, receive, manage)
-- and gives its peer the send capability. The sender's client seals a text into an Olm packet,
-- signs a send request and the relay queues it in SQLite. The recipient fetches its queue, checks
-- each envelope's signature, opens the packet with its client and acknowledges it; the relay then
-- deletes it and keeps a tombstone for seven days. A deleted queue is retired for good. The client
-- keeps its state in a second SQLite file, encrypted, one row, replaced by compare-and-swap.
--
-- Files and code (paths from the repository's root):
--   Errors, Bytes, Encoding      src/error.rs, src/ids.rs, `canonical` and both `append_part`
--   Crypto                       Ed25519 of vodozemac and SHA-256 of sha2, as a parameter
--   Packets, Capability          src/capability.rs: requests, signing bytes, capabilities
--     Capability.Signing         the signed bytes determine the command
--     Capability.Envelopes       `verify_envelope`
--   Table                        SELECT, DELETE and EXISTS over the rows of a table
--   Relay.Store, Relay.Sql       src/relay.rs: the tables, transactions, the SQL statements
--   Relay.Checks                 request times, `mailbox_key`, `purge_expired_in`, `record_nonce`
--   Relay.Register .. Remove     the handlers `register`, `enqueue`, `fetch`, `acknowledge`,
--                                `delete_mailbox`, `purge_expired`
--   Relay.Success, Relay.Effects what each handler has done when it returns `Ok`
--   Relay.Run                    calls, histories of calls, induction over them
--   Relay.Authentic .. Removal   the relay's properties
--   Relay.Progress, .Exchange    what the relay answers when no statement fails; a whole exchange
--   Relay.Replay, .Tombstones    what stays spent and what stays gone, across histories
--   Relay.Spec                   what the relay promises about one queue, as a step relation, that
--                                the handlers refine it, and the order of a queue
--   Relay.Ddl, .Manifest         the schema texts, and how the relay reads and compares schemas
--   Relay.Schema                 schema checks and `migrate_schema`
--   Relay.Opening                `Relay::open`, the preflight, the immutable URI, `initialize`
--     Relay.Opening.Outcome      what an opening has done, with Uri, Guard and Reopening
--   Demo                         `run_demo` of src/main.rs, and that it passes
--     Demo.Transcript            what it relies on from vodozemac and serde on its own run
--   Sqlite                       what both stores share of SQLite's schema pragmas
--   Client.PreKeys, Client.State src/client.rs over the parameter Client.Olm (vodozemac, serde)
--   Client.Bundles .. History     the client's properties
--   Persistence.Envelope         src/persistence/envelope.rs over the parameter Aead
--   Persistence.Companion        src/companion.rs over the parameter FileSystem
--   Persistence.Catalog, .Rows   src/persistence/sqlite.rs: schema checks, the row, its SQL
--   Persistence.StateStore       src/persistence/sqlite.rs: create, open, commit, poisoning
--   Persistence.History          histories of commits, against an atomic register
--   Tests                        runs at concrete inputs, and each theorem applied at one
--
-- How code and model correspond. A table is the list of its rows in rowid order; constraints,
-- cascades and conflict clauses are written out in the statements. A transaction works on a copy
-- of the tables, which an error drops. Each statement may fail: `Faults` and `StateFaults` say
-- which of a call's statements do, and the theorems hold for all of them unless they say
-- otherwise. A commit may also be written while its reply is lost. What the
-- code draws at random (nonces, identifiers, keys) and the clock are arguments. Keys, signatures
-- and digests are their encodings as bytes; a byte is a number below 256 and a u64 a number
-- whose overflow checks are written out. INTEGER columns hold numbers that are never negative,
-- as the code writes them. A second column that holds one of a few texts is a data type.
--
-- Recursion is structural on lists of rows, parts and columns, so no fuel is used.
--
-- The relay's opening. SQLite is the parameter SchemaEngine, which says what a script makes of a
-- schema and what PRAGMA integrity_check and foreign_key_check answer for a file's contents;
-- SqliteFiles says which image a URI or a path opens; FileSystem is what the operating system
-- answers. The integers of the schema pragmas stand in unsigned form, as the code compares them
-- for equality. Nothing is said of the file that a failed opening leaves.
--
-- The client's ratchet. A method of vodozemac that takes `&mut self` returns the object that it
-- leaves, and the model assigns what the code assigns: `open` and `open_initial` decrypt with an
-- object that they restore from a pickle, and assign it when every check has passed. That a
-- rejected envelope leaves the session as it was is how these definitions are written, and not a
-- result.
--
-- Not modelled: Debug output, zeroizing of memory, what `main` prints, and what SQLite
-- itself does when it recovers a journal or a log.
mod Prelude
pub mod Errors
pub mod Bytes
pub mod Encoding
pub mod Crypto
pub mod Packets
pub mod Capability
pub mod Relay
pub mod Client
pub mod Persistence
pub mod Demo
mod Tests
pub mod Table
pub mod Sqlite
