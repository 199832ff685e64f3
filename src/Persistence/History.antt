-- ===== src/Persistence/History.antt =====
-- Histories of commits to one client-state file, through any handles: the file is an atomic
-- register that a compare-and-swap of the generation guards.
pub mod Step
pub mod Refines
use secure_messenger_lab.Prelude.{
  ℕ, ◌+◌, ◌≡◌, refl, sym, subst, ap, ◌∙◌, true, false, Bool, inl, inr, ◌⊎◌, List, [], ◌∷◌, arith,
  Bool-cases, All, length,
}
use secure_messenger_lab.Errors.{LabError, Result, ok, err, storage}
use secure_messenger_lab.Bytes.{Bytes}
use secure_messenger_lab.Bytes.Laws.{bytes_eq_iff}
use secure_messenger_lab.Crypto.{Crypto}
use secure_messenger_lab.Persistence.Companion.{FileSystem}
use secure_messenger_lab.Persistence.Envelope.{Aead, AeadLaws, nonce_bytes, ProfileBinding}
use secure_messenger_lab.Persistence.Catalog.{StateFaults, commit_reply, validate_schema}
use secure_messenger_lab.Persistence.Rows.{StateRow, StateDatabase, same_row, update_rows}
use secure_messenger_lab.Persistence.StateStore.{
  ClientStateStore, StateKeyProtector, row_of, open_connection, open_store, commit_in, commit_state,
}
use secure_messenger_lab.Persistence.Commit.{
  Prepared, Committed, refused, rolled_back, written, commit_state-Committed, commit_in-ok,
}
use secure_messenger_lab.Persistence.Stale.{update_rows-current, row_of-next}
use secure_messenger_lab.Persistence.Reopen.{
  IsSynced, no_state_faults, validate_schema-healthy, open_store-IsSynced,
}

-- One call of `commit`: its handle, the nonce that it draws, the new state, and its faults.
pub record Attempt : Type 0 where
  pub handle : ClientStateStore
  pub fails : StateFaults
  pub nonce : Bytes
  pub state : Bytes

-- What the register holds.
pub record Version : Type 0 where
  pub generation : ℕ
  pub state : Bytes

-- The register: an attempt that is answered with an error changes nothing, unless its reply was
-- lost; any other swaps the state, if its handle held the register's generation.
pub data Swaps : List (Attempt × Result (Unit {0})) → Version → Version → Type 0 where
  over : {v : Version} → Swaps [] v v
  keeps :
      {e : Attempt} {x : LabError} {es : List (Attempt × Result (Unit {0}))} {v v' : Version}
      → Swaps es v v'
      → Swaps ((e, err x) ∷ es) v v'
  swaps :
      {e : Attempt} {answer : Result (Unit {0})} {es : List (Attempt × Result (Unit {0}))}
      {v v' : Version}
      → e.handle.generation ≡ v.generation
      → (answer ≡ ok tt) ⊎ (e.fails commit_reply ≡ true)
      → Swaps es (record { generation = v.generation + 1; state = e.state }) v'
      → Swaps ((e, answer) ∷ es) v v'

module _ (c : Crypto) (a : Aead) (p : StateKeyProtector) where
  -- The calls one after the other, each with its answer, and the file in the end.
  unfoldable pub run_commits :
      List Attempt → StateDatabase → List (Attempt × Result (Unit {0})) × StateDatabase
  run_commits [] db = ([], db)
  run_commits (e ∷ es) db =
      let done = commit_state c a e.fails e.handle db e.nonce e.state in
      let rest = run_commits es done.2 in ((e, done.0) ∷ rest.0, rest.1)

  -- A handle of this platform's keys, and a nonce of its size.
  pub record IsGenuine (e : Attempt) : Type 0 where
    pub unwraps : p.unwrap_dek e.handle.wrapped_dek ≡ ok e.handle.dek
    pub size : length e.nonce ≡ nonce_bytes

  -- The file holds a version.
  pub record Holds (db : StateDatabase) (v : Version) : Type 0 where
    pub store : ClientStateStore
    pub synced : IsSynced c a p store db
    pub generation : store.generation ≡ v.generation
    pub state : store.state ≡ v.state

  -- What is left of a history in the register's terms.
  pub record Refined (answers : List (Attempt × Result (Unit {0}))) (v : Version)
      (db : StateDatabase) : Type 0 where
    pub last : Version
    pub swapped : Swaps answers v last
    pub held : Holds db last
