-- ===== src/Persistence/History/Refines.antt =====
-- The client-state file refines an atomic register.
use secure_messenger_lab.Prelude.{
  ◌≡◌, refl, sym, subst, true, false, inl, inr, ◌⊎◌, List, [], ◌∷◌, All,
}
use secure_messenger_lab.Errors.{LabError, Result, ok, err, storage}
use secure_messenger_lab.Bytes.{Bytes}
use secure_messenger_lab.Crypto.{Crypto}
use secure_messenger_lab.Persistence.Companion.{FileSystem}
use secure_messenger_lab.Persistence.Envelope.{Aead, AeadLaws}
use secure_messenger_lab.Persistence.Catalog.{commit_reply}
use secure_messenger_lab.Persistence.Rows.{StateDatabase}
use secure_messenger_lab.Persistence.StateStore.{
  ClientStateStore, StateKeyProtector, open_connection, open_store, commit_in, commit_state,
}
use secure_messenger_lab.Persistence.Commit.{
  Prepared, Committed, refused, rolled_back, written, commit_state-Committed,
}
use secure_messenger_lab.Persistence.Reopen.{no_state_faults, open_store-IsSynced}
use secure_messenger_lab.Persistence.History.{
  Attempt, Version, Swaps, over, keeps, swaps, run_commits, IsGenuine, Holds, Refined,
}
use secure_messenger_lab.Persistence.History.Step.{written-Holds}

module _ (c : Crypto) (a : Aead) (p : StateKeyProtector) where
  -- One commit before a history that is refined.
  module _ (e : Attempt) (es : List Attempt) (db : StateDatabase) (v : Version)
      (genuine : IsGenuine c a p e) (h : Holds c a p db v)
      (rest : (after : StateDatabase) (v' : Version)
        → Holds c a p after v'
        → Refined c a p (run_commits c a p es after).0 v' (run_commits c a p es after).1) where
    unchanged :
        (x : LabError) (after : StateDatabase)
        → after ≡ db
        → Refined c a p
            ((e, err x) ∷ (run_commits c a p es after).0)
            v
            (run_commits c a p es after).1
    unchanged x after same =
        let later = rest after v (subst (λ d. Holds c a p d v) (sym same) h) in
        record { last = later.last; swapped = keeps later.swapped; held = later.held }

    changed :
        (answer : Result (Unit {0})) (next : ClientStateStore) (after : StateDatabase)
        → (answer ≡ ok tt) ⊎ (e.fails commit_reply ≡ true)
        → e.handle.poisoned ≡ false
        → Prepared c a e.handle e.nonce e.state next
        → commit_in e.fails e.handle next db ≡ ok after
        → Refined c a p
            ((e, answer) ∷ (run_commits c a p es after).0)
            v
            (run_commits c a p es after).1
    changed answer next after answered usable prepared updated =
        let (current, now_held) =
          written-Holds c a p e db after v next genuine h usable prepared updated in
        let later = rest after _ now_held in
        record {
          last = later.last;
          swapped = swaps current answered later.swapped;
          held = later.held;
        }

    pub first :
        (done : Result (Unit {0}) × ClientStateStore × StateDatabase)
        → Committed c a e.fails e.handle db e.nonce e.state done
        → Refined c a p
            ((e, done.0) ∷ (run_commits c a p es done.2).0)
            v
            (run_commits c a p es done.2).1
    first done (refused _ q) =
        subst
          (λ done.
            Refined c a p ((e, done.0) ∷ (run_commits c a p es done.2).0) v
              (run_commits c a p es done.2).1)
          (sym q) (unchanged storage db refl)
    first done (rolled_back x q) =
        subst
          (λ done.
            Refined c a p ((e, done.0) ∷ (run_commits c a p es done.2).0) v
              (run_commits c a p es done.2).1)
          (sym q) (unchanged x db refl)
    first done (written next after usable prepared updated (inl q)) =
        subst
          (λ done.
            Refined c a p ((e, done.0) ∷ (run_commits c a p es done.2).0) v
              (run_commits c a p es done.2).1)
          (sym q) (changed (ok tt) next after (inl refl) usable prepared updated)
    first done (written next after usable prepared updated (inr (lost, q))) =
        subst
          (λ done.
            Refined c a p ((e, done.0) ∷ (run_commits c a p es done.2).0) v
              (run_commits c a p es done.2).1)
          (sym q) (changed (err storage) next after (inr lost) usable prepared updated)

  pub run_commits-Refined :
      (es : List Attempt) (db : StateDatabase) (v : Version)
      → All (IsGenuine c a p) es
      → Holds c a p db v
      → Refined c a p (run_commits c a p es db).0 v (run_commits c a p es db).1
  unfolding run_commits
  run_commits-Refined [] db v genuine h = record { last = v; swapped = over; held = h }
  run_commits-Refined (e ∷ es) db v genuine h =
      first e es db v genuine.0 h (λ after v' h'. run_commits-Refined es after v' genuine.1 h')
        (commit_state c a e.fails e.handle db e.nonce e.state)
        (commit_state-Committed c a e.fails e.handle db e.nonce e.state)

  -- The file refines an atomic register. Whatever handles commit to a file that holds a version, in
  -- whatever order and with whatever statements failing, the register goes from that version to a
  -- last one by the same attempts with the same answers: an attempt answered with an error changes
  -- nothing unless its reply was lost, and any other attempt held the register's generation and
  -- puts its own state there at the next one. Opening the file afterwards gives the last version.
  -- The conditions are handles whose wrapped keys unwrap to their keys, nonces of their size, the
  -- cipher's laws, a path whose companion is in order, and an opening that meets no failing
  -- statement.
  pub reopened_after_commits :
      (fs : FileSystem) (laws : AeadLaws a) (path : Bytes) (es : List Attempt) (db : StateDatabase)
      (v : Version)
      → open_connection no_state_faults fs path ≡ ok tt
      → All (IsGenuine c a p) es
      → Holds c a p db v
      → (last : Version) × (store : ClientStateStore) × Swaps (run_commits c a p es db).0 v last
        × (open_store c a fs no_state_faults p path (run_commits c a p es db).1 ≡ ok store)
        × (store.generation ≡ last.generation)
        × (store.state ≡ last.state)
  reopened_after_commits fs laws path es db v reachable genuine h =
      let done = run_commits-Refined es db v genuine h in
      (
        done.last,
        done.held.store,
        done.swapped,
        open_store-IsSynced c a fs laws p path done.held.store (run_commits c a p es db).1 reachable
            done.held.synced,
        done.held.generation,
        done.held.state,
      )
