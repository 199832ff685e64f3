-- ===== src/Tests/Histories.antt =====
-- Two handles on one client-state file.
use secure_messenger_lab.Prelude.{◌≡◌, refl, true, false, [], ◌∷◌, List, All}
use secure_messenger_lab.Errors.{ok}
use secure_messenger_lab.Bytes.{ascii}
use secure_messenger_lab.Persistence.Catalog.{StateFaults, commit_reply}
use secure_messenger_lab.Persistence.StateStore.{ClientStateStore, open_store, open_connection}
use secure_messenger_lab.Persistence.Reopen.{no_state_faults}
use secure_messenger_lab.Persistence.History.{
  Attempt, Version, Swaps, run_commits, IsGenuine, Holds,
}
use secure_messenger_lab.Persistence.History.Refines.{reopened_after_commits}
use secure_messenger_lab.Tests.Fixtures.{toy}
use secure_messenger_lab.Tests.States.{
  toy_aead, toy_aead-AeadLaws, platform, no_files, path, iv, stores, first, second, stored,
}

-- The reply of a commit that is written is lost.
abbrev loses_reply : StateFaults
loses_reply = λ s. elim s [ commit_reply ↦ true | _ ↦ false ]

-- The first handle commits, a copy of it is too late, and the second handle's reply is lost.
abbrev attempts : List Attempt
attempts =
    record { handle = first; fails = no_state_faults; nonce = iv 2; state = ascii "two" }
    ∷ record { handle = first; fails = no_state_faults; nonce = iv 3; state = ascii "three" }
    ∷ record { handle = second; fails = loses_reply; nonce = iv 4; state = ascii "four" }
    ∷ []

abbrev first_version : Version
first_version = record { generation = 1; state = ascii "one" }

first_version-Holds : Holds toy toy_aead platform stored first_version
unfolding stores
first_version-Holds = record {
  store = first;
  synced = record {
    protector = refl;
    usable = refl;
    rows = refl;
    checked = refl;
    sealed = refl;
    sized = refl;
    nonce = refl;
    profile = refl;
    key_ref = refl;
    expected = refl;
    unwraps = refl;
  };
  generation = refl;
  state = refl;
}

reachable : open_connection no_state_faults no_files path ≡ ok tt
unfolding stores
reachable = refl

genuine : All (IsGenuine toy toy_aead platform) attempts
unfolding stores
genuine = (
  record { unwraps = refl; size = refl },
  (record { unwraps = refl; size = refl }, (record { unwraps = refl; size = refl }, tt)),
)

reopened_after_commits_example :
    (last : Version) × (store : ClientStateStore) × Swaps
      (run_commits toy toy_aead platform attempts stored).0
      first_version
      last
    × (open_store toy toy_aead no_files no_state_faults platform path
          (run_commits toy toy_aead platform attempts stored).1
        ≡ ok store)
    × (store.generation ≡ last.generation)
    × (store.state ≡ last.state)
reopened_after_commits_example =
    reopened_after_commits toy toy_aead platform no_files toy_aead-AeadLaws path attempts stored
      first_version reachable genuine first_version-Holds
