-- ===== src/Tests/Snapshots.antt =====
-- The theorems on the client-state store at the concrete files of Tests/States.
use secure_messenger_lab.Prelude.{◌≡◌, refl, true, [], arith, ◌⊎◌, ◌↔◌}
use secure_messenger_lab.Errors.{LabError, ok, err, storage}
use secure_messenger_lab.Bytes.{Bytes, ascii}
use secure_messenger_lab.Persistence.Companion.{
  resolve, reject_anomalous_wal, HasNoLog, HasLiveLog, reject_anomalous_wal_exact,
}
use secure_messenger_lab.Persistence.Envelope.{aad, open_state}
use secure_messenger_lab.Persistence.Header.{aad_injective, open_state-seal_state}
use secure_messenger_lab.Persistence.Catalog.{StateFaults}
use secure_messenger_lab.Persistence.Rows.{StateDatabase}
use secure_messenger_lab.Persistence.StateStore.{
  ClientStateStore, open_store, commit_state, read_state, read_generation, read_binding,
  read_protection_level,
}
use secure_messenger_lab.Persistence.Stale.{second_commit_fails, poisoned_for_good}
use secure_messenger_lab.Persistence.Reopen.{no_state_faults}
use secure_messenger_lab.Persistence.Create.{create_commit_open}
use secure_messenger_lab.Tests.Fixtures.{toy}
use secure_messenger_lab.Tests.States.{
  toy_aead, toy_aead-AeadLaws, binding, platform, platform-ProtectorLaws, no_files, path, blank,
  dek, iv, stores, first, second, stored, replaced, creates_it, commits_it,
}

create_commit_open_example :
    (open_store toy toy_aead no_files no_state_faults platform path replaced ≡ ok second)
    × (second.state ≡ ascii "two")
    × (second.generation ≡ 2)
unfolding stores
create_commit_open_example =
    (create_commit_open toy toy_aead no_files platform toy_aead-AeadLaws platform-ProtectorLaws
        no_state_faults no_state_faults path blank stored dek (iv 1) (ascii "one") first refl refl
        creates_it).3
      no_state_faults (iv 2) (ascii "two") second replaced refl commits_it

second_commit_fails_example :
    (x : LabError) × (commit_state toy toy_aead no_state_faults first replaced
        (iv 3)
        (ascii "three")
      ≡ (err x, record first { poisoned = true }, replaced))
second_commit_fails_example =
    second_commit_fails toy toy_aead no_state_faults first second first stored replaced (iv 2)
      (ascii "two") refl refl commits_it no_state_faults (iv 3) (ascii "three")

abbrev poisoned : ClientStateStore
poisoned = record first { poisoned = true }

fails_it :
    commit_state toy toy_aead no_state_faults first replaced (iv 3) (ascii "three")
    ≡ (err storage, poisoned, replaced)
unfolding stores
fails_it = refl

poisoned_for_good_example :
    ((later : StateFaults) (other : StateDatabase) (nonce' state' : Bytes)
      → commit_state toy toy_aead later poisoned other nonce' state'
        ≡ (err storage, poisoned, other))
    × (read_state poisoned ≡ err storage)
    × (read_generation poisoned ≡ err storage)
    × (read_binding poisoned ≡ err storage)
    × (read_protection_level poisoned ≡ read_protection_level first)
poisoned_for_good_example =
    poisoned_for_good toy toy_aead no_state_faults first poisoned replaced replaced (iv 3)
      (ascii "three") storage fails_it

open_state-seal_state_example :
    open_state toy toy_aead binding 1 dek dek (iv 1) first.ciphertext ≡ ok (ascii "one")
unfolding stores
open_state-seal_state_example =
    open_state-seal_state toy toy_aead toy_aead-AeadLaws binding 1 dek dek (iv 1) (ascii "one")
      first.ciphertext refl

abbrev header : Bytes
unfolding stores
header = elim (aad toy binding 1 dek) [ ok bytes ↦ bytes | err e ↦ [] ]

builds_it : aad toy binding 1 dek ≡ ok header
unfolding stores
builds_it = refl

aad_injective_example :
    (binding.profile_id ≡ binding.profile_id)
    × (binding.key_ref ≡ binding.key_ref)
    × (first.generation ≡ first.generation)
    × (toy.sha256 dek ≡ toy.sha256 dek)
aad_injective_example =
    aad_injective toy binding binding 1 1 dek dek {header = header} (omega arith) (omega arith)
      builds_it builds_it

reject_anomalous_wal_exact_example :
    (reject_anomalous_wal no_files path ≡ ok tt)
    ↔ (HasNoLog no_files (resolve no_files path) ⊎ HasLiveLog no_files (resolve no_files path))
reject_anomalous_wal_exact_example = reject_anomalous_wal_exact no_files path
