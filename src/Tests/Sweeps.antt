-- ===== src/Tests/Sweeps.antt =====
-- The relay's theorems on sweeps, errors and tombstones at concrete requests.
use secure_messenger_lab.Prelude.{ℕ, ◌≡◌, refl, [], arith}
use secure_messenger_lab.Errors.{ok}
use secure_messenger_lab.Relay.Store.{Relay}
use secure_messenger_lab.Relay.Remove.{purge_expired}
use secure_messenger_lab.Relay.Run.{run}
use secure_messenger_lab.Relay.Retention.{retention}
use secure_messenger_lab.Relay.Disjoint.{IsDisjoint, run-IsDisjoint}
use secure_messenger_lab.Tests.Fixtures.{toy, no_faults, new_relay}
use secure_messenger_lab.Tests.Executable.{executable}
use secure_messenger_lab.Tests.Relays.{with_message, history}

run-IsDisjoint_example : IsDisjoint (run toy new_relay history).tables
run-IsDisjoint_example = run-IsDisjoint toy new_relay history tt

abbrev swept : Relay
swept = (purge_expired no_faults with_message 5000).1

sweeps_it : purge_expired no_faults with_message 5000 ≡ (ok 1, swept)
unfolding executable
sweeps_it = refl

abbrev much_later : ℕ
much_later = 700000

abbrev cleaned : Relay
cleaned = (purge_expired no_faults (run toy new_relay history) much_later).1

cleans_it : purge_expired no_faults (run toy new_relay history) much_later ≡ (ok 1, cleaned)
unfolding executable run
cleans_it = refl

retention_example : cleaned.tables.messages ≡ []
retention_example =
    retention toy 2000 new_relay cleaned history no_faults much_later 1 tt
      (omega arith, (omega arith, (omega arith, tt))) (omega arith) cleans_it
