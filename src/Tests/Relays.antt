-- ===== src/Tests/Relays.antt =====
-- The relay's operations at concrete requests.
use secure_messenger_lab.Prelude.{◌≡◌, refl, true, false, List, [], ◌∷◌}
use secure_messenger_lab.Errors.{ok, err, mailbox_conflict}
use secure_messenger_lab.Packets.{StoredEnvelope}
use secure_messenger_lab.Capability.Envelopes
use secure_messenger_lab.Relay.Store.{Relay}
use secure_messenger_lab.Relay.Register.{register}
use secure_messenger_lab.Relay.Enqueue.{enqueue, stored}
use secure_messenger_lab.Relay.Fetch.{fetch}
use secure_messenger_lab.Relay.Remove.{delete_mailbox}
use secure_messenger_lab.Relay.Run.{Event, registers, enqueues, fetches, run}
use secure_messenger_lab.Relay.Authentic.{IsAuthentic, run-IsAuthentic}
use secure_messenger_lab.Tests.Fixtures.{
  toy, no_faults, new_relay, registering, sending, fetching, deleting,
}
use secure_messenger_lab.Tests.Executable.{executable}

abbrev pub with_mailbox : Relay
with_mailbox = (register toy no_faults new_relay registering 1000).1

abbrev pub with_message : Relay
with_message = (enqueue toy no_faults with_mailbox sending 1001).1

abbrev pub after_fetch : Relay
after_fetch = (fetch toy no_faults with_message fetching 1002).1

abbrev pub envelopes : List StoredEnvelope
envelopes = Envelopes.envelope_of sending ∷ []

abbrev pub after_delete : Relay
after_delete = (delete_mailbox toy no_faults with_message deleting 1003).1

registers_first : (register toy no_faults new_relay registering 1000).0 ≡ ok true
unfolding executable
registers_first = refl

registers_again : (register toy no_faults with_mailbox registering 1001).0 ≡ ok false
unfolding executable
registers_again = refl

enqueues_first : (enqueue toy no_faults with_mailbox sending 1001).0 ≡ ok stored
unfolding executable
enqueues_first = refl

pub fetches_it : fetch toy no_faults with_message fetching 1002 ≡ (ok envelopes, after_fetch)
unfolding executable
fetches_it = refl

pub deletes_it : delete_mailbox toy no_faults with_message deleting 1003 ≡ (ok true, after_delete)
unfolding executable
deletes_it = refl

refuses_reuse : (register toy no_faults after_delete registering 1004).0 ≡ err mailbox_conflict
unfolding executable
refuses_reuse = refl

abbrev pub history : List Event
history =
    record { call = registers registering; now = 1000; fails = no_faults }
    ∷ record { call = enqueues sending; now = 1001; fails = no_faults }
    ∷ record { call = fetches fetching; now = 1002; fails = no_faults }
    ∷ []

run-IsAuthentic_example : IsAuthentic toy (run toy new_relay history).tables
run-IsAuthentic_example = run-IsAuthentic toy new_relay history tt
