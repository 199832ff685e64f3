-- ===== src/Tests/Properties.antt =====
-- The relay's theorems at concrete requests.
use secure_messenger_lab.Prelude.{
  ◌≡◌, refl, sym, ap, true, some, none, List, [], ◌∷◌, map, All, arith, ◌⊎◌, ◌++◌,
}
use secure_messenger_lab.Errors.{LabError, ok}
use secure_messenger_lab.Capability.{
  ReceiveCapability, receiver_capability, authorize, authorize_fetch,
}
use secure_messenger_lab.Relay.Store.{Relay, Mailbox}
use secure_messenger_lab.Relay.Sql.{of_queue, is_message}
use secure_messenger_lab.Table.{find_where}
use secure_messenger_lab.Relay.Success.{purged}
use secure_messenger_lab.Relay.Enqueue.{enqueue, stored, duplicate, message_of}
use secure_messenger_lab.Relay.Fetch.{fetch}
use secure_messenger_lab.Relay.Acknowledge.{acknowledge, deleted}
use secure_messenger_lab.Relay.Run.{
  run, perform, error_of, registers, enqueues, fetches, Event, sweeps,
}
use secure_messenger_lab.Relay.Authentic.{IsAuthentic, run-IsAuthentic}
use secure_messenger_lab.Relay.Delivery.{
  IsAccepted, envelope, pending, fetch-IsAccepted, fetch_exact,
}
use secure_messenger_lab.Relay.Retired.{deleted_forever}
use secure_messenger_lab.Relay.Replay.{fetch_once}
use secure_messenger_lab.Relay.Tombstones.Sends.{acknowledged_stays_gone}
use secure_messenger_lab.Relay.Retry.{healthy, enqueue_again_is_duplicate}
use secure_messenger_lab.Relay.Removal.{IsManaged, Gone, mailbox_kept, message_kept}
use secure_messenger_lab.Tests.Fixtures.{
  toy, toy-Laws, no_faults, new_relay, owner, nonce, registering, sending, fetching, deleting,
  acking,
}
use secure_messenger_lab.Tests.Executable.{executable}
use secure_messenger_lab.Tests.Relays.{
  with_mailbox, with_message, after_fetch, envelopes, after_delete, fetches_it, deletes_it,
}

abbrev own : ReceiveCapability
own = receiver_capability toy owner

with_message-IsAuthentic : IsAuthentic toy with_message.tables
unfolding run
with_message-IsAuthentic =
    run-IsAuthentic toy new_relay
      (record { call = registers registering; now = 1000; fails = no_faults }
        ∷ record { call = enqueues sending; now = 1001; fails = no_faults }
        ∷ [])
      tt

holds_send_key :
    (b : Mailbox)
    → find_where (of_queue own.queue_id) with_message.tables.mailboxes ≡ some b
    → b.send_key ≡ own.send_verification_key
unfolding executable
holds_send_key b e = sym (ap (λ o. elim o [ none ↦ [] | some m ↦ m.send_key ]) e)

fetch-IsAccepted_example : All (IsAccepted toy own 1002) envelopes
unfolding executable
fetch-IsAccepted_example =
    fetch-IsAccepted toy no_faults with_message after_fetch own fetching 1002 envelopes
      with_message-IsAuthentic holds_send_key refl fetches_it

fetch_exact_example :
    (envelopes
      ≡ map
          (envelope fetching.queue_id)
          (pending fetching.queue_id 1002 with_message.tables.messages))
    × (after_fetch.tables.messages ≡ (purged 1002 with_message.tables).messages)
    × (after_fetch.tables.tombstones ≡ (purged 1002 with_message.tables).tombstones)
    × (after_fetch.tables.mailboxes ≡ with_message.tables.mailboxes)
fetch_exact_example =
    fetch_exact toy no_faults with_message after_fetch fetching 1002 envelopes fetches_it

queued :
    find_where (is_message owner.queue_id (nonce 2)) with_message.tables.messages
    ≡ some (message_of sending 4600)
unfolding executable
queued = refl

message_kept_example :
    (find_where
        (is_message owner.queue_id (nonce 2))
        (perform toy with_message (fetches fetching) 1002 no_faults).tables.messages
      ≡ some (message_of sending 4600))
    ⊎ Gone toy
        (fetches fetching)
        1002
        with_message.tables
        owner.queue_id
        (nonce 2)
        (message_of sending 4600)
message_kept_example =
    message_kept toy with_message (fetches fetching) 1002 no_faults owner.queue_id (nonce 2)
      (message_of sending 4600) queued

abbrev own_mailbox : Mailbox
own_mailbox = record {
  queue_id = owner.queue_id;
  send_key = registering.send_key;
  receive_key = registering.receive_key;
  manage_key = registering.manage_key;
  created_at = 1000;
}

registered : find_where (of_queue owner.queue_id) with_message.tables.mailboxes ≡ some own_mailbox
unfolding executable
registered = refl

mailbox_kept_example :
    (find_where
        (of_queue owner.queue_id)
        (perform toy with_message (fetches fetching) 1002 no_faults).tables.mailboxes
      ≡ some own_mailbox)
    ⊎ IsManaged toy (fetches fetching) with_message.tables owner.queue_id
mailbox_kept_example =
    mailbox_kept toy with_message (fetches fetching) 1002 no_faults owner.queue_id own_mailbox
      registered

-- A sweep, and a send that comes after it.
abbrev meanwhile : List Event
meanwhile =
    record { call = sweeps; now = 1010; fails = no_faults }
    ∷ record { call = enqueues sending; now = 1012; fails = no_faults }
    ∷ []

fetch_once_example : ¬ (
    fetch toy no_faults (run toy after_fetch meanwhile) fetching 1013 ≡ (ok envelopes, after_fetch))
unfolding authorize_fetch
fetch_once_example =
    fetch_once toy toy-Laws no_faults with_message after_fetch fetching 1002 envelopes fetches_it
      meanwhile (omega arith, (omega arith, tt)) no_faults after_fetch 1013 envelopes

abbrev after_ack : Relay
after_ack = (acknowledge toy no_faults with_message acking 1003).1

acknowledges_it : acknowledge toy no_faults with_message acking 1003 ≡ (ok deleted, after_ack)
unfolding executable
acknowledges_it = refl

acknowledged_stays_gone_example :
    ¬ (enqueue toy no_faults (run toy after_ack meanwhile) sending 1014 ≡ (ok stored, after_ack))
unfolding executable
acknowledged_stays_gone_example =
    acknowledged_stays_gone toy toy-Laws no_faults with_message after_ack acking 1003
      acknowledges_it meanwhile (omega arith, (omega arith, tt)) no_faults after_ack sending 1014
      stored refl refl (omega arith)

enqueues_it : enqueue toy no_faults with_mailbox sending 1001 ≡ (ok stored, with_message)
unfolding executable
enqueues_it = refl

enqueue_again_is_duplicate_example : enqueue toy healthy with_message sending 1500 ≡ (
  ok duplicate,
  record with_message {
    tables = purged 1500 with_message.tables;
    audit_events = with_message.audit_events ++ "message_enqueue_duplicate" ∷ [];
  },
)
unfolding authorize
enqueue_again_is_duplicate_example =
    enqueue_again_is_duplicate toy no_faults with_mailbox with_message sending 1001 1500 stored
      enqueues_it (omega arith) (omega arith)

deleted_forever_example :
    (x : LabError) × (error_of toy (run toy after_delete []) (enqueues sending) 1500 no_faults
      ≡ some x)
unfolding run executable
deleted_forever_example =
    deleted_forever toy toy-Laws no_faults with_message after_delete deleting 1003 true deletes_it
      [] (enqueues sending) 1500 no_faults refl
