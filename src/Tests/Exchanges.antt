-- ===== src/Tests/Exchanges.antt =====
-- A whole exchange at concrete requests.
use mathlib.Core.List.{Sublistᴰ}
use secure_messenger_lab.Prelude.{◌≡◌, refl, arith, ◌++◌}
use secure_messenger_lab.Errors.{ok}
use secure_messenger_lab.Capability.{receiver_capability, verify_envelope}
use secure_messenger_lab.Capability.Envelopes.{envelope_of, verified}
use secure_messenger_lab.Table.{delete_where, select_where}
use secure_messenger_lab.Relay.Store.{Mailbox}
use secure_messenger_lab.Relay.Sql.{message_expired}
use secure_messenger_lab.Relay.Enqueue.{enqueue, stored}
use secure_messenger_lab.Relay.Fetch.{fetch}
use secure_messenger_lab.Relay.Acknowledge.{acknowledge, deleted}
use secure_messenger_lab.Relay.Retry.{healthy}
use secure_messenger_lab.Relay.Exchange.{
  Exchange, Ready, sent_request, fetch_request, ack_request, envelopes,
}
use secure_messenger_lab.Relay.Exchange.Delivered.{delivered}
use secure_messenger_lab.Tests.Fixtures.{
  toy, toy-Laws, owner, nonce, packet, registering, opened, new_relay,
}
use secure_messenger_lab.Relay.Run.{run}
use secure_messenger_lab.Relay.Spec.{is_of, queue_of, Play}
use secure_messenger_lab.Relay.Spec.Refines.{run-Play}
use secure_messenger_lab.Relay.Spec.Order.{sent, run-InOrder}
use secure_messenger_lab.Tests.Executable.{executable}
use secure_messenger_lab.Tests.Relays.{with_message, history}

abbrev box : Mailbox
unfolding executable
box = record {
  queue_id = owner.queue_id;
  send_key = registering.send_key;
  receive_key = registering.receive_key;
  manage_key = registering.manage_key;
  created_at = 1000;
}

-- A second message for a mailbox that holds one.
abbrev exchange : Exchange
exchange = record {
  owner = owner;
  mailbox = box;
  message_id = nonce 9;
  packet = packet;
  message = opened.message;
  expires_at = 4700;
  nonce = nonce 5;
  sent_at = 1100;
  fetched_at = 1101;
  fetch_until = 1160;
  acknowledged_at = 1102;
  ack_until = 1160;
}

ready : Ready toy exchange with_message
unfolding executable
ready = record {
  mailbox = refl;
  send_key = refl;
  receive_key = refl;
  new_message = refl;
  not_gone = refl;
  new_nonce = refl;
  readable = ((refl, refl), tt);
  id_size = refl;
  nonce_size = refl;
  nonempty = omega arith;
  short = omega arith;
  ordered = (omega arith, omega arith, omega arith);
  bounded = omega arith;
  fetch_window = (omega arith, omega arith);
  ack_window = (omega arith, omega arith);
  clock = omega arith;
}

delivered_example :
    let sent = enqueue toy healthy with_message (sent_request toy exchange) 1100 in
    let got = fetch toy healthy sent.1 (fetch_request toy exchange) 1101 in
    let acked = acknowledge toy healthy got.1 (ack_request toy exchange) 1102 in
    (sent.0 ≡ ok stored)
    × (got.0 ≡ ok (envelopes toy exchange with_message))
    × (verify_envelope toy
          (receiver_capability toy owner)
          (envelope_of (sent_request toy exchange))
          1101
        ≡ ok (verified (envelope_of (sent_request toy exchange))))
    × (acked.0 ≡ ok deleted)
    × (acked.1.tables.messages ≡ delete_where (message_expired 1102) with_message.tables.messages)
delivered_example = delivered toy toy-Laws exchange with_message ready

run-Play_example :
    Play toy owner.queue_id history
      (queue_of toy owner.queue_id new_relay.tables)
      (queue_of toy owner.queue_id (run toy new_relay history).tables)
run-Play_example = run-Play toy toy-Laws owner.queue_id new_relay history

run-InOrder_example :
    Sublistᴰ (select_where (is_of owner.queue_id) (run toy with_message history).tables.messages) (
      select_where (is_of owner.queue_id) with_message.tables.messages
      ++ select_where (is_of owner.queue_id) (sent history))
run-InOrder_example = run-InOrder toy owner.queue_id with_message history
