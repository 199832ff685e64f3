-- ===== src/Demo/Passes.antt =====
-- `run_demo` passes.
use secure_messenger_lab.Prelude.{ℕ, ◌+◌, ◌≤◌, ◌≡◌, refl, ap, ◌∙◌, some, [], ◌∷◌, ◌++◌, arith, map}
use secure_messenger_lab.Errors.{Result, ok}
use secure_messenger_lab.Bytes.{Bytes, i64_max, u64_max}
use secure_messenger_lab.Bytes.Laws.{bytes_eq_refl}
use secure_messenger_lab.Crypto.{Crypto, Laws}
use secure_messenger_lab.Capability.{authorize, sender_capability}
use secure_messenger_lab.Capability.Envelopes.{envelope_of, verified, verify_envelope-authorize}
use secure_messenger_lab.Table.{select_where, delete_where}
use secure_messenger_lab.Client.Olm.{Olm, SigningLaws}
use secure_messenger_lab.Relay.Store.{Relay, Faults, settle, immediate, to_i64}
use secure_messenger_lab.Relay.Retry.{healthy}
use secure_messenger_lab.Relay.Exchange.{Exchange, sent_request, envelopes, row, acknowledged_relay}
use secure_messenger_lab.Relay.Exchange.Delivered.{exchange-served}
use secure_messenger_lab.Relay.Exchange.Steps.{messages_left}
use secure_messenger_lab.Relay.Remove.{
  purge_expired, queued_message_count_at, queued_message_count, purge_expired_body,
}
use secure_messenger_lab.Relay.Schema.{RelayDatabase}
use secure_messenger_lab.Relay.Sql.{message_expired}
use secure_messenger_lab.Relay.Delivery.{envelope, pending}
use secure_messenger_lab.Relay.Checks.{tombstone_ttl_seconds, purge_expired_in, unix_now}
use secure_messenger_lab.Demo.{
  DemoDraws, DemoPeers, DemoCall, first_envelope, demo_message, demo_reply, register_inboxes,
  send_message, send_reply, run_demo_on, run_demo,
}
use secure_messenger_lab.Demo.Transcript.{Transcript, plain_message, plain_reply}
use secure_messenger_lab.Demo.Clients
use secure_messenger_lab.Demo.Clients.{add_u64-small}
use secure_messenger_lab.Demo.Relaying.{
  IsDrawn, empty_relay, both_registered, registers, message_exchange, reply_exchange, message-Ready,
  reply-Ready, nothing_left,
}

-- No statement fails in any call.
abbrev pub all_healthy : DemoCall → Faults
all_healthy = λ _. healthy

-- At a relay without messages a fetch starts with the envelope of the one that was sent.
first_is_sent :
    (c : Crypto) (e : Exchange) (r : Relay)
    → r.tables.messages ≡ []
    → first_envelope (envelopes c e r) ≡ ok (envelope_of (sent_request c e))
unfolding first_envelope authorize sender_capability select_where
first_is_sent c e r nothing =
    ap
      (λ ms. first_envelope (
        map (envelope e.owner.queue_id) (pending e.owner.queue_id e.fetched_at ms ++ row c e ∷ [])))
      nothing

module _ {A S : Type 0} (c : Crypto) (laws : Laws c) (o : Olm A S) (signing : SigningLaws c o)
    (d : DemoDraws A) (drawn : IsDrawn d) (now : ℕ) (x : Transcript o d now (now + 1))
    (small : now + 1 + tombstone_ttl_seconds ≤ i64_max) where
  fits : now + 300 ≤ u64_max
  fits = omega (arith, small)

  abbrev in_sync : DemoPeers A S
  in_sync = Clients.peers c o signing d all_healthy now x fits

  abbrev m_exchange : Exchange
  m_exchange =
      message_exchange c laws d drawn now small x.packet x.reply_packet (plain_message o d now)
        (plain_reply o d (now + 1))

  abbrev r_exchange : Exchange
  r_exchange =
      reply_exchange c laws d drawn now small x.packet x.reply_packet (plain_message o d now)
        (plain_reply o d (now + 1))

  abbrev ready_relay : Relay
  ready_relay = both_registered c laws d drawn now small

  abbrev middle_relay : Relay
  middle_relay = acknowledged_relay c m_exchange ready_relay

  registers_both : register_inboxes c o d all_healthy empty_relay now ≡ ok ready_relay
  unfolding register_inboxes
  registers_both =
      let minute = add_u64-small now 60 (omega (arith, small)) in
      let (alice, bob) = registers c laws d drawn now small in rw (minute, alice, bob) refl

  abbrev after_message : DemoPeers A S
  after_message = record in_sync {
    alice = Clients.alice_sealed c o signing d all_healthy now x fits;
    bob = Clients.bob_opened c o signing d all_healthy now x fits;
  }

  abbrev after_reply : DemoPeers A S
  after_reply = record in_sync {
    alice = Clients.alice_opened c o signing d all_healthy now x fits;
    bob = Clients.bob_answered c o signing d all_healthy now x fits;
  }

  abbrev last_relay : Relay
  last_relay = acknowledged_relay c r_exchange middle_relay

  no_messages_yet : ready_relay.tables.messages ≡ []
  unfolding delete_where
  no_messages_yet = refl

  sends_message :
      send_message c o d all_healthy ready_relay in_sync now ≡ ok (middle_relay, after_message)
  unfolding send_message authorize
  sends_message =
      let minute = add_u64-small now 60 (omega (arith, small)) in
      let hour = add_u64-small now 3600 (omega (arith, small)) in
      let starts = Clients.starts c o signing d all_healthy now x fits in
      let seals = Clients.seals c o signing d all_healthy now x fits in
      let (stores, fetches, acks) = exchange-served c laws m_exchange ready_relay (
        message-Ready c laws d drawn now small x.packet x.reply_packet (plain_message o d now)
          (plain_reply o d (now + 1)) x.size) in
      let first = first_is_sent c m_exchange ready_relay no_messages_yet in
      let accepted =
        verify_envelope-authorize c laws d.bob_inbox d.message_id x.packet (now + 3600) now
          (omega arith) in
      let opens =
        Clients.opens c o signing d all_healthy now x fits
          (verified (envelope_of (sent_request c m_exchange))) (omega arith) refl refl in
      rw
        (
          minute,
          hour,
          starts,
          seals,
          stores,
          fetches,
          first,
          accepted,
          opens,
          bytes_eq_refl demo_message,
          acks,
        )
        refl

  sends_reply :
      send_reply c o d all_healthy middle_relay after_message now ≡ ok (last_relay, after_reply)
  unfolding send_reply authorize
  sends_reply =
      let second = add_u64-small now 1 (omega (arith, small)) in
      let minute = add_u64-small now 61 (omega (arith, small)) in
      let hour = add_u64-small now 3600 (omega (arith, small)) in
      let answers = Clients.answers c o signing d all_healthy now x fits in
      let nothing =
        nothing_left c laws d drawn now small x.packet x.reply_packet (plain_message o d now)
          (plain_reply o d (now + 1)) x.size in
      let (stores, fetches, acks) = exchange-served c laws r_exchange middle_relay (
        reply-Ready c laws d drawn now small x.packet x.reply_packet (plain_message o d now)
          (plain_reply o d (now + 1)) x.size x.reply_size) in
      let first = first_is_sent c r_exchange middle_relay nothing in
      let accepted =
        verify_envelope-authorize c laws d.alice_inbox d.reply_id x.reply_packet (now + 3600)
          (now + 1) (omega arith) in
      let opens =
        Clients.opens_answer c o signing d all_healthy now x fits
          (verified (envelope_of (sent_request c r_exchange))) (omega arith) refl refl in
      rw
        (
          second,
          minute,
          hour,
          answers,
          stores,
          fetches,
          first,
          accepted,
          opens,
          bytes_eq_refl demo_reply,
          acks,
        )
        refl

  -- The last count finds no message.
  counts_none :
      (later : ℕ)
      → later ≤ i64_max
      → (queued_message_count healthy last_relay (some later)).0 ≡ ok 0
  unfolding queued_message_count queued_message_count_at purge_expired purge_expired_body unix_now
      settle immediate purge_expired_in to_i64 delete_where
  counts_none later h =
      let ready =
        reply-Ready c laws d drawn now small x.packet x.reply_packet (plain_message o d now)
          (plain_reply o d (now + 1)) x.size x.reply_size in
      let nothing =
        nothing_left c laws d drawn now small x.packet x.reply_packet (plain_message o d now)
          (plain_reply o d (now + 1)) x.size in
      let left : last_relay.tables.messages ≡ [] =
        messages_left c laws r_exchange middle_relay ready
        ∙ ap (delete_where (message_expired (now + 1))) nothing in
      ground (arith, h, left)

  -- The demonstration passes: where the clock answers, the temporary directory exists, its relay
  -- opens without rows and no statement fails, the signatures obey their laws, the draws have their
  -- sizes and give two different queues, and the libraries do on this run what the transcript says,
  -- both messages reach their recipients, and `run_demo` ends without an error.
  pub demo_passes :
      (path : Bytes) (open_relay : Bytes → Result (Relay × RelayDatabase)) (file : RelayDatabase)
      (later : ℕ)
      → open_relay path ≡ ok (empty_relay, file)
      → later ≤ i64_max
      → run_demo c o d all_healthy (some now) (some path) open_relay (some later) ≡ ok tt
  unfolding run_demo run_demo_on
  demo_passes path open_relay file later opened in_range =
      let introduced = Clients.introduces c o signing d all_healthy now x fits in
      let counted = counts_none later in_range in
      rw (opened, introduced, registers_both, sends_message, sends_reply, counted) refl
