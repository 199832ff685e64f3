-- ===== src/Demo.antt =====
-- `run_demo` of src/main.rs: two clients exchange a message and its answer through a relay. What
-- it draws at random and the clocks that it reads are arguments. A sum of the time and a lifetime
-- is a u64 and wraps around.
pub mod Transcript
pub mod Clients
pub mod Relaying
pub mod Passes
use secure_messenger_lab.Prelude.{
  ℕ, ◌+◌, ◌%◌, ◌==◌, Bool, true, false, Option, none, some, List, [], ◌∷◌, ◌++◌, not,
}
use secure_messenger_lab.Errors.{
  Result, ok, err, ◌>>=◌, ◌>>◌, reject_if, storage, invalid_payload, message_not_found,
}
use secure_messenger_lab.Bytes.{Bytes, ascii, bytes_eq}
use secure_messenger_lab.Crypto.{Crypto}
use secure_messenger_lab.Packets.{StoredEnvelope}
use secure_messenger_lab.Capability.{
  MailboxOwner, registration, sender_capability, receiver_capability, authorize, authorize_fetch,
  authorize_ack, verify_envelope,
}
use secure_messenger_lab.Client.Olm.{Olm}
use secure_messenger_lab.Client.PreKeys.{VerifiedPeerPreKey, verify}
use secure_messenger_lab.Client.State.{
  OlmClient, or_err, new_client, prekey_bundle, start_outbound_session, seal, open_initial,
  open_envelope, signing_identity,
}
use secure_messenger_lab.Relay.Store.{Relay, Faults}
use secure_messenger_lab.Relay.Register.{register}
use secure_messenger_lab.Relay.Enqueue.{EnqueueOutcome, stored, duplicate, enqueue}
use secure_messenger_lab.Relay.Fetch.{fetch}
use secure_messenger_lab.Relay.Acknowledge.{AckOutcome, deleted, already_deleted, acknowledge}
use secure_messenger_lab.Relay.Schema.{RelayDatabase}
use secure_messenger_lab.Relay.Remove.{queued_message_count}

-- `a + b` on u64
unfoldable pub add_u64 : ℕ → ℕ → ℕ
add_u64 a b = (a + b) % 18446744073709551616

-- `fetched.first()`
unfoldable pub first_envelope : List StoredEnvelope → Result StoredEnvelope
first_envelope [] = err message_not_found
first_envelope (x ∷ xs) = ok x

-- The comparisons with `Stored` and `Deleted`.
abbrev pub is_stored : EnqueueOutcome → Bool
is_stored stored = true
is_stored duplicate = false

abbrev pub is_deleted : AckOutcome → Bool
is_deleted deleted = true
is_deleted already_deleted = false

abbrev pub demo_message : Bytes
demo_message = ascii "phase-zero-demo-message"

abbrev pub demo_reply : Bytes
demo_reply = ascii "phase-zero-demo-reply"

-- The relay's calls, each with its own faults.
pub data DemoCall : Type 0 where
  registers_alice registers_bob enqueues_message fetches_message acknowledges_message : DemoCall
  enqueues_reply fetches_reply acknowledges_reply counts : DemoCall

-- What `run_demo` draws at random.
pub record DemoDraws (Account : Type 0) : Type 0 where
  pub conversation : Bytes
  pub alice : Account
  pub bob : Account
  pub alice_inbox : MailboxOwner
  pub bob_inbox : MailboxOwner
  pub alice_nonce : Bytes
  pub bob_nonce : Bytes
  pub message_id : Bytes
  pub fetch_nonce : Bytes
  pub reply_id : Bytes
  pub reply_fetch_nonce : Bytes

-- The two clients and their verified contact bundles.
pub record DemoPeers (Account Session : Type 0) : Type 0 where
  pub alice : OlmClient Account Session
  pub bob : OlmClient Account Session
  pub verified_alice : VerifiedPeerPreKey
  pub verified_bob : VerifiedPeerPreKey

module _ {A S : Type 0} (c : Crypto) (o : Olm A S) (d : DemoDraws A)
    (fails : DemoCall → Faults) where
  -- The contact bundles, up to `verified_bob`.
  unfoldable pub introduce : ℕ → Result (DemoPeers A S)
  introduce now = do
    let alice = prekey_bundle o (new_client o d.alice d.conversation) (add_u64 now 60)
    let bob = prekey_bundle o (new_client o d.bob d.conversation) (add_u64 now 60)
    alice_pre_key ← alice.0
    bob_pre_key ← bob.0
    verified_alice ← verify c alice_pre_key (signing_identity o alice.1) now
    verified_bob ← verify c bob_pre_key (signing_identity o bob.1) now
    ok (record {
      alice = alice.1;
      bob = bob.1;
      verified_alice = verified_alice;
      verified_bob = verified_bob;
    })

  -- The two mailboxes.
  unfoldable pub register_inboxes : Relay → ℕ → Result Relay
  register_inboxes relay now = do
    let alice =
        register c (fails registers_alice) relay
          (registration c d.alice_inbox d.alice_nonce (add_u64 now 60)) now
    _ ← alice.0
    let bob =
        register c (fails registers_bob) alice.1
          (registration c d.bob_inbox d.bob_nonce (add_u64 now 60)) now
    _ ← bob.0
    ok bob.1

  -- Alice's message, from `start_outbound_session` to its acknowledgement.
  unfoldable pub send_message : Relay → DemoPeers A S → ℕ → Result (Relay × DemoPeers A S)
  send_message relay peers now = do
    let started = start_outbound_session o peers.alice peers.verified_bob now
    started.0
    let sealed = seal o started.1 d.message_id demo_message now
    first ← sealed.0
    let request = authorize c (sender_capability c d.bob_inbox) first.0 first.1 (add_u64 now 3600)
    let queued = enqueue c (fails enqueues_message) relay request now
    outcome ← queued.0
    reject_if (not (is_stored outcome)) storage
    let receiver = receiver_capability c d.bob_inbox
    let got =
        fetch c (fails fetches_message) queued.1
          (authorize_fetch c receiver d.fetch_nonce (add_u64 now 60)) now
    fetched ← got.0
    envelope ← first_envelope fetched
    verified ← verify_envelope c receiver envelope now
    let opened = open_initial o peers.bob verified peers.verified_alice now
    received ← opened.0
    reject_if (not (bytes_eq received.message.body demo_message)) invalid_payload
    let acked =
        acknowledge c (fails acknowledges_message) got.1
          (authorize_ack c receiver received (add_u64 now 60)) now
    ack ← acked.0
    reject_if (not (is_deleted ack)) storage
    ok (acked.1, record peers { alice = sealed.1; bob = opened.1 })

  -- Bob's answer, a second later.
  unfoldable pub send_reply : Relay → DemoPeers A S → ℕ → Result (Relay × DemoPeers A S)
  send_reply relay peers now = do
    let later = add_u64 now 1
    let sealed = seal o peers.bob d.reply_id demo_reply later
    reply ← sealed.0
    let request = authorize c (sender_capability c d.alice_inbox) reply.0 reply.1 (add_u64 now 3600)
    let queued = enqueue c (fails enqueues_reply) relay request later
    _ ← queued.0
    let receiver = receiver_capability c d.alice_inbox
    let got =
        fetch c (fails fetches_reply) queued.1
          (authorize_fetch c receiver d.reply_fetch_nonce (add_u64 now 61)) later
    replies ← got.0
    envelope ← first_envelope replies
    verified ← verify_envelope c receiver envelope later
    let opened = open_envelope o peers.alice verified later
    received ← opened.0
    reject_if (not (bytes_eq received.message.body demo_reply)) invalid_payload
    let acked =
        acknowledge c (fails acknowledges_reply) got.1
          (authorize_ack c receiver received (add_u64 now 61)) later
    _ ← acked.0
    ok (acked.1, record peers { alice = opened.1; bob = sealed.1 })

  -- `run_demo` on an open relay, without its last line of output. The clock is read again for the
  -- last count.
  unfoldable pub run_demo_on : Relay → ℕ → Option ℕ → Result (Unit {0})
  run_demo_on relay now count_clock = do
    peers ← introduce now
    registered ← register_inboxes relay now
    sent ← send_message registered peers now
    answered ← send_reply sent.0 sent.1 now
    count ← (queued_message_count (fails counts) answered.0 count_clock).0
    reject_if (not (count == 0)) storage

  -- `run_demo`: `database` is the path in the temporary directory, where there is one, and
  -- `open_relay` is `Relay::open` in its surroundings.
  unfoldable pub run_demo :
      Option ℕ
      → Option Bytes
      → (Bytes → Result (Relay × RelayDatabase))
      → Option ℕ
      → Result (Unit {0})
  run_demo clock database open_relay count_clock = do
    now ← or_err clock invalid_payload
    path ← or_err database storage
    opened ← open_relay path
    run_demo_on opened.0 now count_clock
