-- ===== src/Demo/Clients.antt =====
-- The clients' side of `run_demo`: the bundles verify, and each side opens what the other seals.
use secure_messenger_lab.Prelude.{ℕ, ◌+◌, ◌≤◌, ◌<◌, ◌≡◌, refl, some, none, [], ◌∷◌, arith}
use secure_messenger_lab.Errors.{ok}
use secure_messenger_lab.Bytes.{Bytes, u64_max}
use secure_messenger_lab.Bytes.Laws.{bytes_eq_refl}
use secure_messenger_lab.Crypto.{Crypto}
use secure_messenger_lab.Packets.{VerifiedEnvelope}
use secure_messenger_lab.Client.Olm.{Olm, SigningLaws}
use secure_messenger_lab.Client.PreKeys.{
  PeerPreKey, VerifiedPeerPreKey, verify, bundle_signing_bytes, peer_prekey_signing_bytes,
}
use secure_messenger_lab.Client.State.{
  OlmClient, new_client, prekey_bundle, outbound, start_outbound_session, seal, validate_plaintext,
  opening_message, opening_initial, open_initial, opening, open_envelope, signing_identity,
  contains, insert,
}
use secure_messenger_lab.Relay.Store.{Faults}
use secure_messenger_lab.Demo.{
  DemoDraws, DemoPeers, DemoCall, add_u64, introduce, demo_message, demo_reply,
}
use secure_messenger_lab.Demo.Transcript.{
  Transcript, offering, published, plain_message, plain_reply,
}

pub add_u64-small : (a b : ℕ) → a + b ≤ u64_max → add_u64 a b ≡ a + b
unfolding add_u64
add_u64-small a b h = omega arith

module _ {A S : Type 0} (c : Crypto) (o : Olm A S) (laws : SigningLaws c o) (d : DemoDraws A)
    (fails : DemoCall → Faults) (now : ℕ) (x : Transcript o d now (now + 1))
    (small : now + 300 ≤ u64_max) where
  abbrev pub bundle_of : A → Bytes → VerifiedPeerPreKey
  bundle_of account key = record {
    signing_identity = o.ed25519_key (offering o d account);
    curve_identity = o.curve25519_key (offering o d account);
    one_time_key = key;
    valid_until = now + 60;
  }

  abbrev pub client_of : A → OlmClient A S
  client_of account = record {
    account = published o d account;
    session = none;
    conversation_id = d.conversation;
    displayed_messages = [];
  }

  abbrev pub peers : DemoPeers A S
  peers = record {
    alice = client_of d.alice;
    bob = client_of d.bob;
    verified_alice = bundle_of d.alice x.alice_key;
    verified_bob = bundle_of d.bob x.bob_key;
  }

  abbrev signed_bundle : A → Bytes → PeerPreKey
  signed_bundle account key =
      let identity = o.ed25519_key (offering o d account) in
      let curve = o.curve25519_key (offering o d account) in
      record {
        signing_identity = identity;
        curve_identity = curve;
        one_time_key = key;
        valid_until = now + 60;
        signature =
            o.sign (offering o d account) (peer_prekey_signing_bytes identity curve key (now + 60));
      }

  bundles :
      (account : A) (key : Bytes)
      → o.first_one_time_key (offering o d account) ≡ some key
      → prekey_bundle o (new_client o account d.conversation) (now + 60)
        ≡ (ok (signed_bundle account key), client_of account)
  unfolding prekey_bundle new_client
  bundles account key offers = rw (prekey_bundle, offers) refl

  -- A bundle that an account signs verifies for the identity that the client shows afterwards.
  verify-own :
      (account : A) (key : Bytes)
      → o.ed25519_key (published o d account) ≡ o.ed25519_key (offering o d account)
      → verify c (signed_bundle account key) (signing_identity o (client_of account)) now
        ≡ ok (bundle_of account key)
  unfolding verify bundle_signing_bytes signing_identity
  verify-own account key same = rw same (
      ground (
        arith,
        small,
        bytes_eq_refl (o.ed25519_key (offering o d account)),
        laws.verify_sign (offering o d account) (bundle_signing_bytes (signed_bundle account key)),
      ))

  pub introduces : introduce c o d fails now ≡ ok peers
  unfolding introduce
  introduces =
      let minute = add_u64-small now 60 (omega arith) in
      let alice = bundles d.alice x.alice_key x.alice_offers in
      let bob = bundles d.bob x.bob_key x.bob_offers in
      let alice_verified = verify-own d.alice x.alice_key x.alice_keeps in
      let bob_verified = verify-own d.bob x.bob_key x.bob_keeps in
      rw (minute, alice, bob, alice_verified, bob_verified) refl

  abbrev pub alice_started : OlmClient A S
  alice_started = record (client_of d.alice) { session = some x.outbound }

  abbrev pub alice_sealed : OlmClient A S
  alice_sealed = record alice_started { session = some x.sealed }

  abbrev pub bob_opened : OlmClient A S
  bob_opened = record {
    account = x.inbound.account;
    session = some x.inbound.session;
    conversation_id = d.conversation;
    displayed_messages = d.message_id ∷ [];
  }

  abbrev pub bob_answered : OlmClient A S
  bob_answered = record bob_opened { session = some x.answered }

  abbrev pub alice_opened : OlmClient A S
  alice_opened = record alice_sealed {
    session = some x.received;
    displayed_messages = d.reply_id ∷ [];
  }

  pub starts :
      start_outbound_session o (client_of d.alice) (bundle_of d.bob x.bob_key) now
      ≡ (ok tt, alice_started)
  unfolding start_outbound_session outbound
  starts = ground (arith, x.creates)

  pub seals :
      seal o alice_started d.message_id demo_message now
      ≡ (ok (d.message_id, x.packet), alice_sealed)
  unfolding seal
  seals = ground (arith, x.writes, x.encrypts, x.packs)

  pub opens :
      (e : VerifiedEnvelope)
      → now < e.expires_at
      → e.packet ≡ x.packet
      → e.message_id ≡ d.message_id
      → open_initial o (client_of d.bob) e (bundle_of d.alice x.alice_key) now
        ≡ (ok (record { message = plain_message o d now; envelope = e }), bob_opened)
  unfolding open_initial opening_initial opening_message validate_plaintext contains insert
  opens e live same_packet same_id = ground (
    arith,
    x.unpacks,
    x.accepts,
    x.decrypts,
    x.reads,
    bytes_eq_refl d.conversation,
    bytes_eq_refl d.message_id,
  )

  pub answers :
      seal o bob_opened d.reply_id demo_reply (now + 1)
      ≡ (ok (d.reply_id, x.reply_packet), bob_answered)
  unfolding seal
  answers = ground (arith, x.writes_reply, x.encrypts_reply, x.packs_reply)

  pub opens_answer :
      (e : VerifiedEnvelope)
      → now + 1 < e.expires_at
      → e.packet ≡ x.reply_packet
      → e.message_id ≡ d.reply_id
      → open_envelope o alice_sealed e (now + 1)
        ≡ (ok (record { message = plain_reply o d (now + 1); envelope = e }), alice_opened)
  unfolding open_envelope opening validate_plaintext contains insert
  opens_answer e live same_packet same_id = ground (
    arith,
    x.unpacks_reply,
    x.decrypts_reply,
    x.reads_reply,
    bytes_eq_refl d.conversation,
    bytes_eq_refl d.reply_id,
  )
