-- ===== src/Tests/Clients.antt =====
-- The client at concrete envelopes, over a toy Olm that encrypts nothing.
use secure_messenger_lab.Prelude.{◌≡◌, refl, inl, some, none, [], ◌∷◌, arith}
use secure_messenger_lab.Errors.{ok, err, session_already_exists, peer_verification_failed}
use secure_messenger_lab.Bytes.{Bytes, ascii}
use secure_messenger_lab.Bytes.Laws.{bytes_eq_refl}
use secure_messenger_lab.Client.Olm.{Olm, Inbound, SigningLaws, OlmMessage, pre_key, normal}
use secure_messenger_lab.Client.PreKeys.{
  PeerPreKey, VerifiedPeerPreKey, IsTrusted, verify, verify_exact, without_signature,
  bundle_signing_bytes, peer_prekey_signing_bytes,
}
use secure_messenger_lab.Client.State.{
  OlmClient, prekey_bundle, contains, insert, start_outbound_session, outbound, validate_plaintext,
  opening, opening_message, opening_initial, open_initial, open_envelope, new_client,
}
use secure_messenger_lab.Client.Bundles.{verify-prekey_bundle}
use secure_messenger_lab.Client.Opening.{Opens, Decrypted, open_envelope-Opens}
use secure_messenger_lab.Client.Opening.Initial.{Received, open_initial-Opens}
use secure_messenger_lab.Client.History.{
  Extends, client_run, run-Extends, opened_once, bundles, opens, single_session,
}
use secure_messenger_lab.Tests.Fixtures.{toy, toy_sign, fit, nonce, opened}
use secure_messenger_lab.Tests.Executable.{executable}

-- The packets decode as the given variant, and every plaintext is that of `opened`.
abbrev toy_olm : (Bytes → OlmMessage) → Olm Bytes Bytes
toy_olm variant = record {
  ed25519_key = λ a. fit 32 a;
  curve25519_key = λ a. fit 32 a;
  sign = λ a m. toy_sign (fit 32 a) m;
  generate_one_time_key = λ a. a;
  first_one_time_key = λ a. some (1 ∷ a);
  mark_keys_as_published = λ a. a;
  create_outbound_session = λ a key one. some key;
  create_inbound_session =
      λ a key body. some (record { account = a; session = key; plaintext = body });
  copy_account = λ a. a;
  copy_session = λ s. s;
  encrypt = λ s m. (0 ∷ s, some (normal m));
  decrypt = λ s m. (0 ∷ s, some []);
  write_packet = λ m. some [];
  read_packet = λ p. some (variant p);
  write_plain = λ m. some m.body;
  read_plain = λ p. some opened.message;
}

abbrev peer : VerifiedPeerPreKey
peer = record {
  signing_identity = fit 32 [];
  curve_identity = fit 32 [];
  one_time_key = fit 32 [];
  valid_until = 1300;
}

abbrev stranger : OlmClient Bytes Bytes
stranger = new_client (toy_olm normal) (ascii "bob") (nonce 7)

abbrev friend : OlmClient Bytes Bytes
friend = record stranger { session = some (ascii "session") }

abbrev after_open : OlmClient Bytes Bytes
after_open = (open_envelope (toy_olm normal) friend opened.envelope 1002).1

opens_it : open_envelope (toy_olm normal) friend opened.envelope 1002 ≡ (ok opened, after_open)
unfolding executable new_client open_envelope opening validate_plaintext contains insert
opens_it = refl

open_envelope-Opens_example :
    (session : Bytes) × (after_open.session ≡ some session)
    × (after_open.account ≡ friend.account)
    × Decrypted (toy_olm normal) friend opened.envelope.packet session opened.message
    × Opens (toy_olm normal) friend opened.envelope 1002 opened after_open
open_envelope-Opens_example =
    open_envelope-Opens (toy_olm normal) friend after_open opened.envelope 1002 opened opens_it

abbrev after_initial : OlmClient Bytes Bytes
after_initial = (open_initial (toy_olm pre_key) stranger opened.envelope peer 1002).1

opens_initial_it :
    open_initial (toy_olm pre_key) stranger opened.envelope peer 1002 ≡ (ok opened, after_initial)
unfolding executable new_client open_initial opening_initial opening_message validate_plaintext
    contains insert
opens_initial_it = refl

open_initial-Opens_example :
    (stranger.session ≡ none)
    × ((inbound : Inbound Bytes Bytes) × (after_initial.session ≡ some inbound.session)
        × (after_initial.account ≡ inbound.account)
        × Received
            (toy_olm pre_key)
            stranger
            opened.envelope.packet
            peer.curve_identity
            inbound
            opened.message)
    × Opens (toy_olm pre_key) stranger opened.envelope 1002 opened after_initial
open_initial-Opens_example =
    open_initial-Opens (toy_olm pre_key) stranger after_initial opened.envelope peer 1002 opened
      opens_initial_it

abbrev started : OlmClient Bytes Bytes
started = (start_outbound_session (toy_olm normal) stranger peer 1002).1

starts_it : start_outbound_session (toy_olm normal) stranger peer 1002 ≡ (ok tt, started)
unfolding executable new_client start_outbound_session outbound
starts_it = refl

single_session_example :
    (start_outbound_session
        (toy_olm normal)
        (client_run (toy_olm normal) started (bundles 1300 ∷ []))
        peer
        1003
      ≡ (err session_already_exists, client_run (toy_olm normal) started (bundles 1300 ∷ [])))
    × (open_initial
          (toy_olm normal)
          (client_run (toy_olm normal) started (bundles 1300 ∷ []))
          opened.envelope
          peer
          1003
        ≡ (err session_already_exists, client_run (toy_olm normal) started (bundles 1300 ∷ [])))
single_session_example =
    single_session (toy_olm normal) stranger started peer 1002 (inl starts_it) (bundles 1300 ∷ [])
      peer opened.envelope 1003

opened_once_example : ¬ (
    open_envelope
      (toy_olm normal)
      (client_run (toy_olm normal) after_open (bundles 1300 ∷ []))
      opened.envelope
      1003
    ≡ (ok opened, after_open))
opened_once_example =
    (opened_once (toy_olm normal) friend after_open opened.envelope 1002 opened (inl opens_it)
      (bundles 1300 ∷ []) opened.envelope 1003 opened after_open refl).0

run-Extends_example :
    Extends
      (toy_olm normal)
      friend
      (client_run (toy_olm normal) friend (bundles 1300 ∷ opens opened.envelope 1002 ∷ []))
run-Extends_example =
    run-Extends (toy_olm normal) friend (bundles 1300 ∷ opens opened.envelope 1002 ∷ [])

abbrev identity : Bytes
identity = fit 32 (ascii "alice")

abbrev bundle : PeerPreKey
bundle = record {
  signing_identity = identity;
  curve_identity = identity;
  one_time_key = nonce 9;
  valid_until = 1200;
  signature = toy_sign identity (peer_prekey_signing_bytes identity identity (nonce 9) 1200);
}

verify_exact_example :
    (IsTrusted toy bundle identity 1000
      → verify toy bundle identity 1000 ≡ ok (without_signature bundle))
    × (¬ IsTrusted toy bundle identity 1000
        → verify toy bundle identity 1000 ≡ err peer_verification_failed)
verify_exact_example = verify_exact toy bundle identity 1000 (omega arith)

trusts_it : verify toy bundle identity 1000 ≡ ok (without_signature bundle)
unfolding executable verify bundle_signing_bytes peer_prekey_signing_bytes
trusts_it = refl

toy_olm-SigningLaws : SigningLaws toy (toy_olm normal)
unfolding toy_sign
toy_olm-SigningLaws = record {
  verify_sign = λ a m. bytes_eq_refl (toy_sign (fit 32 a) m);
  keep_generate = λ a. refl;
}

abbrev own_bundle : PeerPreKey
own_bundle = record {
  signing_identity = fit 32 (ascii "bob");
  curve_identity = fit 32 (ascii "bob");
  one_time_key = 1 ∷ ascii "bob";
  valid_until = 1200;
  signature = toy_sign (fit 32 (ascii "bob")) (
      peer_prekey_signing_bytes (fit 32 (ascii "bob")) (fit 32 (ascii "bob")) (1 ∷ ascii "bob")
        1200);
}

hands_out : prekey_bundle (toy_olm normal) stranger 1200 ≡ (ok own_bundle, stranger)
unfolding prekey_bundle new_client
hands_out = refl

verify-prekey_bundle_example :
    verify toy own_bundle (fit 32 stranger.account) 1000 ≡ ok (without_signature own_bundle)
verify-prekey_bundle_example =
    verify-prekey_bundle toy (toy_olm normal) toy_olm-SigningLaws stranger stranger own_bundle 1200
      1000 hands_out (omega arith) (omega arith) (omega arith)
