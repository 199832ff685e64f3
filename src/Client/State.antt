-- ===== src/Client/State.antt =====
-- `OlmClient` of src/client.rs and its methods. Each returns the result and the client that it
-- leaves. What the code draws at random, the message identifier, is an argument.
use secure_messenger_lab.Prelude.{
  ℕ, Bool, true, false, Option, none, some, List, [], ◌∷◌, not, leb, ◌==◌, if◌then◌else◌,
}
use secure_messenger_lab.Errors.{
  LabError, Result, ok, err, ◌>>=◌, ◌>>◌, reject_if, missing_session, session_already_exists,
  expected_pre_key, peer_verification_failed, crypto, encoding, invalid_payload, wrong_conversation,
  message_id_mismatch, duplicate_message, unauthorized,
}
use secure_messenger_lab.Bytes.{Bytes, bytes_eq}
use secure_messenger_lab.Packets.{EncryptedPacket, VerifiedEnvelope, PlainMessage, OpenedMessage}
use secure_messenger_lab.Client.Olm.{Olm, OlmMessage, Inbound, pre_key, normal}
use secure_messenger_lab.Client.PreKeys.{PeerPreKey, VerifiedPeerPreKey, peer_prekey_signing_bytes}

abbrev pub payload_version : ℕ
payload_version = 1

-- The set of displayed identifiers is a list without repetitions.
pub record OlmClient (Account Session : Type 0) : Type 0 where
  pub account : Account
  pub session : Option Session
  pub conversation_id : Bytes
  pub displayed_messages : List Bytes

-- `HashSet::contains` and `insert`
unfoldable pub contains : List Bytes → Bytes → Bool
contains [] id = false
contains (x ∷ xs) id = let rest = contains xs id in if bytes_eq x id then true else rest

unfoldable pub insert : List Bytes → Bytes → List Bytes
unfolding contains
insert ids id = if contains ids id then ids else id ∷ ids

-- `ok_or`, and `map_err` of a call that returns an `Option` here
abbrev pub or_err {ℓ} : {A : Type ℓ} → Option A → LabError → Result A
or_err o e = elim o [ some a ↦ ok a | none ↦ err e ]

module _ {A S : Type 0} (o : Olm A S) where
  -- `OlmClient::new`, for a new account
  unfoldable pub new_client : A → Bytes → OlmClient A S
  new_client account conversation_id = record {
    account = account;
    session = none;
    conversation_id = conversation_id;
    displayed_messages = [];
  }

  -- `OlmClient::signing_identity`
  unfoldable pub signing_identity : OlmClient A S → Bytes
  signing_identity client = o.ed25519_key client.account

  unfoldable pub prekey_bundle : OlmClient A S → ℕ → Result PeerPreKey × OlmClient A S
  prekey_bundle client valid_until =
      let account = o.generate_one_time_key client.account in
      elim (o.first_one_time_key account) [
        | none ↦ (err crypto, record client { account = account })
        | some one_time_key ↦ (
          ok (record {
            signing_identity = o.ed25519_key account;
            curve_identity = o.curve25519_key account;
            one_time_key = one_time_key;
            valid_until = valid_until;
            signature = o.sign account (
                peer_prekey_signing_bytes (o.ed25519_key account) (o.curve25519_key account)
                  one_time_key valid_until);
          }),
          record client { account = o.mark_keys_as_published account },
        )
      ]

  -- The session that `start_outbound_session` creates.
  unfoldable pub outbound : OlmClient A S → VerifiedPeerPreKey → ℕ → Result S
  outbound client peer now = elim client.session [
    | some _ ↦ err session_already_exists
    | none ↦ do
      reject_if (leb peer.valid_until now) peer_verification_failed
      or_err (o.create_outbound_session client.account peer.curve_identity peer.one_time_key) crypto
  ]

  unfoldable pub start_outbound_session :
      OlmClient A S → VerifiedPeerPreKey → ℕ → Result (Unit {0}) × OlmClient A S
  start_outbound_session client peer now = elim (outbound client peer now) [
    | ok session ↦ (ok tt, record client { session = some session })
    | err e ↦ (err e, client)
  ]

  -- `seal`. The session is not staged: `encrypt` advances it also when a later step fails.
  unfoldable pub seal :
      OlmClient A S → Bytes → Bytes → ℕ → Result (Bytes × EncryptedPacket) × OlmClient A S
  seal client message_id body sent_at =
      elim (o.write_plain (record {
        version = payload_version;
        conversation_id = client.conversation_id;
        message_id = message_id;
        sent_at = sent_at;
        body = body;
      })) [
        | none ↦ (err encoding, client)
        | some encoded ↦ elim client.session [
          | none ↦ (err missing_session, client)
          | some session ↦
              let (after, encrypted) = o.encrypt session encoded in
              (
                (do
                  message ← or_err encrypted crypto
                  packet ← or_err (o.write_packet message) encoding
                  ok (message_id, packet)),
                record client { session = some after },
              )
        ]
      ]

  unfoldable pub validate_plaintext : OlmClient A S → Bytes → Bytes → Result PlainMessage
  validate_plaintext client plaintext outer_message_id = do
    message ← or_err (o.read_plain plaintext) invalid_payload
    reject_if (not (message.version == payload_version)) invalid_payload
    reject_if (not (bytes_eq message.conversation_id client.conversation_id)) wrong_conversation
    reject_if (not (bytes_eq message.message_id outer_message_id)) message_id_mismatch
    reject_if (contains client.displayed_messages message.message_id) duplicate_message
    ok message

  -- `open_initial` from the decoded message on.
  unfoldable pub opening_message :
      OlmClient A S
      → VerifiedEnvelope
      → VerifiedPeerPreKey
      → OlmMessage
      → Result (Inbound A S × PlainMessage)
  opening_message client envelope sender (normal _) = err expected_pre_key
  opening_message client envelope sender (pre_key body) = do
    inbound ←
        or_err (o.create_inbound_session (o.copy_account client.account) sender.curve_identity body)
          crypto
    plain ← validate_plaintext client inbound.plaintext envelope.message_id
    ok (inbound, plain)

  -- The checks of `open_initial`, up to the candidate account and session.
  unfoldable pub opening_initial :
      OlmClient A S
      → VerifiedEnvelope
      → VerifiedPeerPreKey
      → ℕ
      → Result (Inbound A S × PlainMessage)
  opening_initial client envelope sender now = elim client.session [
    | some _ ↦ err session_already_exists
    | none ↦ do
      reject_if (leb envelope.expires_at now) unauthorized
      message ← or_err (o.read_packet envelope.packet) encoding
      opening_message client envelope sender message
  ]

  unfoldable pub open_initial :
      OlmClient A S
      → VerifiedEnvelope
      → VerifiedPeerPreKey
      → ℕ
      → Result OpenedMessage × OlmClient A S
  open_initial client envelope sender now = elim (opening_initial client envelope sender now) [
    | err e ↦ (err e, client)
    | ok (inbound, plain) ↦ (
      ok (record { message = plain; envelope = envelope }),
      record client {
        account = inbound.account;
        session = some inbound.session;
        displayed_messages = insert client.displayed_messages plain.message_id;
      },
    )
  ]

  -- The checks of `open`, up to the candidate session, which is restored from the pickle of the
  -- client's own and advanced by `decrypt`.
  unfoldable pub opening : OlmClient A S → VerifiedEnvelope → ℕ → Result (S × PlainMessage)
  opening client envelope now = do
    reject_if (leb envelope.expires_at now) unauthorized
    message ← or_err (o.read_packet envelope.packet) encoding
    session ← or_err client.session missing_session
    let decrypted = o.decrypt (o.copy_session session) message
    plaintext ← or_err decrypted.1 crypto
    plain ← validate_plaintext client plaintext envelope.message_id
    ok (decrypted.0, plain)

  unfoldable pub open_envelope :
      OlmClient A S → VerifiedEnvelope → ℕ → Result OpenedMessage × OlmClient A S
  open_envelope client envelope now = elim (opening client envelope now) [
    | err e ↦ (err e, client)
    | ok (session, plain) ↦ (
      ok (record { message = plain; envelope = envelope }),
      record client {
        session = some session;
        displayed_messages = insert client.displayed_messages plain.message_id;
      },
    )
  ]
