-- ===== src/Client/Opening.antt =====
-- What the client's `open` accepts, and what the openings leave behind.
pub mod Initial
use secure_messenger_lab.Prelude.{
  ℕ, ◌<◌, ◌≡◌, ◌≢◌, ap, true, false, some, none, Option, List, arith, Option-cases, inl, inr, subst,
  leb,
}
use secure_messenger_lab.Errors.{
  LabError, ok, err, >>=-eq-ok, Result-cases, reject_if, unauthorized, encoding, missing_session,
  crypto, ◌>>=◌, ◌>>◌,
}
use secure_messenger_lab.Bytes.{Bytes}
use secure_messenger_lab.Bytes.Laws.{bytes_eq_iff, bytes_eq_refl}
use secure_messenger_lab.Packets.{VerifiedEnvelope, PlainMessage, OpenedMessage}
use secure_messenger_lab.Client.Olm.{Olm, Inbound, OlmMessage, pre_key, normal}
use secure_messenger_lab.Client.PreKeys.{VerifiedPeerPreKey}
use secure_messenger_lab.Client.State.{
  OlmClient, payload_version, contains, insert, validate_plaintext, opening, opening_initial,
  opening_message, open_initial, open_envelope, or_err, outbound, start_outbound_session,
}

pub contains-insert : (ids : List Bytes) (id : Bytes) → contains (insert ids id) id ≡ true
unfolding insert contains
contains-insert ids id = ground (arith, bytes_eq_refl id)

pub contains-insert_other :
    (ids : List Bytes) (id x : Bytes) → contains ids x ≡ true → contains (insert ids id) x ≡ true
unfolding insert contains
contains-insert_other ids id x h = ground arith

module _ {A S : Type 0} (o : Olm A S) where
  -- A decrypted payload of the client's conversation, in its version, under the identifier of the
  -- envelope and not displayed before.
  pub record IsValid (client : OlmClient A S) (outer : Bytes) (plain : PlainMessage) : Type 0 where
    pub version : plain.version ≡ payload_version
    pub ours : plain.conversation_id ≡ client.conversation_id
    pub same_id : plain.message_id ≡ outer
    pub fresh : contains client.displayed_messages outer ≡ false

  pub validate_plaintext-ok :
      (client : OlmClient A S) (plaintext outer : Bytes) {plain : PlainMessage}
      → validate_plaintext o client plaintext outer ≡ ok plain
      → (o.read_plain plaintext ≡ some plain) × IsValid client outer plain
  unfolding validate_plaintext
  validate_plaintext-ok client plaintext outer {plain} e =
      elim (Option-cases (o.read_plain plaintext)) [
        | inl none_read ↦ absurd (ground arith)
        | inr (message, read) ↦
            let same : message ≡ plain = ground arith in
            (
              cc (read, same),
              record {
                version = ground arith;
                ours = ground (arith, bytes_eq_iff message.conversation_id client.conversation_id);
                same_id = ground (arith, bytes_eq_iff message.message_id outer);
                fresh = ground (arith, bytes_eq_iff message.message_id outer);
              },
            )
      ]

  -- The message is what the client's session decrypts from the packet, and the session is what that
  -- decryption leaves.
  pub record Decrypted (client : OlmClient A S) (packet : Bytes) (session : S)
      (plain : PlainMessage) : Type 0 where
    pub held : S
    pub message : OlmMessage
    pub plaintext : Bytes
    pub in_use : client.session ≡ some held
    pub framed : o.read_packet packet ≡ some message
    pub decrypts : (o.decrypt (o.copy_session held) message).1 ≡ some plaintext
    pub advanced : session ≡ (o.decrypt (o.copy_session held) message).0
    pub reads : o.read_plain plaintext ≡ some plain

  -- What an envelope that is opened has brought, and what the client has become.
  pub record Opens (client : OlmClient A S) (envelope : VerifiedEnvelope) (now : ℕ)
      (opened : OpenedMessage) (client' : OlmClient A S) : Type 0 where
    pub live : now < envelope.expires_at
    pub handed_on : opened.envelope ≡ envelope
    pub valid : IsValid client envelope.message_id opened.message
    pub displayed :
        client'.displayed_messages ≡ insert client.displayed_messages envelope.message_id
    pub conversation : client'.conversation_id ≡ client.conversation_id
    pub in_session : client'.session ≢ none

  pub or_err-ok {ℓ} :
      {B : Type ℓ} (found : Option B) (x : LabError) {b : B}
      → or_err found x ≡ ok b
      → found ≡ some b
  or_err-ok found x {b} e = elim (Option-cases found) [
    | inl missing ↦ absurd (ground arith)
    | inr (_, there) ↦ ground arith
  ]

  pub IsValid-same :
      (client : OlmClient A S) (outer : Bytes) {x y : PlainMessage}
      → IsValid client outer x
      → x ≡ y
      → IsValid client outer y
  IsValid-same client outer v p = subst (IsValid client outer) p v

  opening-ok :
      (client : OlmClient A S) (envelope : VerifiedEnvelope) (now : ℕ) {session : S}
      {plain : PlainMessage}
      → opening o client envelope now ≡ ok (session, plain)
      → (now < envelope.expires_at)
        × IsValid client envelope.message_id plain
        × Decrypted client envelope.packet session plain
  unfolding opening
  opening-ok client envelope now {session} {plain} e =
      let (_, live, e1) = >>=-eq-ok (reject_if (leb envelope.expires_at now) unauthorized) _ e in
      let (message, framed, e2) =
        >>=-eq-ok (or_err (o.read_packet envelope.packet) encoding) _ e1 in
      let (held, in_use, e3) = >>=-eq-ok (or_err client.session missing_session) _ e2 in
      let (plaintext, decrypts, e4) =
        >>=-eq-ok (or_err (o.decrypt (o.copy_session held) message).1 crypto) _ e3 in
      let (read, validated, e5) =
        >>=-eq-ok (validate_plaintext o client plaintext envelope.message_id) _ e4 in
      let facts = validate_plaintext-ok client plaintext envelope.message_id validated in
      let same : read ≡ plain = ground arith in
      (
        ground arith,
        IsValid-same client envelope.message_id facts.1 same,
        record {
          held = held;
          message = message;
          plaintext = plaintext;
          in_use = or_err-ok client.session missing_session in_use;
          framed = or_err-ok (o.read_packet envelope.packet) encoding framed;
          decrypts = or_err-ok (o.decrypt (o.copy_session held) message).1 crypto decrypts;
          advanced = ground arith;
          reads = cc (facts.0, same);
        },
      )

  -- A successful `open` comes from an envelope that has not expired; its message is what the
  -- client's session decrypts from the envelope's packet, and is in version 1, of the client's
  -- conversation, under the envelope's identifier, and not displayed before. The envelope is handed
  -- on, its identifier counts as displayed, and the client keeps its account and its conversation
  -- and has the session that the decryption left.
  pub open_envelope-Opens :
      (client client' : OlmClient A S) (envelope : VerifiedEnvelope) (now : ℕ)
      (opened : OpenedMessage)
      → open_envelope o client envelope now ≡ (ok opened, client')
      → (session : S) × (client'.session ≡ some session)
        × (client'.account ≡ client.account)
        × Decrypted client envelope.packet session opened.message
        × Opens client envelope now opened client'
  unfolding open_envelope
  open_envelope-Opens client client' envelope now opened e =
      elim (Result-cases (opening o client envelope now)) [
        | inr (x, refused) ↦ absurd (ground arith)
        | inl ((session, plain), accepted) ↦
            let (live, valid, decrypted) = opening-ok client envelope now accepted in
            let same : plain ≡ opened.message = ground arith in
            (
              session,
              ground arith,
              ground arith,
              subst (Decrypted client envelope.packet session) same decrypted,
              record {
                live = live;
                handed_on = ground arith;
                valid = IsValid-same client envelope.message_id valid same;
                displayed = ground (arith, valid.same_id);
                conversation = ground arith;
                in_session = ground arith;
              },
            )
      ]

  pub rejected_unchanged :
      (client client' : OlmClient A S) (now : ℕ) (x : LabError)
      → ((envelope : VerifiedEnvelope)
          → open_envelope o client envelope now ≡ (err x, client')
          → client' ≡ client)
        × ((envelope : VerifiedEnvelope) (sender : VerifiedPeerPreKey)
            → open_initial o client envelope sender now ≡ (err x, client')
            → client' ≡ client)
        × ((peer : VerifiedPeerPreKey)
            → start_outbound_session o client peer now ≡ (err x, client')
            → client' ≡ client)
  unfolding open_envelope open_initial start_outbound_session
  rejected_unchanged client client' now x = (
    λ envelope e. elim (Result-cases (opening o client envelope now)) [
      | inl ((session, plain), accepted) ↦ absurd (ground arith)
      | inr (y, refused) ↦ ground arith
    ],
    λ envelope sender e. elim (Result-cases (opening_initial o client envelope sender now)) [
      | inl ((inbound, plain), accepted) ↦ absurd (ground arith)
      | inr (y, refused) ↦ ground arith
    ],
    λ peer e. elim (Result-cases (outbound o client peer now)) [
      | inl (session, accepted) ↦ absurd (ground arith)
      | inr (y, refused) ↦ ground arith
    ],
  )
