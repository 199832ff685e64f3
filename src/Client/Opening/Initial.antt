-- ===== src/Client/Opening/Initial.antt =====
-- What `open_initial` accepts, and what it leaves behind.
use secure_messenger_lab.Prelude.{
  ℕ, ◌<◌, ◌≡◌, ap, some, none, arith, Option-cases, inl, inr, subst, leb,
}
use secure_messenger_lab.Errors.{
  ok, >>=-eq-ok, Result-cases, reject_if, unauthorized, encoding, crypto, ◌>>=◌, ◌>>◌,
}
use secure_messenger_lab.Bytes.{Bytes}
use secure_messenger_lab.Packets.{VerifiedEnvelope, PlainMessage, OpenedMessage}
use secure_messenger_lab.Client.Olm.{Olm, Inbound, OlmMessage, pre_key, normal}
use secure_messenger_lab.Client.PreKeys.{VerifiedPeerPreKey}
use secure_messenger_lab.Client.State.{
  OlmClient, validate_plaintext, opening_initial, opening_message, open_initial, or_err,
}
use secure_messenger_lab.Client.Opening.{
  IsValid, Opens, IsValid-same, or_err-ok, validate_plaintext-ok,
}

module _ {A S : Type 0} (o : Olm A S) where
  -- The message is the plaintext of the inbound session that the client's account creates from the
  -- sender's identity and the pre-key message in the packet.
  pub record Received (client : OlmClient A S) (packet identity : Bytes) (inbound : Inbound A S)
      (plain : PlainMessage) : Type 0 where
    pub body : Bytes
    pub framed : o.read_packet packet ≡ some (pre_key body)
    pub creates :
        o.create_inbound_session (o.copy_account client.account) identity body ≡ some inbound
    pub reads : o.read_plain inbound.plaintext ≡ some plain

  opening_message-ok :
      (client : OlmClient A S) (envelope : VerifiedEnvelope) (sender : VerifiedPeerPreKey)
      (message : OlmMessage) {inbound : Inbound A S} {plain : PlainMessage}
      → o.read_packet envelope.packet ≡ some message
      → opening_message o client envelope sender message ≡ ok (inbound, plain)
      → IsValid o client envelope.message_id plain
        × Received client envelope.packet sender.curve_identity inbound plain
  unfolding opening_message
  opening_message-ok client envelope sender (normal body) framed p = absurd (ground arith)
  opening_message-ok client envelope sender (pre_key body) {inbound} {plain} framed p =
      let (brought, creates, e1) =
        >>=-eq-ok
          (or_err
            (o.create_inbound_session (o.copy_account client.account) sender.curve_identity body)
            crypto)
          _ p in
      let (read, validated, e2) =
        >>=-eq-ok (validate_plaintext o client brought.plaintext envelope.message_id) _ e1 in
      let facts = validate_plaintext-ok o client brought.plaintext envelope.message_id validated in
      let same : read ≡ plain = ground arith in
      let adopted : brought ≡ inbound = ground arith in
      (
        IsValid-same o client envelope.message_id facts.1 same,
        record {
          body = body;
          framed = framed;
          creates = cc (
            or_err-ok o
                (o.create_inbound_session (o.copy_account client.account) sender.curve_identity
                  body)
                crypto creates,
            adopted,
          );
          reads = cc (facts.0, same, ap (λ i. i.plaintext) adopted);
        },
      )

  opening_initial-ok :
      (client : OlmClient A S) (envelope : VerifiedEnvelope) (sender : VerifiedPeerPreKey) (now : ℕ)
      {inbound : Inbound A S} {plain : PlainMessage}
      → opening_initial o client envelope sender now ≡ ok (inbound, plain)
      → (client.session ≡ none)
        × (now < envelope.expires_at)
        × IsValid o client envelope.message_id plain
        × Received client envelope.packet sender.curve_identity inbound plain
  unfolding opening_initial
  opening_initial-ok client envelope sender now {inbound} {plain} e =
      elim (Option-cases client.session) [
        | inr (s, held) ↦ absurd (ground arith)
        | inl unused ↦
            let checks : (do
              reject_if (leb envelope.expires_at now) unauthorized
              message ← or_err (o.read_packet envelope.packet) encoding
              opening_message o client envelope sender message)
                ≡ ok (inbound, plain) =
              ground arith in
            let (_, live, e1) =
              >>=-eq-ok (reject_if (leb envelope.expires_at now) unauthorized) _ checks in
            let (message, framed, e2) =
              >>=-eq-ok (or_err (o.read_packet envelope.packet) encoding) _ e1 in
            let facts =
              opening_message-ok client envelope sender message
                (or_err-ok o (o.read_packet envelope.packet) encoding framed) e2 in
            (unused, ground arith, facts.0, facts.1)
      ]

  -- A successful `open_initial` promises of its envelope, its message's version, conversation and
  -- identifier and the displayed identifiers the same as `open`. The client had no session before;
  -- the message is the plaintext of the inbound session that the client's account creates from the
  -- sender's identity key and the pre-key message in the packet, and the client has that session
  -- and the account which its creation left.
  pub open_initial-Opens :
      (client client' : OlmClient A S) (envelope : VerifiedEnvelope) (sender : VerifiedPeerPreKey)
      (now : ℕ) (opened : OpenedMessage)
      → open_initial o client envelope sender now ≡ (ok opened, client')
      → (client.session ≡ none)
        × ((inbound : Inbound A S) × (client'.session ≡ some inbound.session)
            × (client'.account ≡ inbound.account)
            × Received client envelope.packet sender.curve_identity inbound opened.message)
        × Opens o client envelope now opened client'
  unfolding open_initial
  open_initial-Opens client client' envelope sender now opened e =
      elim (Result-cases (opening_initial o client envelope sender now)) [
        | inr (x, refused) ↦ absurd (ground arith)
        | inl ((inbound, plain), accepted) ↦
            let (unused, live, valid, received) =
              opening_initial-ok client envelope sender now accepted in
            let same : plain ≡ opened.message = ground arith in
            (
              unused,
              (
                inbound,
                ground arith,
                ground arith,
                subst (Received client envelope.packet sender.curve_identity inbound) same received,
              ),
              record {
                live = live;
                handed_on = ground arith;
                valid = IsValid-same o client envelope.message_id valid same;
                displayed = ground (arith, valid.same_id);
                conversation = ground arith;
                in_session = ground arith;
              },
            )
      ]
