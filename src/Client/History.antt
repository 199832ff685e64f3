-- ===== src/Client/History.antt =====
-- Histories of a client's calls.
use secure_messenger_lab.Prelude.{
  ℕ, ◌≡◌, sym, subst, ◌⊎◌, ◌≢◌, refl, true, none, List, [], ◌∷◌, arith, inl, inr, Option-cases,
}
use mathlib.Core.Path.{subst₂}
use secure_messenger_lab.Errors.{Result, LabError, err, ok, Result-cases, session_already_exists}
use secure_messenger_lab.Bytes.{Bytes}
use secure_messenger_lab.Packets.{VerifiedEnvelope, OpenedMessage}
use secure_messenger_lab.Client.Olm.{Olm}
use secure_messenger_lab.Client.PreKeys.{VerifiedPeerPreKey}
use secure_messenger_lab.Client.State.{
  OlmClient, contains, prekey_bundle, outbound, start_outbound_session, seal, open_initial,
  opening_initial, open_envelope,
}
use secure_messenger_lab.Client.Opening.Initial.{open_initial-Opens}
use secure_messenger_lab.Client.Opening.{
  Opens, contains-insert, contains-insert_other, open_envelope-Opens, rejected_unchanged,
}

pub data ClientCall : Type 0 where
  bundles : ℕ → ClientCall
  starts : VerifiedPeerPreKey → ℕ → ClientCall
  seals : Bytes → Bytes → ℕ → ClientCall
  opens : VerifiedEnvelope → ℕ → ClientCall
  opens_initial : VerifiedEnvelope → VerifiedPeerPreKey → ℕ → ClientCall

module _ {A S : Type 0} (o : Olm A S) where
  abbrev pub client_step : OlmClient A S → ClientCall → OlmClient A S
  client_step client (bundles valid_until) = (prekey_bundle o client valid_until).1
  client_step client (starts peer now) = (start_outbound_session o client peer now).1
  client_step client (seals message_id body sent_at) = (seal o client message_id body sent_at).1
  client_step client (opens envelope now) = (open_envelope o client envelope now).1
  client_step client (opens_initial envelope sender now) =
      (open_initial o client envelope sender now).1

  unfoldable pub client_run : OlmClient A S → List ClientCall → OlmClient A S
  client_run client [] = client
  client_run client (call ∷ calls) = client_run (client_step client call) calls

  -- What a client never loses: its conversation, its session and its displayed identifiers.
  pub record Extends (client client' : OlmClient A S) : Type 0 where
    pub conversation : client'.conversation_id ≡ client.conversation_id
    pub session : client.session ≢ none → client'.session ≢ none
    pub displayed :
        (id : Bytes)
        → contains client.displayed_messages id ≡ true
        → contains client'.displayed_messages id ≡ true

  Extends-refl : (client : OlmClient A S) → Extends client client
  Extends-refl client = record { conversation = refl; session = λ h. h; displayed = λ id h. h }

  Extends-trans : (x y z : OlmClient A S) → Extends x y → Extends y z → Extends x z
  Extends-trans x y z p q = record {
    conversation = cc (p.conversation, q.conversation);
    session = λ h. q.session (p.session h);
    displayed = λ id h. q.displayed id (p.displayed id h);
  }

  Extends-same :
      (client client' : OlmClient A S)
      → client'.conversation_id ≡ client.conversation_id
      → client'.displayed_messages ≡ client.displayed_messages
      → (client.session ≢ none → client'.session ≢ none)
      → Extends client client'
  Extends-same client client' conversation displayed session = record {
    conversation = conversation;
    session = session;
    displayed = λ id h. ground (arith, displayed, h);
  }

  envelope-Opens :
      (client client' : OlmClient A S) (envelope : VerifiedEnvelope) (now : ℕ)
      (opened : OpenedMessage)
      → open_envelope o client envelope now ≡ (ok opened, client')
      → Opens o client envelope now opened client'
  envelope-Opens client client' envelope now opened e =
      let (_, _, _, _, h) = open_envelope-Opens o client client' envelope now opened e in h

  initial-Opens :
      (client client' : OlmClient A S) (envelope : VerifiedEnvelope) (sender : VerifiedPeerPreKey)
      (now : ℕ) (opened : OpenedMessage)
      → open_initial o client envelope sender now ≡ (ok opened, client')
      → Opens o client envelope now opened client'
  initial-Opens client client' envelope sender now opened e =
      let (_, _, h) = open_initial-Opens o client client' envelope sender now opened e in h

  Opens-Extends :
      (client client' : OlmClient A S) (envelope : VerifiedEnvelope) (now : ℕ)
      (opened : OpenedMessage)
      → Opens o client envelope now opened client'
      → Extends client client'
  Opens-Extends client client' envelope now opened h = record {
    conversation = h.conversation;
    session = λ _. h.in_session;
    displayed = λ id k.
        subst (λ ids. contains ids id ≡ true) (sym h.displayed)
          (contains-insert_other client.displayed_messages envelope.message_id id k);
  }

  -- A call keeps the client, or opens an envelope.
  result-Extends {ℓ} :
      {B : Type ℓ} (client : OlmClient A S) (done : Result B × OlmClient A S)
      → ((b : B) (client' : OlmClient A S) → done ≡ (ok b, client') → Extends client client')
      → ((x : LabError) (client' : OlmClient A S) → done ≡ (err x, client') → client' ≡ client)
      → Extends client done.1
  result-Extends client (ok b, client') good bad = good b client' refl
  result-Extends client (err x, client') good bad =
      subst (Extends client) (sym (bad x client' refl)) (Extends-refl client)

  bundle-Extends : (client : OlmClient A S) (t : ℕ) → Extends client (prekey_bundle o client t).1
  unfolding prekey_bundle
  bundle-Extends client t =
      Extends-same client (prekey_bundle o client t).1 (ground arith) (ground arith)
        (λ h. ground (arith, h))

  seal-Extends :
      (client : OlmClient A S) (message_id body : Bytes) (sent_at : ℕ)
      → Extends client (seal o client message_id body sent_at).1
  unfolding seal
  seal-Extends client message_id body sent_at =
      Extends-same client (seal o client message_id body sent_at).1 (ground arith) (ground arith)
        (λ h. ground (arith, h))

  start-Extends :
      (client : OlmClient A S) (peer : VerifiedPeerPreKey) (now : ℕ)
      → Extends client (start_outbound_session o client peer now).1
  unfolding start_outbound_session
  start-Extends client peer now = elim (Result-cases (outbound o client peer now)) [
    | inl (session, e) ↦
        Extends-same client _ (ground arith) (ground arith) (λ h. ground (arith, e, h))
    | inr (x, e) ↦ subst (Extends client) (ground arith) (Extends-refl client)
  ]

  step-Extends :
      (client : OlmClient A S) (call : ClientCall) → Extends client (client_step client call)
  step-Extends client (bundles valid_until) = bundle-Extends client valid_until
  step-Extends client (starts peer now) = start-Extends client peer now
  step-Extends client (seals message_id body sent_at) = seal-Extends client message_id body sent_at
  step-Extends client (opens envelope now) =
      result-Extends client (open_envelope o client envelope now)
        (λ opened client' e.
          Opens-Extends client client' envelope now opened
            (envelope-Opens client client' envelope now opened e))
        (λ x client' e. (rejected_unchanged o client client' now x).0 envelope e)
  step-Extends client (opens_initial envelope sender now) =
      result-Extends client (open_initial o client envelope sender now)
        (λ opened client' e.
          Opens-Extends client client' envelope now opened
            (initial-Opens client client' envelope sender now opened e))
        (λ x client' e. (rejected_unchanged o client client' now x).1 envelope sender e)

  -- Whatever calls a client has answered, it has its conversation still, it has a session if it had
  -- one, and an identifier that it has displayed counts as displayed.
  pub run-Extends :
      (client : OlmClient A S) (calls : List ClientCall) → Extends client (client_run client calls)
  unfolding client_run
  run-Extends client [] = Extends-refl client
  run-Extends client (call ∷ calls) =
      Extends-trans client (client_step client call) (client_run (client_step client call) calls)
        (step-Extends client call) (run-Extends (client_step client call) calls)

  -- Once `open` or `open_initial` has succeeded on an envelope, no later `open` or `open_initial` of
  -- an envelope with that message identifier succeeds, whatever calls the client answers in between.
  pub opened_once :
      (client client' : OlmClient A S) (first : VerifiedEnvelope) (now : ℕ) (opened : OpenedMessage)
      → (open_envelope o client first now ≡ (ok opened, client'))
        ⊎ ((sender : VerifiedPeerPreKey) × (open_initial o client first sender now
              ≡ (ok opened, client')))
      → (calls : List ClientCall) (second : VerifiedEnvelope) (later : ℕ) (again : OpenedMessage)
        (after : OlmClient A S)
      → second.message_id ≡ first.message_id
      → ¬ (open_envelope o (client_run client' calls) second later ≡ (ok again, after))
        × ((sender : VerifiedPeerPreKey)
            → ¬ (open_initial o (client_run client' calls) second sender later ≡ (ok again, after)))
  opened_once client client' first now opened e calls second later again after same =
      let seen : contains (client_run client' calls).displayed_messages second.message_id ≡ true =
        shown e in
      (
        λ f.
            let fresh = (envelope-Opens _ after second later again f).valid.fresh in
            absurd (ground (arith, seen, fresh)),
        λ sender f.
            let fresh = (initial-Opens _ after second sender later again f).valid.fresh in
            absurd (ground (arith, seen, fresh)),
      )
    where
      shown_by :
          Opens o client first now opened client'
          → contains (client_run client' calls).displayed_messages second.message_id ≡ true
      shown_by h = (run-Extends client' calls).displayed second.message_id (
          subst₂ (λ ids id. contains ids id ≡ true) (sym h.displayed) (sym same)
            (contains-insert client.displayed_messages first.message_id))

      shown :
          (open_envelope o client first now ≡ (ok opened, client'))
            ⊎ ((sender : VerifiedPeerPreKey) × (open_initial o client first sender now
                  ≡ (ok opened, client')))
          → contains (client_run client' calls).displayed_messages second.message_id ≡ true
      shown (inl h) = shown_by (envelope-Opens client client' first now opened h)
      shown (inr (sender, h)) = shown_by (initial-Opens client client' first sender now opened h)

  started-has_session :
      (client after : OlmClient A S) (peer : VerifiedPeerPreKey) (now : ℕ)
      → start_outbound_session o client peer now ≡ (ok tt, after)
      → after.session ≢ none
  unfolding start_outbound_session
  started-has_session client after peer now e = elim (Result-cases (outbound o client peer now)) [
    | inl (session, made) ↦ ground arith
    | inr (x, refused) ↦ absurd (ground arith)
  ]

  session_held :
      (client : OlmClient A S)
      → client.session ≢ none
      → (peer : VerifiedPeerPreKey) (envelope : VerifiedEnvelope) (now : ℕ)
      → (start_outbound_session o client peer now ≡ (err session_already_exists, client))
        × (open_initial o client envelope peer now ≡ (err session_already_exists, client))
  unfolding start_outbound_session outbound open_initial opening_initial
  session_held client h peer envelope now = elim (Option-cases client.session) [
    | inl missing ↦ absurd (h missing)
    | inr (s, held) ↦ (rw held, rw held)
  ]

  -- Once a client has begun a session by `start_outbound_session` or `open_initial`, and whatever
  -- calls it answers from then on, `start_outbound_session` and `open_initial` answer
  -- `SessionAlreadyExists` and leave it as it is.
  pub single_session :
      (client after : OlmClient A S) (first : VerifiedPeerPreKey) (now : ℕ)
      → (start_outbound_session o client first now ≡ (ok tt, after))
        ⊎ ((envelope : VerifiedEnvelope) × (opened : OpenedMessage) × (open_initial o client
                envelope first now
              ≡ (ok opened, after)))
      → (calls : List ClientCall) (peer : VerifiedPeerPreKey) (envelope : VerifiedEnvelope)
        (later : ℕ)
      → (start_outbound_session o (client_run after calls) peer later
          ≡ (err session_already_exists, client_run after calls))
        × (open_initial o (client_run after calls) envelope peer later
            ≡ (err session_already_exists, client_run after calls))
  single_session client after first now began calls peer envelope later =
      session_held (client_run after calls) ((run-Extends after calls).session (has began)) peer
        envelope later
    where
      has :
          (start_outbound_session o client first now ≡ (ok tt, after))
            ⊎ ((envelope : VerifiedEnvelope) × (opened : OpenedMessage) × (open_initial o client
                    envelope first now
                  ≡ (ok opened, after)))
          → after.session ≢ none
      has (inl e) = started-has_session client after first now e
      has (inr (envelope, opened, e)) =
          (initial-Opens client after envelope first now opened e).in_session
