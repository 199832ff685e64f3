-- ===== src/Relay/Delivery.antt =====
-- What a recipient gets from `fetch`.
use secure_messenger_lab.Prelude.{
  ℕ, ◌≡◌, refl, sym, ◌∙◌, ap, ◌&&◌, true, false, some, List, [], ◌∷◌, ◌⊎◌, arith, All, All-map₂,
  All-intro, All-mapped, map, ltb, subst,
}
use secure_messenger_lab.Errors.{ok, >>=-eq-ok}
use secure_messenger_lab.Bytes.{Bytes, bytes_eq}
use secure_messenger_lab.Bytes.Laws.{bytes_eq_iff}
use secure_messenger_lab.Crypto.{Crypto}
use secure_messenger_lab.Packets.{StoredEnvelope}
use secure_messenger_lab.Capability.{FetchRequest, ReceiveCapability, verify_envelope}
use secure_messenger_lab.Capability.Envelopes.{verified, verify_envelope_exact}
use secure_messenger_lab.Table.{select_where, find_where}
use secure_messenger_lab.Table.Laws.{select_where-delete_where, select_where-All, All-select_where}
use secure_messenger_lab.Relay.Store.{Mailbox, Message, Tables, Relay, Faults}
use secure_messenger_lab.Relay.Sql.{of_queue, message_expired}
use secure_messenger_lab.Relay.Success.{purged}
use secure_messenger_lab.Relay.Fetch.{decode_row, decode_rows, fetch}
use secure_messenger_lab.Relay.Effects.Fetch.{fetch-ok}
use secure_messenger_lab.Relay.Authentic.{IsAuthentic, Signed}

-- A row as its recipient sees it.
abbrev pub envelope : Bytes → Message → StoredEnvelope
envelope queue_id m = record {
  queue_id = queue_id;
  message_id = m.message_id;
  packet = m.ciphertext;
  expires_at = m.expires_at;
  sender_signature = m.sender_signature;
}

-- The queue's messages that have not expired, oldest first.
abbrev pub pending : Bytes → ℕ → List Message → List Message
pending queue_id now = select_where λ m. bytes_eq m.queue_id queue_id && ltb now m.expires_at

module _ (c : Crypto) (queue_id : Bytes) where
  decode_row-envelope :
      (m : Message) {e : StoredEnvelope} → decode_row c queue_id m ≡ ok e → e ≡ envelope queue_id m
  unfolding decode_row
  decode_row-envelope m {e} h = ground arith

  decode_rows-envelopes :
      (ms : List Message) {es : List StoredEnvelope}
      → decode_rows c queue_id ms ≡ ok es
      → es ≡ map (envelope queue_id) ms
  unfolding decode_rows
  decode_rows-envelopes [] h = ground arith
  decode_rows-envelopes (m ∷ ms) {es} h =
      let (e, first, h1) = >>=-eq-ok (decode_row c queue_id m) _ h in
      let (rest, later, done) = >>=-eq-ok (decode_rows c queue_id ms) _ h1 in
      cc (decode_row-envelope m first, decode_rows-envelopes ms later)

-- The sweep at `now` spares what is pending at `now`.
pub pending-purged :
    (queue_id : Bytes) (now : ℕ) (t : Tables)
    → pending queue_id now (purged now t).messages ≡ pending queue_id now t.messages
pending-purged queue_id now t = select_where-delete_where (message_expired now) _ t.messages (
    All-intro
      {P = λ m.
        ((bytes_eq m.queue_id queue_id && ltb now m.expires_at) ≡ false)
        ⊎ (message_expired now m ≡ false)}
      (λ m. ground arith) t.messages)

module _ (c : Crypto) (fails : Faults) (r r' : Relay) (request : FetchRequest) (now : ℕ)
    (es : List StoredEnvelope) (fetched : fetch c fails r request now ≡ (ok es, r')) where
  -- A successful fetch returns exactly the envelopes of the queue's messages that have not expired,
  -- in the order in which they were queued, and deletes no message but those that have expired.
  pub fetch_exact :
      (es ≡ map (envelope request.queue_id) (pending request.queue_id now r.tables.messages))
      × (r'.tables.messages ≡ (purged now r.tables).messages)
      × (r'.tables.tombstones ≡ (purged now r.tables).tombstones)
      × (r'.tables.mailboxes ≡ r.tables.mailboxes)
  fetch_exact =
      let (_, _, facts) = fetch-ok c fails r r' request now es fetched in
      (
        decode_rows-envelopes c request.queue_id _ facts.decoded
            ∙ ap (map (envelope request.queue_id)) (pending-purged request.queue_id now r.tables),
        ap (λ t. t.messages) facts.after,
        ap (λ t. t.tombstones) facts.after,
        ap (λ t. t.mailboxes) facts.after,
      )

module _ (c : Crypto) (cap : ReceiveCapability) (now : ℕ) where
  -- The envelope passes the recipient's check.
  abbrev pub IsAccepted : StoredEnvelope → Type 0
  IsAccepted e = verify_envelope c cap e now ≡ ok (verified e)

  pending_row-IsAccepted :
      (boxes : List Mailbox) (m : Message)
      → ((b : Mailbox)
          → find_where (of_queue cap.queue_id) boxes ≡ some b
          → b.send_key ≡ cap.send_verification_key)
      → (bytes_eq m.queue_id cap.queue_id && ltb now m.expires_at) ≡ true
      → Signed c boxes m
      → IsAccepted (envelope cap.queue_id m)
  pending_row-IsAccepted boxes m keyed live s =
      let own : m.queue_id ≡ cap.queue_id = ground (arith, bytes_eq_iff m.queue_id cap.queue_id) in
      let found : find_where (of_queue cap.queue_id) boxes ≡ some s.mailbox =
        subst (λ q. find_where (of_queue q) boxes ≡ some s.mailbox) own s.registered in
      (verify_envelope_exact c cap (envelope cap.queue_id m) now).0 (record {
        own_queue = refl;
        live = ground arith;
        signed = cc (keyed s.mailbox found, own, s.signed);
      })

-- If the queue's mailbox was registered with the send key that the recipient holds, and the relay's
-- messages are authentic, then the recipient's `verify_envelope` accepts, at the time of the fetch,
-- every envelope of a successful fetch.
pub fetch-IsAccepted :
    (c : Crypto) (fails : Faults) (r r' : Relay) (cap : ReceiveCapability) (request : FetchRequest)
    (now : ℕ) (es : List StoredEnvelope)
    → IsAuthentic c r.tables
    → ((b : Mailbox)
        → find_where (of_queue cap.queue_id) r.tables.mailboxes ≡ some b
        → b.send_key ≡ cap.send_verification_key)
    → request.queue_id ≡ cap.queue_id
    → fetch c fails r request now ≡ (ok es, r')
    → All (IsAccepted c cap now) es
fetch-IsAccepted c fails r r' cap request now es authentic keyed same fetched =
    let contents : es ≡ map (envelope cap.queue_id) (pending cap.queue_id now r.tables.messages) =
      subst (λ q. es ≡ map (envelope q) (pending q now r.tables.messages)) same
        (fetch_exact c fails r r' request now es fetched).0 in
    subst (All (IsAccepted c cap now)) (sym contents) (
      All-mapped (IsAccepted c cap now) (envelope cap.queue_id)
        (pending cap.queue_id now r.tables.messages)
        (All-map₂ (λ m live s. pending_row-IsAccepted c cap now r.tables.mailboxes m keyed live s)
          (pending cap.queue_id now r.tables.messages) (select_where-All _ r.tables.messages)
          (All-select_where _ (Signed c r.tables.mailboxes) r.tables.messages authentic)))
