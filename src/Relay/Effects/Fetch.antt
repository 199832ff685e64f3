-- ===== src/Relay/Effects/Fetch.antt =====
-- What a successful `fetch` has done.
use secure_messenger_lab.Prelude.{
  ℕ, ◌+◌, ◌≤◌, ◌<◌, ◌≡◌, true, false, some, ◌++◌, ◌∷◌, [], List, ◌&&◌, ltb, arith, String,
}
use secure_messenger_lab.Errors.{ok}
use secure_messenger_lab.Bytes.{bytes_eq}
use secure_messenger_lab.Crypto.{Crypto}
use secure_messenger_lab.Packets.{StoredEnvelope}
use secure_messenger_lab.Capability.{FetchRequest, fetch_signing_bytes}
use secure_messenger_lab.Table.{select_where, find_where, exists_where}
use secure_messenger_lab.Relay.Store.{
  Mailbox, Message, Tables, Relay, RequestNonce, receive, Faults, Reply, immediate,
}
use secure_messenger_lab.Relay.Sql.{of_queue, is_request_nonce}
use secure_messenger_lab.Relay.Checks.{receive_key, record_nonce}
use secure_messenger_lab.Relay.Success.{
  purged, settle-ok, immediate-ok, enter-ok, validate_request_time-ok,
}
use secure_messenger_lab.Relay.Fetch.{decode_rows, fetch_in, fetch, fetch_body}

module _ (c : Crypto) (request : FetchRequest) (now : ℕ) (t : Tables) where
  abbrev pub nonce_row : RequestNonce
  nonce_row = record {
    queue_id = request.queue_id;
    role = receive;
    nonce = request.nonce;
    delete_after = request.valid_until;
  }

  -- The rows that `fetch` selects.
  abbrev pub selected : List Message
  selected =
      select_where (λ m. bytes_eq m.queue_id request.queue_id && ltb now m.expires_at)
        (purged now t).messages

  pub record Fetched (t' : Tables) (envelopes : List StoredEnvelope) : Type 0 where
    pub mailbox : Mailbox
    pub registered : find_where (of_queue request.queue_id) t.mailboxes ≡ some mailbox
    pub signed : c.verify mailbox.receive_key (fetch_signing_bytes request) request.signature ≡ true
    pub fresh :
        exists_where
          (is_request_nonce request.queue_id receive request.nonce)
          (purged now t).request_nonces
        ≡ false
    pub decoded : decode_rows c request.queue_id selected ≡ ok envelopes
    pub after :
        t'
        ≡ record (purged now t) { request_nonces = (purged now t).request_nonces ++ nonce_row ∷ [] }

  module _ (fails : Faults) where
    fetch_in-ok :
        {reply : Reply (List StoredEnvelope)} {t' : Tables}
        → fetch_in c fails request now t ≡ ok (reply, t')
        → Fetched t' reply.1
    unfolding fetch_in record_nonce
    fetch_in-ok {reply} {t'} e =
        let (m, found, rest, _) = enter-ok c fails now request.queue_id receive_key _ t e in
        record {
          mailbox = m;
          registered = found;
          signed = ground arith;
          fresh = ground arith;
          decoded = ground arith;
          after = ground arith;
        }

module _ (c : Crypto) (fails : Faults) (request : FetchRequest) (now : ℕ) where
  pub fetch_body-ok :
      (t t' : Tables) (events : List String) (envelopes : List StoredEnvelope)
      → fetch_body c fails request now t ≡ ok ((events, envelopes), t')
      → (now < request.valid_until)
        × (request.valid_until ≤ now + 300)
        × Fetched c request now t t' envelopes
  unfolding fetch_body
  fetch_body-ok t t' events envelopes done =
      let inside : immediate fails (fetch_in c fails request now) t ≡ ok ((events, envelopes), t') =
        ground arith in
      (
        ground (arith, validate_request_time-ok request.valid_until now {u = tt}),
        ground (arith, validate_request_time-ok request.valid_until now {u = tt}),
        fetch_in-ok c request now t fails (immediate-ok fails _ t inside),
      )

pub fetch-ok :
    (c : Crypto) (fails : Faults) (r r' : Relay) (request : FetchRequest) (now : ℕ)
    (envelopes : List StoredEnvelope)
    → fetch c fails r request now ≡ (ok envelopes, r')
    → (now < request.valid_until)
      × (request.valid_until ≤ now + 300)
      × Fetched c request now r.tables r'.tables envelopes
unfolding fetch
fetch-ok c fails r r' request now envelopes e =
    let (events, done, _) = settle-ok fails r r' _ envelopes e in
    fetch_body-ok c fails request now r.tables r'.tables events envelopes done
