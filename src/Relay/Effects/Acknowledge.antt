-- ===== src/Relay/Effects/Acknowledge.antt =====
-- What a successful `acknowledge` has done.
use secure_messenger_lab.Prelude.{
  ℕ, ◌+◌, ◌≤◌, ◌<◌, ◌≡◌, true, none, some, arith, Option-cases, inl, inr, List, String,
}
use secure_messenger_lab.Errors.{ok}
use secure_messenger_lab.Bytes.Laws.{bytes_eq_iff}
use secure_messenger_lab.Crypto.{Crypto}
use secure_messenger_lab.Capability.{AckRequest, ack_signing_bytes}
use secure_messenger_lab.Table.{find_where, exists_where, delete_where}
use secure_messenger_lab.Relay.Store.{
  Mailbox, Message, Tombstone, Tables, Relay, Faults, Tx, Reply, immediate,
}
use secure_messenger_lab.Relay.Sql.{
  of_queue, is_message, is_tombstone, delete_message_sql, upsert_tombstone, upsert_tombstone_sql,
}
use secure_messenger_lab.Relay.Checks.{receive_key, tombstone_ttl_seconds}
use secure_messenger_lab.Relay.Success.{
  purged, settle-ok, immediate-ok, enter-ok, validate_request_time-ok,
}
use secure_messenger_lab.Relay.Acknowledge.{
  AckOutcome, deleted, already_deleted, acknowledge_missing, acknowledge_queued, acknowledge_in,
  acknowledge, acknowledge_body,
}

module _ (c : Crypto) (request : AckRequest) (now : ℕ) (t : Tables) where
  abbrev pub tombstone_row : Tombstone
  tombstone_row = record {
    queue_id = request.queue_id;
    message_id = request.message_id;
    delete_after = now + tombstone_ttl_seconds;
  }

  pub data Outcome (t' : Tables) (out : AckOutcome) : Type 0 where
    is_repeated :
        out ≡ already_deleted
        → find_where (is_message request.queue_id request.message_id) (purged now t).messages ≡ none
        → exists_where (is_tombstone request.queue_id request.message_id) (purged now t).tombstones
          ≡ true
        → t' ≡ purged now t
        → Outcome t' out
    is_deleted :
        (old : Message)
        → out ≡ deleted
        → find_where (is_message request.queue_id request.message_id) (purged now t).messages
          ≡ some old
        → c.sha256 old.ciphertext ≡ request.packet_hash
        → t' ≡ record (purged now t) {
          messages =
              delete_where (is_message request.queue_id request.message_id) (purged now t).messages;
          tombstones = upsert_tombstone tombstone_row (purged now t).tombstones;
        }
        → Outcome t' out

  pub record Acknowledged (t' : Tables) (out : AckOutcome) : Type 0 where
    pub mailbox : Mailbox
    pub registered : find_where (of_queue request.queue_id) t.mailboxes ≡ some mailbox
    pub signed : c.verify mailbox.receive_key (ack_signing_bytes request) request.signature ≡ true
    pub outcome : Outcome t' out

  module _ (fails : Faults) where
    acknowledge_missing-ok :
        {reply : Reply AckOutcome} {t' : Tables}
        → find_where (is_message request.queue_id request.message_id) (purged now t).messages ≡ none
        → acknowledge_missing c fails request (purged now t) ≡ ok (reply, t')
        → Outcome t' reply.1
    unfolding acknowledge_missing
    acknowledge_missing-ok missing e =
        is_repeated (ground arith) missing (ground arith) (ground arith)

    acknowledge_queued-ok :
        (old : Message) {reply : Reply AckOutcome} {t' : Tables}
        → find_where (is_message request.queue_id request.message_id) (purged now t).messages
          ≡ some old
        → acknowledge_queued c fails request now old (purged now t) ≡ ok (reply, t')
        → Outcome t' reply.1
    unfolding acknowledge_queued delete_message_sql upsert_tombstone_sql
    acknowledge_queued-ok old found e =
        is_deleted old (ground arith) found
          (ground (arith, bytes_eq_iff (c.sha256 old.ciphertext) request.packet_hash))
          (ground arith)

    select_existing-ok :
        {reply : Reply AckOutcome} {t' : Tables}
        → (elim (find_where
                (is_message request.queue_id request.message_id)
                (purged now t).messages)
              as (λ _. Tx (Reply AckOutcome)) [
                | none ↦ acknowledge_missing c fails request
                | some m ↦ acknowledge_queued c fails request now m
              ])
            (purged now t)
          ≡ ok (reply, t')
        → Outcome t' reply.1
    select_existing-ok {reply} {t'} e =
        elim (Option-cases
          (find_where (is_message request.queue_id request.message_id) (purged now t).messages)) [
            | inl missing ↦ acknowledge_missing-ok missing (rw missing at e)
            | inr (old, found) ↦ acknowledge_queued-ok old found (rw found at e)
          ]

    acknowledge_in-ok :
        {reply : Reply AckOutcome} {t' : Tables}
        → acknowledge_in c fails request now t ≡ ok (reply, t')
        → Acknowledged t' reply.1
    unfolding acknowledge_in
    acknowledge_in-ok {reply} {t'} e =
        let (m, found, rest, _) = enter-ok c fails now request.queue_id receive_key _ t e in
        record {
          mailbox = m;
          registered = found;
          signed = ground arith;
          outcome = select_existing-ok {reply = reply} {t' = t'} (ground arith);
        }

module _ (c : Crypto) (fails : Faults) (request : AckRequest) (now : ℕ) where
  pub acknowledge_body-ok :
      (t t' : Tables) (events : List String) (out : AckOutcome)
      → acknowledge_body c fails request now t ≡ ok ((events, out), t')
      → (now < request.valid_until)
        × (request.valid_until ≤ now + 300)
        × Acknowledged c request now t t' out
  unfolding acknowledge_body
  acknowledge_body-ok t t' events out done =
      let inside : immediate fails (acknowledge_in c fails request now) t ≡ ok ((events, out), t') =
        ground arith in
      (
        ground (arith, validate_request_time-ok request.valid_until now {u = tt}),
        ground (arith, validate_request_time-ok request.valid_until now {u = tt}),
        acknowledge_in-ok c request now t fails (immediate-ok fails _ t inside),
      )

pub acknowledge-ok :
    (c : Crypto) (fails : Faults) (r r' : Relay) (request : AckRequest) (now : ℕ) (out : AckOutcome)
    → acknowledge c fails r request now ≡ (ok out, r')
    → (now < request.valid_until)
      × (request.valid_until ≤ now + 300)
      × Acknowledged c request now r.tables r'.tables out
unfolding acknowledge
acknowledge-ok c fails r r' request now out e =
    let (events, done, _) = settle-ok fails r r' _ out e in
    acknowledge_body-ok c fails request now r.tables r'.tables events out done
