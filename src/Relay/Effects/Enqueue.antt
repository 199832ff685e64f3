-- ===== src/Relay/Effects/Enqueue.antt =====
-- What a successful `enqueue` has done.
use secure_messenger_lab.Prelude.{
  ℕ, ◌+◌, ◌≤◌, ◌<◌, ◌≡◌, true, false, none, some, ◌++◌, ◌∷◌, [], ◌&&◌, inl, inr, arith, length, ltb,
  Option-cases, List, String,
}
use secure_messenger_lab.Errors.{ok}
use secure_messenger_lab.Bytes.{i64_max}
use secure_messenger_lab.Bytes.Laws.{bytes_eq_iff}
use secure_messenger_lab.Crypto.{Crypto}
use secure_messenger_lab.Capability.{SendRequest, request_signing_bytes}
use secure_messenger_lab.Table.{find_where, exists_where}
use secure_messenger_lab.Relay.Store.{Mailbox, Message, Tables, Relay, Faults, Tx, Reply, immediate}
use secure_messenger_lab.Relay.Sql.{of_queue, is_message, is_tombstone, insert_message_sql}
use secure_messenger_lab.Relay.Checks.{
  parse_key, max_packet_bytes, max_message_ttl_seconds, send_key,
}
use secure_messenger_lab.Relay.Success.{
  purged, settle-ok, immediate-ok, enter-ok, validate_message_expiry-ok,
}
use secure_messenger_lab.Relay.Enqueue.{
  EnqueueOutcome, stored, duplicate, message_of, enqueue_again, enqueue_new, enqueue_in, enqueue,
  enqueue_body,
}

module _ (c : Crypto) (request : SendRequest) (now : ℕ) (t : Tables) where
  -- The tables with the new row at the end.
  abbrev pub with_message : Tables
  with_message = record (purged now t) {
    messages = (purged now t).messages ++ message_of request request.expires_at ∷ [];
  }

  pub data Outcome (t' : Tables) (out : EnqueueOutcome) : Type 0 where
    is_stored :
        out ≡ stored
        → find_where (is_message request.queue_id request.message_id) (purged now t).messages ≡ none
        → t' ≡ with_message
        → Outcome t' out
    is_duplicate :
        (old : Message)
        → out ≡ duplicate
        → find_where (is_message request.queue_id request.message_id) (purged now t).messages
          ≡ some old
        → old.ciphertext ≡ request.packet
        → old.expires_at ≡ request.expires_at
        → t' ≡ purged now t
        → Outcome t' out

  pub record Enqueued (t' : Tables) (out : EnqueueOutcome) : Type 0 where
    pub mailbox : Mailbox
    pub registered : find_where (of_queue request.queue_id) t.mailboxes ≡ some mailbox
    pub signed :
        c.verify mailbox.send_key (request_signing_bytes c request) request.signature ≡ true
    pub parsed : parse_key c mailbox.send_key ≡ ok mailbox.send_key
    pub representable : request.expires_at ≤ i64_max
    pub not_gone :
        exists_where
          (λ d. is_tombstone request.queue_id request.message_id d && ltb now d.delete_after)
          (purged now t).tombstones
        ≡ false
    pub outcome : Outcome t' out

  module _ (fails : Faults) where
    enqueue_again-ok :
        (old : Message) {reply : Reply EnqueueOutcome} {t' : Tables}
        → find_where (is_message request.queue_id request.message_id) (purged now t).messages
          ≡ some old
        → enqueue_again c fails request old (purged now t) ≡ ok (reply, t')
        → Outcome t' reply.1
    unfolding enqueue_again
    enqueue_again-ok old found e =
        is_duplicate old (ground arith) found
          (ground (arith, bytes_eq_iff old.ciphertext request.packet)) (ground arith) (ground arith)

    enqueue_new-ok :
        {reply : Reply EnqueueOutcome} {t' : Tables}
        → find_where (is_message request.queue_id request.message_id) (purged now t).messages ≡ none
        → enqueue_new c fails request (purged now t) ≡ ok (reply, t')
        → Outcome t' reply.1
    unfolding enqueue_new insert_message_sql
    enqueue_new-ok found e = is_stored (ground arith) found (ground arith)

    select_existing-ok :
        {reply : Reply EnqueueOutcome} {t' : Tables}
        → (elim (find_where
                (is_message request.queue_id request.message_id)
                (purged now t).messages)
              as (λ _. Tx (Reply EnqueueOutcome)) [
                | some old ↦ enqueue_again c fails request old
                | none ↦ enqueue_new c fails request
              ])
            (purged now t)
          ≡ ok (reply, t')
        → Outcome t' reply.1
    select_existing-ok {reply} {t'} e =
        elim (Option-cases
          (find_where (is_message request.queue_id request.message_id) (purged now t).messages)) [
            | inl missing ↦ enqueue_new-ok missing (rw missing at e)
            | inr (old, found) ↦ enqueue_again-ok old found (rw found at e)
          ]

    -- Both arms convert the expiry.
    select_existing-representable :
        {reply : Reply EnqueueOutcome} {t' : Tables}
        → (elim (find_where
                (is_message request.queue_id request.message_id)
                (purged now t).messages)
              as (λ _. Tx (Reply EnqueueOutcome)) [
                | some old ↦ enqueue_again c fails request old
                | none ↦ enqueue_new c fails request
              ])
            (purged now t)
          ≡ ok (reply, t')
        → request.expires_at ≤ i64_max
    unfolding enqueue_again enqueue_new
    select_existing-representable {reply} {t'} e = ground arith

    enqueue_in-ok :
        {reply : Reply EnqueueOutcome} {t' : Tables}
        → enqueue_in c fails request now t ≡ ok (reply, t')
        → Enqueued t' reply.1
    unfolding enqueue_in
    enqueue_in-ok {reply} {t'} e =
        let (m, found, rest, parsed) = enter-ok c fails now request.queue_id send_key _ t e in
        record {
          mailbox = m;
          registered = found;
          signed = ground arith;
          parsed = parsed;
          representable = select_existing-representable {reply = reply} {t' = t'} (ground arith);
          not_gone = ground arith;
          outcome = select_existing-ok {reply = reply} {t' = t'} (ground arith);
        }

module _ (c : Crypto) (fails : Faults) (request : SendRequest) (now : ℕ) where
  -- What `enqueue` has checked before it opens its transaction.
  pub record Admitted : Type 0 where
    pub not_empty : 0 < length request.packet
    pub fits : length request.packet ≤ max_packet_bytes
    pub live : now < request.expires_at
    pub bounded : request.expires_at ≤ now + max_message_ttl_seconds

  pub enqueue_body-ok :
      (t t' : Tables) (events : List String) (out : EnqueueOutcome)
      → enqueue_body c fails request now t ≡ ok ((events, out), t')
      → Admitted × Enqueued c request now t t' out
  unfolding enqueue_body
  enqueue_body-ok t t' events out done =
      let inside : immediate fails (enqueue_in c fails request now) t ≡ ok ((events, out), t') =
        ground arith in
      (
        record {
          not_empty = ground arith;
          fits = ground arith;
          live = ground (arith, validate_message_expiry-ok request.expires_at now {u = tt});
          bounded = ground (arith, validate_message_expiry-ok request.expires_at now {u = tt});
        },
        enqueue_in-ok c request now t fails (immediate-ok fails _ t inside),
      )

pub enqueue-ok :
    (c : Crypto) (fails : Faults) (r r' : Relay) (request : SendRequest) (now : ℕ)
    (out : EnqueueOutcome)
    → enqueue c fails r request now ≡ (ok out, r')
    → Admitted c fails request now × Enqueued c request now r.tables r'.tables out
unfolding enqueue
enqueue-ok c fails r r' request now out e =
    let (events, done, _) = settle-ok fails r r' _ out e in
    enqueue_body-ok c fails request now r.tables r'.tables events out done
