-- ===== src/Relay/Retry.antt =====
-- Retries: a send request that was accepted is answered the same way when it is sent again.
use secure_messenger_lab.Prelude.{
  ℕ, ◌≤◌, ◌<◌, ◌≡◌, refl, ◌∙◌, ap, true, false, some, List, [], ◌∷◌, ◌++◌, ◌&&◌, arith, All-map,
  ltb,
}
use secure_messenger_lab.Errors.{ok}
use secure_messenger_lab.Bytes.{Bytes, i64_max}
use secure_messenger_lab.Bytes.Laws.{bytes_eq_refl}
use secure_messenger_lab.Crypto.{Crypto}
use secure_messenger_lab.Capability.{SendRequest, request_signing_bytes}
use secure_messenger_lab.Table.{find_where, exists_where, delete_where}
use secure_messenger_lab.Table.Laws.{
  All-delete_where, exists_where-none, exists_where-false, find_where-append, find_where-spared,
}
use secure_messenger_lab.Relay.Store.{
  Mailbox, Message, Tombstone, Tables, Relay, Faults, settle, immediate, to_i64,
}
use secure_messenger_lab.Relay.Sql.{
  of_queue, is_message, is_tombstone, message_expired, tombstone_expired,
}
use secure_messenger_lab.Relay.Checks.{
  parse_key, mailbox_key, purge_expired_in, validate_message_expiry,
}
use secure_messenger_lab.Relay.Success.{purged}
use secure_messenger_lab.Relay.Enqueue.{
  EnqueueOutcome, duplicate, message_of, enqueue_again, enqueue_in, enqueue, enqueue_body,
}
use secure_messenger_lab.Relay.Effects.Enqueue.{Enqueued, enqueue-ok, is_stored, is_duplicate}

-- No statement fails.
abbrev pub healthy : Faults
healthy = λ _. false

module _ (c : Crypto) (request : SendRequest) (now : ℕ) (t : Tables) (m : Mailbox)
    (old : Message) where
  enqueue_in-duplicate :
      now ≤ i64_max
      → request.expires_at ≤ i64_max
      → find_where (of_queue request.queue_id) t.mailboxes ≡ some m
      → parse_key c m.send_key ≡ ok m.send_key
      → c.verify m.send_key (request_signing_bytes c request) request.signature ≡ true
      → exists_where
          (λ d. is_tombstone request.queue_id request.message_id d && ltb now d.delete_after)
          (purged now t).tombstones
        ≡ false
      → find_where (is_message request.queue_id request.message_id) (purged now t).messages
        ≡ some old
      → old.ciphertext ≡ request.packet
      → old.expires_at ≡ request.expires_at
      → enqueue_in c healthy request now t
        ≡ ok (("message_enqueue_duplicate" ∷ [], duplicate), purged now t)
  unfolding enqueue_in purge_expired_in mailbox_key parse_key enqueue_again to_i64
  enqueue_in-duplicate h1 h2 h3 h4 h5 h6 h7 h8 h9 = ground (arith, bytes_eq_refl request.packet)

-- A sweep later on leaves no more live tombstones.
later_tombstones :
    (queue_id message_id : Bytes) (now later : ℕ) (ds : List Tombstone)
    → now ≤ later
    → exists_where (λ d. is_tombstone queue_id message_id d && ltb now d.delete_after) ds ≡ false
    → exists_where
        (λ d. is_tombstone queue_id message_id d && ltb later d.delete_after)
        (delete_where (tombstone_expired later) ds)
      ≡ false
later_tombstones queue_id message_id now later ds h none_live =
    exists_where-none _ (delete_where (tombstone_expired later) ds) (
      All-delete_where (tombstone_expired later)
        (λ d. (is_tombstone queue_id message_id d && ltb later d.delete_after) ≡ false) ds
        (All-map (λ d dead. ground arith) ds
          (exists_where-false (λ d. is_tombstone queue_id message_id d && ltb now d.delete_after) ds
            none_live)))

-- What a first `enqueue` leaves for a second.
record IsQueued (c : Crypto) (request : SendRequest) (later : ℕ) (t : Tables) (m : Mailbox)
    : Type 0 where
  mailbox : find_where (of_queue request.queue_id) t.mailboxes ≡ some m
  not_gone :
      exists_where
        (λ d. is_tombstone request.queue_id request.message_id d && ltb later d.delete_after)
        (purged later t).tombstones
      ≡ false
  old : Message
  found :
      find_where (is_message request.queue_id request.message_id) (purged later t).messages
      ≡ some old
  same_packet : old.ciphertext ≡ request.packet
  same_expiry : old.expires_at ≡ request.expires_at

module _ (c : Crypto) (request : SendRequest) (now later : ℕ) (t t' : Tables) (out : EnqueueOutcome)
    (d : Enqueued c request now t t' out) (h : now ≤ later)
    (live : later < request.expires_at) where
  row_found :
      find_where
        (is_message request.queue_id request.message_id)
        (message_of request request.expires_at ∷ [])
      ≡ some (message_of request request.expires_at)
  unfolding find_where
  row_found = rw (bytes_eq_refl request.queue_id, bytes_eq_refl request.message_id)

  Enqueued-IsQueued : IsQueued c request later t' d.mailbox
  Enqueued-IsQueued = elim d.outcome [
    | is_stored _ missing e ↦ record {
      mailbox = ap (λ u. find_where (of_queue request.queue_id) u.mailboxes) e ∙ d.registered;
      not_gone =
          ap
            (λ u.
              exists_where
                (λ d.
                  is_tombstone request.queue_id request.message_id d && ltb later d.delete_after)
                (purged later u).tombstones)
            e
          ∙ later_tombstones request.queue_id request.message_id now later (purged now t).tombstones
              h d.not_gone;
      old = message_of request request.expires_at;
      found =
          ap
            (λ u.
              find_where (is_message request.queue_id request.message_id) (purged later u).messages)
            e
          ∙ find_where-spared (message_expired later)
              (is_message request.queue_id request.message_id) _
              (find_where-append (is_message request.queue_id request.message_id)
                  (purged now t).messages _ missing
                ∙ row_found)
              (ground arith);
      same_packet = refl;
      same_expiry = refl;
    }
    | is_duplicate old _ there packet expiry e ↦ record {
      mailbox = ap (λ u. find_where (of_queue request.queue_id) u.mailboxes) e ∙ d.registered;
      not_gone =
          ap
            (λ u.
              exists_where
                (λ d.
                  is_tombstone request.queue_id request.message_id d && ltb later d.delete_after)
                (purged later u).tombstones)
            e
          ∙ later_tombstones request.queue_id request.message_id now later (purged now t).tombstones
              h d.not_gone;
      old = old;
      found =
          ap
            (λ u.
              find_where (is_message request.queue_id request.message_id) (purged later u).messages)
            e
          ∙ find_where-spared (message_expired later)
              (is_message request.queue_id request.message_id) _ there (ground arith);
      same_packet = packet;
      same_expiry = expiry;
    }
  ]

-- A send request that `enqueue` has accepted once, whatever faults it met, is answered `Duplicate`
-- when it is sent again to the relay that it left, at a time no earlier and before its expiry and
-- with no failing statement; the second call sweeps and stores nothing.
pub enqueue_again_is_duplicate :
    (c : Crypto) (fails : Faults) (r r' : Relay) (request : SendRequest) (now later : ℕ)
    (out : EnqueueOutcome)
    → enqueue c fails r request now ≡ (ok out, r')
    → now ≤ later
    → later < request.expires_at
    → enqueue c healthy r' request later ≡ (
      ok duplicate,
      record r' {
        tables = purged later r'.tables;
        audit_events = r'.audit_events ++ "message_enqueue_duplicate" ∷ [];
      },
    )
unfolding enqueue enqueue_body immediate settle validate_message_expiry
enqueue_again_is_duplicate c fails r r' request now later out e h live =
    let (admitted, d) = enqueue-ok c fails r r' request now out e in
    let q = Enqueued-IsQueued c request now later r.tables r'.tables out d h live in
    let inside =
      enqueue_in-duplicate c request later r'.tables d.mailbox q.old
        (omega (arith, d.representable)) d.representable q.mailbox d.parsed d.signed q.not_gone
        q.found q.same_packet q.same_expiry in
    ground (arith, inside, admitted.not_empty, admitted.fits, admitted.bounded, d.representable)
