-- ===== src/Relay/Authentic.antt =====
-- Sender authentication: the relay holds no message that the mailbox's sender has not signed.
use secure_messenger_lab.Prelude.{
  ℕ, ◌≡◌, sym, ◌∙◌, true, false, some, List, ◌++◌, ◌⊎◌, arith, All, All-map, All-map₂, All-intro,
  All-append, subst,
}
use mathlib.Core.Path.{subst₂}
use secure_messenger_lab.Bytes.{Bytes, bytes_eq}
use secure_messenger_lab.Bytes.Laws.{bytes_eq_iff}
use secure_messenger_lab.Crypto.{Crypto}
use secure_messenger_lab.Capability.{send_signing_bytes, request_signing_bytes}
use secure_messenger_lab.Table.{find_where, delete_where}
use secure_messenger_lab.Table.Laws.{
  All-delete_where, delete_where-All, find_where-append_some, find_where-delete_where,
}
use secure_messenger_lab.Relay.Store.{Mailbox, Message, Tables, Relay}
use secure_messenger_lab.Relay.Sql.{of_queue, is_message, message_expired}
use secure_messenger_lab.Relay.Success.{purged}
use secure_messenger_lab.Relay.Effects.Register
use secure_messenger_lab.Relay.Effects.Enqueue
use secure_messenger_lab.Relay.Effects.Acknowledge
use secure_messenger_lab.Relay.Run.{
  Call, Event, Change, unchanged, swept, registered, enqueued, fetched, acknowledged, deleted, run,
  run_induction,
}

module _ (c : Crypto) where
  -- The message's queue has a mailbox, whose send key verifies the message's signature.
  pub record Signed (boxes : List Mailbox) (m : Message) : Type 0 where
    pub mailbox : Mailbox
    pub registered : find_where (of_queue m.queue_id) boxes ≡ some mailbox
    pub signed :
        c.verify mailbox.send_key
          (send_signing_bytes c m.queue_id m.message_id m.ciphertext m.expires_at)
          m.sender_signature
        ≡ true

  abbrev pub IsAuthentic : Tables → Type 0
  IsAuthentic t = All (Signed t.mailboxes) t.messages

  pub purged-IsAuthentic : (now : ℕ) (t : Tables) → IsAuthentic t → IsAuthentic (purged now t)
  purged-IsAuthentic now t h =
      All-delete_where (message_expired now) (Signed t.mailboxes) t.messages h

  Signed-more :
      (boxes more : List Mailbox) (m : Message) → Signed boxes m → Signed (boxes ++ more) m
  Signed-more boxes more m s = record {
    mailbox = s.mailbox;
    registered = find_where-append_some (of_queue m.queue_id) boxes more s.registered;
    signed = s.signed;
  }

  -- No two of the clauses hold of one mailbox.
  pub other_queue :
      (queue own : Bytes) (b : Mailbox)
      → bytes_eq own queue ≡ false
      → (of_queue own b ≡ false) ⊎ (of_queue queue b ≡ false)
  other_queue queue own b other =
      ground
        (arith, bytes_eq_iff b.queue_id own, bytes_eq_iff b.queue_id queue, bytes_eq_iff own queue)

  Signed-delete :
      (boxes : List Mailbox) (queue : Bytes) (m : Message)
      → Signed boxes m
      → bytes_eq m.queue_id queue ≡ false
      → Signed (delete_where (of_queue queue) boxes) m
  Signed-delete boxes queue m s other = record {
    mailbox = s.mailbox;
    registered =
        find_where-delete_where (of_queue queue) (of_queue m.queue_id) boxes
          (All-intro (λ b. other_queue queue m.queue_id b other) boxes)
        ∙ s.registered;
    signed = s.signed;
  }

  -- Whatever a call does to the tables, every queued message stays signed.
  pub Change-IsAuthentic :
      (call : Call) (now : ℕ) (t t' : Tables)
      → Change c call now t t'
      → IsAuthentic t
      → IsAuthentic t'
  Change-IsAuthentic call now t t' (unchanged e) h = subst IsAuthentic (sym e) h
  Change-IsAuthentic call now t t' (swept e) h =
      subst IsAuthentic (sym e) (purged-IsAuthentic now t h)
  Change-IsAuthentic call now t t' (registered request fresh _ _ d) h = elim d.outcome [
    | Register.is_new _ _ _ e ↦
        subst IsAuthentic (sym e)
          (All-map (Signed-more t.mailboxes _) (purged now t).messages (purged-IsAuthentic now t h))
    | Register.is_retry old ns _ _ _ e ↦ subst IsAuthentic (sym e) (purged-IsAuthentic now t h)
  ]
  Change-IsAuthentic call now t t' (enqueued request out _ _ _ d) h = elim d.outcome [
    | Enqueue.is_stored _ _ e ↦ subst IsAuthentic (sym e) (
        All-append (Signed t.mailboxes) (purged now t).messages _ (purged-IsAuthentic now t h) (
          record {
            mailbox = d.mailbox;
            registered = d.registered;
            signed = unfold request_signing_bytes in d.signed;
          },
          tt,
        ))
    | Enqueue.is_duplicate _ _ _ _ _ e ↦ subst IsAuthentic (sym e) (purged-IsAuthentic now t h)
  ]
  Change-IsAuthentic call now t t' (fetched request out _ d) h =
      subst IsAuthentic (sym d.after) (purged-IsAuthentic now t h)
  Change-IsAuthentic call now t t' (acknowledged request out _ d) h = elim d.outcome [
    | Acknowledge.is_repeated _ _ _ e ↦ subst IsAuthentic (sym e) (purged-IsAuthentic now t h)
    | Acknowledge.is_deleted old _ _ _ e ↦ subst IsAuthentic (sym e) (
        All-delete_where (is_message request.queue_id request.message_id) (Signed t.mailboxes) _
          (purged-IsAuthentic now t h))
  ]
  Change-IsAuthentic call now t t' (deleted request out _ d) h =
      subst₂ (λ boxes ms. All (Signed boxes) ms) (sym d.mailboxes) (sym d.messages)
        (All-map₂ (Signed-delete t.mailboxes request.queue_id) _
          (All-delete_where (λ m. bytes_eq m.queue_id request.queue_id) (Signed t.mailboxes) _
            (purged-IsAuthentic now t h))
          (delete_where-All (λ m. bytes_eq m.queue_id request.queue_id) (purged now t).messages))

  -- From a relay whose queued messages are all signed by the send key of their registered mailbox
  -- (a new relay among them), every history, whatever its calls, times and failing statements,
  -- leads to such a relay.
  pub run-IsAuthentic :
      (r : Relay) (es : List Event) → IsAuthentic r.tables → IsAuthentic (run c r es).tables
  run-IsAuthentic r es h = run_induction c IsAuthentic Change-IsAuthentic r es h
