-- ===== src/Relay/Removal.antt =====
-- Who can take a message or a mailbox away from the relay.
use secure_messenger_lab.Prelude.{
  ℕ, ◌≤◌, ◌≡◌, sym, ◌∙◌, ap, true, some, List, ◌⊎◌, inl, inr, arith, All-intro, subst, Bool-cases,
}
use secure_messenger_lab.Bytes.{Bytes, bytes_eq}
use secure_messenger_lab.Bytes.Laws.{bytes_eq_iff}
use secure_messenger_lab.Crypto.{Crypto}
use secure_messenger_lab.Capability.{
  AckRequest, DeleteMailboxRequest, ack_signing_bytes, delete_signing_bytes,
}
use secure_messenger_lab.Table.{find_where}
use secure_messenger_lab.Table.Laws.{
  find_where-spared, find_where-some, find_where-append_some, find_where-delete_where,
}
use secure_messenger_lab.Relay.Store.{Mailbox, Message, Tables, Relay, Faults}
use secure_messenger_lab.Relay.Sql.{of_queue, is_message, message_expired}
use secure_messenger_lab.Relay.Success.{purged}
use secure_messenger_lab.Relay.Effects.Register
use secure_messenger_lab.Relay.Effects.Enqueue
use secure_messenger_lab.Relay.Effects.Acknowledge
use secure_messenger_lab.Relay.Effects.Remove.{Deleted}
use secure_messenger_lab.Relay.Authentic.{other_queue}
use secure_messenger_lab.Relay.Run.{
  Call, acknowledges, deletes, perform, perform-Change, Change, unchanged, swept, registered,
  enqueued, fetched, acknowledged, deleted,
}

module _ (c : Crypto) (call : Call) (t : Tables) (queue_id : Bytes) where
  -- The call is the queue's deletion, signed with the manage key of its mailbox.
  pub record IsManaged : Type 0 where
    pub request : DeleteMailboxRequest
    pub is_call : call ≡ deletes request
    pub own_queue : request.queue_id ≡ queue_id
    pub mailbox : Mailbox
    pub registered : find_where (of_queue queue_id) t.mailboxes ≡ some mailbox
    pub signed : c.verify mailbox.manage_key (delete_signing_bytes request) request.signature ≡ true

  -- The call is an ACK of the message, signed with the receive key of the queue's mailbox, and
  -- names the digest of its ciphertext.
  pub record IsReceived (message_id : Bytes) (m : Message) : Type 0 where
    pub request : AckRequest
    pub is_call : call ≡ acknowledges request
    pub own_queue : request.queue_id ≡ queue_id
    pub own_message : request.message_id ≡ message_id
    pub digest : c.sha256 m.ciphertext ≡ request.packet_hash
    pub mailbox : Mailbox
    pub registered : find_where (of_queue queue_id) t.mailboxes ≡ some mailbox
    pub signed : c.verify mailbox.receive_key (ack_signing_bytes request) request.signature ≡ true

  Deleted-IsManaged :
      (request : DeleteMailboxRequest) (now : ℕ) (t' : Tables) {found : _}
      → call ≡ deletes request
      → Deleted c request now t t' found
      → request.queue_id ≡ queue_id
      → IsManaged
  Deleted-IsManaged request now t' same d own = record {
    request = request;
    is_call = same;
    own_queue = own;
    mailbox = d.mailbox;
    registered = subst (λ q. find_where (of_queue q) t.mailboxes ≡ some d.mailbox) own d.registered;
    signed = d.signed;
  }

module _ (c : Crypto) (call : Call) (now : ℕ) (t t' : Tables) (queue_id : Bytes) (b : Mailbox)
    (held : find_where (of_queue queue_id) t.mailboxes ≡ some b) where
  mailbox_survives :
      (request : DeleteMailboxRequest) {found : _}
      → call ≡ deletes request
      → Deleted c request now t t' found
      → (find_where (of_queue queue_id) t'.mailboxes ≡ some b) ⊎ IsManaged c call t queue_id
  mailbox_survives request same d = elim (Bool-cases (bytes_eq queue_id request.queue_id)) [
    | inl own ↦ inr (
        Deleted-IsManaged c call t queue_id request now t' same d
          (sym ((bytes_eq_iff queue_id request.queue_id).0 own)))
    | inr other ↦ inl (
        ap (find_where (of_queue queue_id)) d.mailboxes
        ∙ find_where-delete_where (of_queue request.queue_id) (of_queue queue_id) t.mailboxes
            (All-intro (λ x. other_queue c request.queue_id queue_id x other) t.mailboxes)
        ∙ held)
  ]

  same_mailboxes :
      t'.mailboxes ≡ t.mailboxes
      → (find_where (of_queue queue_id) t'.mailboxes ≡ some b) ⊎ IsManaged c call t queue_id
  same_mailboxes e = inl (ap (find_where (of_queue queue_id)) e ∙ held)

  Change-mailbox :
      Change c call now t t'
      → (find_where (of_queue queue_id) t'.mailboxes ≡ some b) ⊎ IsManaged c call t queue_id
  Change-mailbox (unchanged e) = same_mailboxes (ap (λ u. u.mailboxes) e)
  Change-mailbox (swept e) = same_mailboxes (ap (λ u. u.mailboxes) e)
  Change-mailbox (registered request fresh _ _ d) = elim d.outcome [
    | Register.is_retry _ _ _ _ _ e ↦ same_mailboxes (ap (λ u. u.mailboxes) e)
    | Register.is_new _ _ _ e ↦ inl (
        ap (λ u. find_where (of_queue queue_id) u.mailboxes) e
        ∙ find_where-append_some (of_queue queue_id) t.mailboxes _ held)
  ]
  Change-mailbox (enqueued request out _ _ _ d) = elim d.outcome [
    | Enqueue.is_stored _ _ e ↦ same_mailboxes (ap (λ u. u.mailboxes) e)
    | Enqueue.is_duplicate _ _ _ _ _ e ↦ same_mailboxes (ap (λ u. u.mailboxes) e)
  ]
  Change-mailbox (fetched request out _ d) = same_mailboxes (ap (λ u. u.mailboxes) d.after)
  Change-mailbox (acknowledged request out _ d) = elim d.outcome [
    | Acknowledge.is_repeated _ _ _ e ↦ same_mailboxes (ap (λ u. u.mailboxes) e)
    | Acknowledge.is_deleted _ _ _ _ e ↦ same_mailboxes (ap (λ u. u.mailboxes) e)
  ]
  Change-mailbox (deleted request found same d) = mailbox_survives request same d

-- No call replaces the keys of a registered mailbox or removes it, except a `delete_mailbox` of its
-- queue that is signed with its own manage key.
pub mailbox_kept :
    (c : Crypto) (r : Relay) (call : Call) (now : ℕ) (fails : Faults) (queue_id : Bytes)
    (b : Mailbox)
    → find_where (of_queue queue_id) r.tables.mailboxes ≡ some b
    → (find_where (of_queue queue_id) (perform c r call now fails).tables.mailboxes ≡ some b)
      ⊎ IsManaged c call r.tables queue_id
mailbox_kept c r call now fails queue_id b held =
    Change-mailbox c call now r.tables _ queue_id b held (perform-Change c r call now fails)

module _ (c : Crypto) (call : Call) (now : ℕ) (t : Tables) (queue_id message_id : Bytes)
    (m : Message) where
  -- Why a message may go.
  pub data Gone : Type 0 where
    expired : m.expires_at ≤ now → Gone
    received : IsReceived c call t queue_id message_id m → Gone
    managed : IsManaged c call t queue_id → Gone

module _ (c : Crypto) (call : Call) (now : ℕ) (t t' : Tables) (queue_id message_id : Bytes)
    (m : Message) where
  -- It is still there, or there is a reason.
  abbrev pub Kept : List Message → Type 0
  Kept ms =
      (find_where (is_message queue_id message_id) ms ≡ some m)
      ⊎ Gone c call now t queue_id message_id m

  module _ (held : find_where (is_message queue_id message_id) t.messages ≡ some m) where
    purged-Kept : Kept (purged now t).messages
    purged-Kept = elim (Bool-cases (message_expired now m)) [
      | inl gone ↦ inr (expired (ground arith))
      | inr live ↦ inl (
          find_where-spared (message_expired now) (is_message queue_id message_id) t.messages held
            live)
    ]

    -- The message is the row of its own queue and identifier.
    own_keys : (m.queue_id ≡ queue_id) × (m.message_id ≡ message_id)
    own_keys =
        let hit = find_where-some (is_message queue_id message_id) t.messages held in
        (
          ground (arith, bytes_eq_iff m.queue_id queue_id),
          ground (arith, bytes_eq_iff m.message_id message_id),
        )

    message_survives_ack :
        (request : AckRequest) {out : _}
        → call ≡ acknowledges request
        → Acknowledge.Acknowledged c request now t t' out
        → Kept t'.messages
    message_survives_ack request same d = elim d.outcome [
      | Acknowledge.is_repeated _ _ _ e ↦ subst Kept (sym (ap (λ u. u.messages) e)) purged-Kept
      | Acknowledge.is_deleted old _ found digest e ↦ elim purged-Kept [
        | inr why ↦ inr why
        | inl live ↦ elim (Bool-cases (is_message request.queue_id request.message_id m)) [
          | inr other ↦ inl (
              ap (λ u. find_where (is_message queue_id message_id) u.messages) e
              ∙ find_where-spared (is_message request.queue_id request.message_id)
                  (is_message queue_id message_id) (purged now t).messages live other)
          | inl own ↦
              let queue : request.queue_id ≡ queue_id =
                ground (arith, bytes_eq_iff m.queue_id request.queue_id, own_keys.0) in
              let message : request.message_id ≡ message_id =
                ground (arith, bytes_eq_iff m.message_id request.message_id, own_keys.1) in
              let same_row : old ≡ m = ground (arith, queue, message, found, live) in
              inr (
                received (record {
                  request = request;
                  is_call = same;
                  own_queue = queue;
                  own_message = message;
                  digest = subst (λ x. c.sha256 x.ciphertext ≡ request.packet_hash) same_row digest;
                  mailbox = d.mailbox;
                  registered =
                      subst (λ q. find_where (of_queue q) t.mailboxes ≡ some d.mailbox) queue
                        d.registered;
                  signed = d.signed;
                }))
        ]
      ]
    ]

    message_survives_removal :
        (request : DeleteMailboxRequest) {found : _}
        → call ≡ deletes request
        → Deleted c request now t t' found
        → Kept t'.messages
    message_survives_removal request same d =
        elim (Bool-cases (bytes_eq m.queue_id request.queue_id)) [
          | inl own ↦ inr (
              managed (
                Deleted-IsManaged c call t queue_id request now t' same d
                  (sym ((bytes_eq_iff m.queue_id request.queue_id).0 own) ∙ own_keys.0)))
          | inr other ↦ elim purged-Kept [
            | inr why ↦ inr why
            | inl live ↦ inl (
                ap (find_where (is_message queue_id message_id)) d.messages
                ∙ find_where-spared (λ x. bytes_eq x.queue_id request.queue_id)
                    (is_message queue_id message_id) (purged now t).messages live other)
          ]
        ]

    from_purged : t'.messages ≡ (purged now t).messages → Kept t'.messages
    from_purged e = subst Kept (sym e) purged-Kept

    Change-Kept : Change c call now t t' → Kept t'.messages
    Change-Kept (unchanged e) =
        inl (ap (λ u. find_where (is_message queue_id message_id) u.messages) e ∙ held)
    Change-Kept (swept e) = from_purged (ap (λ u. u.messages) e)
    Change-Kept (registered request fresh _ _ d) = elim d.outcome [
      | Register.is_new _ _ _ e ↦ from_purged (ap (λ u. u.messages) e)
      | Register.is_retry _ _ _ _ _ e ↦ from_purged (ap (λ u. u.messages) e)
    ]
    Change-Kept (enqueued request out _ _ _ d) = elim d.outcome [
      | Enqueue.is_duplicate _ _ _ _ _ e ↦ from_purged (ap (λ u. u.messages) e)
      | Enqueue.is_stored _ _ e ↦ elim purged-Kept [
        | inr why ↦ inr why
        | inl live ↦ inl (
            ap (λ u. find_where (is_message queue_id message_id) u.messages) e
            ∙ find_where-append_some (is_message queue_id message_id) (purged now t).messages _
                live)
      ]
    ]
    Change-Kept (fetched request out _ d) = from_purged (ap (λ u. u.messages) d.after)
    Change-Kept (acknowledged request out same d) = message_survives_ack request same d
    Change-Kept (deleted request found same d) = message_survives_removal request same d

-- A queued message leaves the relay, or is replaced, in one call only if it has expired at the time
-- of the call, or the call is an ACK that names its digest and is signed with the receive key of its
-- queue's mailbox, or the deletion of its queue signed with that mailbox's manage key.
pub message_kept :
    (c : Crypto) (r : Relay) (call : Call) (now : ℕ) (fails : Faults) (queue_id message_id : Bytes)
    (m : Message)
    → find_where (is_message queue_id message_id) r.tables.messages ≡ some m
    → (find_where (is_message queue_id message_id) (perform c r call now fails).tables.messages
        ≡ some m)
      ⊎ Gone c call now r.tables queue_id message_id m
message_kept c r call now fails queue_id message_id m held =
    Change-Kept c call now r.tables _ queue_id message_id m held (perform-Change c r call now fails)
