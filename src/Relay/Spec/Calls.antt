-- ===== src/Relay/Spec/Calls.antt =====
-- The moves of the specification that each successful call makes.
use secure_messenger_lab.Prelude.{
  ℕ, ◌+◌, ◌≤◌, ◌<◌, ◌≡◌, refl, sym, subst, ap, ◌∙◌, true, false, Bool, none, some, [], arith,
  Bool-cases, inl, inr, ◌⊎◌, All-intro,
}
use secure_messenger_lab.Bytes.{Bytes, bytes_eq}
use secure_messenger_lab.Bytes.Laws.{bytes_eq_iff}
use secure_messenger_lab.Crypto.{Crypto, Laws}
use secure_messenger_lab.Capability.{
  MailboxRegistration, registration_signing_bytes, SendRequest, AckRequest, DeleteMailboxRequest,
}
use secure_messenger_lab.Table.{select_where, find_where, exists_where, delete_where}
use secure_messenger_lab.Table.Laws.{select_where-delete_where, find_where-delete_where}
use secure_messenger_lab.Relay.Store.{Tables}
use secure_messenger_lab.Relay.Sql.{of_queue, is_message, is_retired}
use secure_messenger_lab.Relay.Checks.{max_message_ttl_seconds}
use secure_messenger_lab.Relay.Success.{purged}
use secure_messenger_lab.Relay.Enqueue.{EnqueueOutcome, message_of}
use secure_messenger_lab.Relay.Acknowledge.{AckOutcome}
use secure_messenger_lab.Relay.Effects.Register
use secure_messenger_lab.Relay.Effects.Enqueue
use secure_messenger_lab.Relay.Effects.Acknowledge
use secure_messenger_lab.Relay.Effects.Remove
use secure_messenger_lab.Relay.Run.{Call, registers, enqueues, acknowledges, deletes}
use secure_messenger_lab.Relay.Retired.{
  exists-insert_retired, insert_retired-exists, insert_retired-only,
}
use secure_messenger_lab.Relay.Spec.{
  Queue, is_of, queue_of, Move, expires, opens, accepts, removes, retires, closes, Moves, rests,
  moves,
}
use secure_messenger_lab.Relay.Spec.View.{
  select_where-delete_comm, find_where-select_where, find_where-append_other, find_where-append_one,
  find_where-delete_same, of_one_queue, select_where-append_one, select_where-append_other,
  select_where-delete_same, queue_of-purged,
}

module _ (c : Crypto) (laws : Laws c) (queue_id : Bytes) (call : Call) (now : ℕ) (t : Tables) where
  abbrev pub before : Queue
  before = queue_of c queue_id t

  abbrev pub after_sweep : Queue
  after_sweep = queue_of c queue_id (purged now t)

  -- The sweep, and then at most one more move.
  sweeps : Moves c queue_id call now before after_sweep
  sweeps = moves (expires (queue_of-purged c queue_id now t)) rests

  pub sweeps_to : {s : Queue} → s ≡ after_sweep → Moves c queue_id call now before s
  sweeps_to p = subst (Moves c queue_id call now before) (sym p) sweeps

  sweeps_then :
      {s : Queue} → Move c queue_id call now after_sweep s → Moves c queue_id call now before s
  sweeps_then m = moves (expires (queue_of-purged c queue_id now t)) (moves m rests)

  pub register-Moves :
      (request : MailboxRegistration) (fresh : Bool) (t' : Tables)
      → call ≡ registers request
      → c.verify request.manage_key (registration_signing_bytes request) request.signature ≡ true
      → Register.Registered c request now t t' fresh
      → Moves c queue_id call now before (queue_of c queue_id t')
  register-Moves request fresh t' is_call signed d = elim d.outcome [
    | Register.is_retry _ _ _ _ _ e ↦ sweeps_to (ap (queue_of c queue_id) e)
    | Register.is_new _ missing _ e ↦
        let row = Register.mailbox_row c request now t in
        elim (Bool-cases (bytes_eq request.queue_id queue_id)) [
          | inr other ↦ sweeps_to (
              ap (queue_of c queue_id) e
              ∙ ap (λ b. record after_sweep { mailbox = b })
                  (find_where-append_other (of_queue queue_id) t.mailboxes row other))
          | inl own ↦
              let same = (bytes_eq_iff request.queue_id queue_id).0 own in
              sweeps_then (
                opens row request is_call signed same refl
                  (subst (λ q. exists_where (is_retired (c.sha256 q)) t.retired_queues ≡ false) same
                    d.not_retired)
                  (subst (λ q. find_where (of_queue q) t.mailboxes ≡ none) same missing)
                  (ap (queue_of c queue_id) e
                    ∙ ap (λ b. record after_sweep { mailbox = b })
                        (find_where-append_one (of_queue queue_id) t.mailboxes row
                          (subst (λ q. find_where (of_queue q) t.mailboxes ≡ none) same missing)
                          own)))
        ]
  ]

  pub enqueue-Moves :
      (request : SendRequest) (out : EnqueueOutcome) (t' : Tables)
      → call ≡ enqueues request
      → now < request.expires_at
      → request.expires_at ≤ now + max_message_ttl_seconds
      → Enqueue.Enqueued c request now t t' out
      → Moves c queue_id call now before (queue_of c queue_id t')
  enqueue-Moves request out t' is_call live bounded d = elim d.outcome [
    | Enqueue.is_duplicate _ _ _ _ _ e ↦ sweeps_to (ap (queue_of c queue_id) e)
    | Enqueue.is_stored _ missing e ↦
        let row = message_of request request.expires_at in
        let kept = (purged now t).messages in
        elim (Bool-cases (bytes_eq request.queue_id queue_id)) [
          | inr other ↦ sweeps_to (
              ap (queue_of c queue_id) e
              ∙ ap (λ ms. record after_sweep { messages = ms })
                  (select_where-append_other (is_of queue_id) kept row other))
          | inl own ↦
              let same = (bytes_eq_iff request.queue_id queue_id).0 own in
              sweeps_then (
                accepts d.mailbox request is_call
                  (subst (λ q. find_where (of_queue q) t.mailboxes ≡ some d.mailbox) same
                    d.registered)
                  d.signed live bounded same
                  (find_where-select_where (is_message queue_id request.message_id) (is_of queue_id)
                      (λ x h. ground arith) kept
                    ∙ subst (λ q. find_where (is_message q request.message_id) kept ≡ none) same
                        missing)
                  (ap (queue_of c queue_id) e
                    ∙ ap (λ ms. record after_sweep { messages = ms })
                        (select_where-append_one (is_of queue_id) kept row own)))
        ]
  ]

  pub acknowledge-Moves :
      (request : AckRequest) (out : AckOutcome) (t' : Tables)
      → call ≡ acknowledges request
      → Acknowledge.Acknowledged c request now t t' out
      → Moves c queue_id call now before (queue_of c queue_id t')
  acknowledge-Moves request out t' is_call d = elim d.outcome [
    | Acknowledge.is_repeated _ _ _ e ↦ sweeps_to (ap (queue_of c queue_id) e)
    | Acknowledge.is_deleted old _ found digest e ↦
        let kept = (purged now t).messages in
        elim (Bool-cases (bytes_eq request.queue_id queue_id)) [
          | inr other ↦ sweeps_to (
              ap (queue_of c queue_id) e
              ∙ ap (λ ms. record after_sweep { messages = ms })
                  (select_where-delete_where (is_message request.queue_id request.message_id)
                    (is_of queue_id) kept
                    (All-intro
                      {P = λ x.
                        (is_of queue_id x ≡ false)
                        ⊎ (is_message request.queue_id request.message_id x ≡ false)}
                      (λ x.
                        let apart = of_one_queue queue_id request.queue_id x.queue_id other in
                        ground arith)
                      kept)))
          | inl own ↦
              let same = (bytes_eq_iff request.queue_id queue_id).0 own in
              sweeps_then (
                removes d.mailbox request old is_call
                  (subst (λ q. find_where (of_queue q) t.mailboxes ≡ some d.mailbox) same
                    d.registered)
                  d.signed same
                  (find_where-select_where (is_message queue_id request.message_id) (is_of queue_id)
                      (λ x h. ground arith) kept
                    ∙ subst (λ q. find_where (is_message q request.message_id) kept ≡ some old) same
                        found)
                  digest
                  (ap (queue_of c queue_id) e
                    ∙ ap (λ ms. record after_sweep { messages = ms })
                        (select_where-delete_comm (is_of queue_id)
                            (is_message request.queue_id request.message_id) kept
                          ∙ ap
                              (λ q.
                                delete_where (is_message q request.message_id)
                                  (select_where (is_of queue_id) kept))
                              same)))
        ]
  ]

  -- The queue after its own deletion, and after that of another queue.
  own_deletion :
      (request : DeleteMailboxRequest) (t' : Tables) (found : Bool)
      → Remove.Deleted c request now t t' found
      → request.queue_id ≡ queue_id
      → queue_of c queue_id t' ≡ record { mailbox = none; messages = []; retired = true }
  own_deletion request t' found d same =
      let gone : find_where (of_queue queue_id) t'.mailboxes ≡ none =
        rw (d.mailboxes, same) (find_where-delete_same (of_queue queue_id) t.mailboxes) in
      let emptied : select_where (is_of queue_id) t'.messages ≡ [] =
        rw (d.messages, same) (select_where-delete_same (is_of queue_id) (purged now t).messages) in
      let recorded : exists_where (is_retired (c.sha256 queue_id)) t'.retired_queues ≡ true =
        subst (λ q. exists_where (is_retired (c.sha256 q)) t'.retired_queues ≡ true) same
          (ap (exists_where (is_retired (c.sha256 request.queue_id))) d.retired
            ∙ insert_retired-exists (Remove.retired_row c request now t) t.retired_queues
                (laws.length_sha256 request.queue_id)) in
      rw (gone, emptied, recorded) refl

  other_deletion :
      (request : DeleteMailboxRequest) (t' : Tables) (found : Bool)
      → Remove.Deleted c request now t t' found
      → bytes_eq request.queue_id queue_id ≡ false
      → (queue_of c queue_id t' ≡ after_sweep)
        ⊎ ((c.sha256 request.queue_id ≡ c.sha256 queue_id)
            × (queue_of c queue_id t' ≡ record after_sweep { retired = true }))
  other_deletion request t' found d other =
      let hash = c.sha256 queue_id in
      let row = Remove.retired_row c request now t in
      let kept : find_where (of_queue queue_id) t'.mailboxes
          ≡ find_where (of_queue queue_id) t.mailboxes =
        ap (find_where (of_queue queue_id)) d.mailboxes
        ∙ find_where-delete_where (of_queue request.queue_id) (of_queue queue_id) t.mailboxes (
            All-intro
              {P = λ b. (of_queue queue_id b ≡ false) ⊎ (of_queue request.queue_id b ≡ false)}
              (λ b. of_one_queue queue_id request.queue_id b.queue_id other) t.mailboxes) in
      let spared : select_where (is_of queue_id) t'.messages ≡ after_sweep.messages =
        ap (select_where (is_of queue_id)) d.messages
        ∙ select_where-delete_where (is_of request.queue_id) (is_of queue_id)
            (purged now t).messages
            (All-intro {P = λ m. (is_of queue_id m ≡ false) ⊎ (is_of request.queue_id m ≡ false)}
              (λ m. of_one_queue queue_id request.queue_id m.queue_id other)
              (purged now t).messages) in
      elim (Bool-cases (exists_where (is_retired hash) t'.retired_queues)) [
        | inr still ↦
            let was : exists_where (is_retired hash) t.retired_queues ≡ false =
              ground (arith, d.retired, still, exists-insert_retired hash row t.retired_queues) in
            inl (rw (kept, spared, still, was) refl)
        | inl now_retired ↦ elim (Bool-cases (exists_where (is_retired hash) t.retired_queues)) [
          | inl was ↦ inl (rw (kept, spared, now_retired, was) refl)
          | inr was ↦ inr (
            insert_retired-only hash row t.retired_queues was
                (ap (exists_where (is_retired hash)) (sym d.retired) ∙ now_retired),
            rw (kept, spared, now_retired) refl,
          )
        ]
      ]

  pub delete_mailbox-Moves :
      (request : DeleteMailboxRequest) (found : Bool) (t' : Tables)
      → call ≡ deletes request
      → Remove.Deleted c request now t t' found
      → Moves c queue_id call now before (queue_of c queue_id t')
  delete_mailbox-Moves request found t' is_call d =
      elim (Bool-cases (bytes_eq request.queue_id queue_id)) [
        | inr other ↦ elim (other_deletion request t' found d other) [
          | inl same ↦ sweeps_to same
          | inr (hash, retired) ↦ sweeps_then (retires request is_call hash retired)
        ]
        | inl own ↦
            let same = (bytes_eq_iff request.queue_id queue_id).0 own in
            moves (expires (queue_of-purged c queue_id now t)) (
              moves (retires request is_call (ap c.sha256 same) refl) (
                moves
                  (closes d.mailbox request is_call
                    (subst (λ q. find_where (of_queue q) t.mailboxes ≡ some d.mailbox) same
                      d.registered)
                    d.signed same refl (own_deletion request t' found d same))
                  rests))
      ]
