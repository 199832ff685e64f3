-- ===== src/Relay/Retired.antt =====
-- A deleted queue is retired: its identifier is never used again.
use secure_messenger_lab.Prelude.{
  ℕ, ◌≡◌, sym, ◌∙◌, ap, true, false, Bool, none, some, refl, List, [], ◌∷◌, ◌++◌, inl, inr, arith,
  subst, Bool-cases, length,
}
use secure_messenger_lab.Errors.{LabError, Result, ok, err}
use secure_messenger_lab.Bytes.{Bytes, bytes_eq}
use secure_messenger_lab.Bytes.Laws.{bytes_eq_iff, bytes_eq_refl}
use secure_messenger_lab.Crypto.{Crypto, Laws}
use secure_messenger_lab.Capability.{MailboxRegistration, DeleteMailboxRequest}
use secure_messenger_lab.Table.{find_where, exists_where, delete_where}
use secure_messenger_lab.Table.Laws.{
  find_where-none, find_where-append, delete_where-All, All-delete_where, find_where-All-none,
  exists_where-append, exists_where-append_right, exists_where-append_other,
}
use secure_messenger_lab.Relay.Store.{RetiredQueue, Mailbox, Tables, Relay, Faults}
use secure_messenger_lab.Relay.Sql.{of_queue, is_retired, insert_retired}
use secure_messenger_lab.Relay.Register.{register}
use secure_messenger_lab.Relay.Enqueue.{enqueue}
use secure_messenger_lab.Relay.Fetch.{fetch}
use secure_messenger_lab.Relay.Acknowledge.{acknowledge}
use secure_messenger_lab.Relay.Remove.{delete_mailbox}
use secure_messenger_lab.Relay.Effects.Register
use secure_messenger_lab.Relay.Effects.Enqueue
use secure_messenger_lab.Relay.Effects.Fetch.{fetch-ok}
use secure_messenger_lab.Relay.Effects.Acknowledge
use secure_messenger_lab.Relay.Effects.Remove
use secure_messenger_lab.Relay.Effects.Remove.{delete_mailbox-ok}
use secure_messenger_lab.Relay.Run.{
  Call, Event, Change, unchanged, swept, registered, enqueued, fetched, acknowledged, deleted, run,
  run_induction, registers, enqueues, fetches, acknowledges, deletes, sweeps, failure, error_of,
  queue_named,
}

pub exists-insert_retired :
    (hash : Bytes) (row : RetiredQueue) (qs : List RetiredQueue)
    → exists_where (is_retired hash) qs ≡ true
    → exists_where (is_retired hash) (insert_retired row qs) ≡ true
unfolding insert_retired
exists-insert_retired hash row qs h =
    ground (arith, exists_where-append (is_retired hash) qs (row ∷ []))

pub insert_retired-exists :
    (row : RetiredQueue) (qs : List RetiredQueue)
    → length row.queue_hash ≡ 32
    → exists_where (is_retired row.queue_hash) (insert_retired row qs) ≡ true
unfolding insert_retired exists_where
insert_retired-exists row qs h = ground (
  arith,
  bytes_eq_refl row.queue_hash,
  exists_where-append_right (is_retired row.queue_hash) qs (row ∷ []),
)

-- A hash that is on record after an insertion and was not before it is the hash inserted.
pub insert_retired-only :
    (hash : Bytes) (row : RetiredQueue) (qs : List RetiredQueue)
    → exists_where (is_retired hash) qs ≡ false
    → exists_where (is_retired hash) (insert_retired row qs) ≡ true
    → row.queue_hash ≡ hash
unfolding insert_retired
insert_retired-only hash row qs before after = elim (Bool-cases (bytes_eq row.queue_hash hash)) [
  | inl same ↦ (bytes_eq_iff row.queue_hash hash).0 same
  | inr other ↦
      let added = exists_where-append_other (is_retired hash) qs row other in
      absurd (ground (arith, before, after, added))
]

module _ (c : Crypto) (queue_id : Bytes) where
  -- The queue's hash is on record, and it has no mailbox.
  pub record IsRetired (t : Tables) : Type 0 where
    pub recorded : exists_where (is_retired (c.sha256 queue_id)) t.retired_queues ≡ true
    pub no_mailbox : find_where (of_queue queue_id) t.mailboxes ≡ none

  same-IsRetired :
      (t t' : Tables)
      → t'.mailboxes ≡ t.mailboxes
      → t'.retired_queues ≡ t.retired_queues
      → IsRetired t
      → IsRetired t'
  same-IsRetired t t' boxes queues h = record {
    recorded = ap (exists_where (is_retired (c.sha256 queue_id))) queues ∙ h.recorded;
    no_mailbox = ap (find_where (of_queue queue_id)) boxes ∙ h.no_mailbox;
  }

  no_mailbox-append :
      (boxes : List Mailbox) (row : Mailbox)
      → find_where (of_queue queue_id) boxes ≡ none
      → of_queue queue_id row ≡ false
      → find_where (of_queue queue_id) (boxes ++ row ∷ []) ≡ none
  no_mailbox-append boxes row h other =
      find_where-append (of_queue queue_id) boxes (row ∷ []) h
      ∙ find_where-none (of_queue queue_id) (row ∷ []) (other, tt)

  no_mailbox-delete :
      (boxes : List Mailbox) (queue : Bytes)
      → find_where (of_queue queue_id) boxes ≡ none
      → find_where (of_queue queue_id) (delete_where (of_queue queue) boxes) ≡ none
  no_mailbox-delete boxes queue h = find_where-none (of_queue queue_id) _ (
      All-delete_where (of_queue queue) (λ b. of_queue queue_id b ≡ false) boxes
        (find_where-All-none (of_queue queue_id) boxes h))

  register-IsRetired :
      (request : MailboxRegistration) (now : ℕ) (t t' : Tables) (fresh : Bool)
      → Register.Registered c request now t t' fresh
      → IsRetired t
      → IsRetired t'
  register-IsRetired request now t t' fresh d h = elim d.outcome [
    | Register.is_retry _ _ _ _ _ e ↦
        same-IsRetired t t' (ap (λ u. u.mailboxes) e) (ap (λ u. u.retired_queues) e) h
    | Register.is_new _ _ _ e ↦ record {
      recorded =
          ap (λ u. exists_where (is_retired (c.sha256 queue_id)) u.retired_queues) e ∙ h.recorded;
      no_mailbox =
          ap (λ u. find_where (of_queue queue_id) u.mailboxes) e
          ∙ no_mailbox-append t.mailboxes _ h.no_mailbox
              (elim (Bool-cases (bytes_eq request.queue_id queue_id)) [
                | inr other ↦ other
                | inl same ↦
                    let reused : request.queue_id ≡ queue_id = (bytes_eq_iff _ _).0 same in
                    absurd (ground (arith, reused, h.recorded, d.not_retired))
              ]);
    }
  ]

  pub Change-IsRetired :
      (call : Call) (now : ℕ) (t t' : Tables) → Change c call now t t' → IsRetired t → IsRetired t'
  Change-IsRetired call now t t' (unchanged e) h = subst IsRetired (sym e) h
  Change-IsRetired call now t t' (swept e) h =
      same-IsRetired t t' (ap (λ u. u.mailboxes) e) (ap (λ u. u.retired_queues) e) h
  Change-IsRetired call now t t' (registered request fresh _ _ d) h =
      register-IsRetired request now t t' fresh d h
  Change-IsRetired call now t t' (enqueued request out _ _ _ d) h = elim d.outcome [
    | Enqueue.is_stored _ _ e ↦
        same-IsRetired t t' (ap (λ u. u.mailboxes) e) (ap (λ u. u.retired_queues) e) h
    | Enqueue.is_duplicate _ _ _ _ _ e ↦
        same-IsRetired t t' (ap (λ u. u.mailboxes) e) (ap (λ u. u.retired_queues) e) h
  ]
  Change-IsRetired call now t t' (fetched request out _ d) h =
      same-IsRetired t t' (ap (λ u. u.mailboxes) d.after) (ap (λ u. u.retired_queues) d.after) h
  Change-IsRetired call now t t' (acknowledged request out _ d) h = elim d.outcome [
    | Acknowledge.is_repeated _ _ _ e ↦
        same-IsRetired t t' (ap (λ u. u.mailboxes) e) (ap (λ u. u.retired_queues) e) h
    | Acknowledge.is_deleted _ _ _ _ e ↦
        same-IsRetired t t' (ap (λ u. u.mailboxes) e) (ap (λ u. u.retired_queues) e) h
  ]
  Change-IsRetired call now t t' (deleted request out _ d) h = record {
    recorded =
        ap (exists_where (is_retired (c.sha256 queue_id))) d.retired
        ∙ exists-insert_retired (c.sha256 queue_id) _ t.retired_queues h.recorded;
    no_mailbox =
        ap (find_where (of_queue queue_id)) d.mailboxes
        ∙ no_mailbox-delete t.mailboxes request.queue_id h.no_mailbox;
  }

  pub run-IsRetired :
      (r : Relay) (es : List Event) → IsRetired r.tables → IsRetired (run c r es).tables
  run-IsRetired r es h = run_induction c IsRetired Change-IsRetired r es h

pub Deleted-IsRetired :
    (c : Crypto) (laws : Laws c) (request : DeleteMailboxRequest) (now : ℕ) (t t' : Tables)
    (found : Bool)
    → Remove.Deleted c request now t t' found
    → IsRetired c request.queue_id t'
Deleted-IsRetired c laws request now t t' found d = record {
  recorded =
      ap (exists_where (is_retired (c.sha256 request.queue_id))) d.retired
      ∙ insert_retired-exists _ t.retired_queues (laws.length_sha256 request.queue_id);
  no_mailbox =
      ap (find_where (of_queue request.queue_id)) d.mailboxes
      ∙ find_where-none (of_queue request.queue_id) _
          (delete_where-All (of_queue request.queue_id) t.mailboxes);
}

pub delete_mailbox-IsRetired :
    (c : Crypto) (laws : Laws c) (fails : Faults) (r r' : Relay) (request : DeleteMailboxRequest)
    (now : ℕ) (found : Bool)
    → delete_mailbox c fails r request now ≡ (ok found, r')
    → IsRetired c request.queue_id r'.tables
delete_mailbox-IsRetired c laws fails r r' request now found e =
    Deleted-IsRetired c laws request now r.tables r'.tables found
      (delete_mailbox-ok c fails r r' request now found e).2

-- A call that cannot succeed fails.
fails_unless {ℓ} :
    {A : Type ℓ} (done : Result A × Relay)
    → ((a : A) (r : Relay) → ¬ (done ≡ (ok a, r)))
    → (x : LabError) × (failure done.0 ≡ some x)
fails_unless (ok a, r) never = absurd (never a r refl)
fails_unless (err x, r) never = (x, refl)

-- Calls on a retired queue fail.
IsRetired-fails :
    (c : Crypto) (queue_id : Bytes) (s : Relay) (call : Call) (time : ℕ) (later : Faults)
    → IsRetired c queue_id s.tables
    → queue_named call ≡ some queue_id
    → (x : LabError) × (error_of c s call time later ≡ some x)
IsRetired-fails c queue_id s (registers q) time later gone named =
    fails_unless (register c later s q time) λ a s' done.
      let facts = (Register.register-ok c later s s' q time a done).1 in
      absurd (ground (arith, named, gone.recorded, facts.not_retired))
IsRetired-fails c queue_id s (enqueues q) time later gone named =
    fails_unless (enqueue c later s q time) λ a s' done.
      let facts = (Enqueue.enqueue-ok c later s s' q time a done).1 in
      absurd (ground (arith, named, gone.no_mailbox, facts.registered))
IsRetired-fails c queue_id s (fetches q) time later gone named =
    fails_unless (fetch c later s q time) λ a s' done.
      let facts = (fetch-ok c later s s' q time a done).2 in
      absurd (ground (arith, named, gone.no_mailbox, facts.registered))
IsRetired-fails c queue_id s (acknowledges q) time later gone named =
    fails_unless (acknowledge c later s q time) λ a s' done.
      let facts = (Acknowledge.acknowledge-ok c later s s' q time a done).2 in
      absurd (ground (arith, named, gone.no_mailbox, facts.registered))
IsRetired-fails c queue_id s (deletes q) time later gone named =
    fails_unless (delete_mailbox c later s q time) λ a s' done.
      let facts = (delete_mailbox-ok c later s s' q time a done).2 in
      absurd (ground (arith, named, gone.no_mailbox, facts.registered))
IsRetired-fails c queue_id s sweeps time later gone named = absurd (ground (arith, named))

-- Once `delete_mailbox` has succeeded for a queue, every later call for that queue fails, whatever
-- the history in between, the time and the faults: a registration, a send, a fetch, an ACK or a
-- deletion.
pub deleted_forever :
    (c : Crypto) (laws : Laws c) (fails : Faults) (r r' : Relay) (request : DeleteMailboxRequest)
    (now : ℕ) (found : Bool)
    → delete_mailbox c fails r request now ≡ (ok found, r')
    → (es : List Event) (call : Call) (time : ℕ) (later : Faults)
    → queue_named call ≡ some request.queue_id
    → (x : LabError) × (error_of c (run c r' es) call time later ≡ some x)
deleted_forever c laws fails r r' request now found e es call time later named =
    IsRetired-fails c request.queue_id (run c r' es) call time later
      (run-IsRetired c request.queue_id r' es
        (delete_mailbox-IsRetired c laws fails r r' request now found e))
      named
