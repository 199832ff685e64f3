-- ===== src/Relay/Tombstones.antt =====
-- The tombstone of an acknowledged message, and what it keeps out.
pub mod Sends
use secure_messenger_lab.Prelude.{
  ℕ, ◌+◌, ◌<◌, ◌≡◌, refl, sym, subst, ◌∙◌, ap, true, false, none, Bool, List, [], ◌∷◌, ◌++◌, ◌&&◌,
  ◌⊎◌, inl, inr, arith, All, All-intro, Bool-cases, leb, ltb, map,
}
use secure_messenger_lab.Errors.{ok}
use secure_messenger_lab.Bytes.{Bytes, bytes_eq}
use secure_messenger_lab.Bytes.Laws.{bytes_eq_iff, bytes_eq_refl}
use secure_messenger_lab.Crypto.{Crypto, Laws}
use secure_messenger_lab.Capability.{AckRequest, SendRequest, DeleteMailboxRequest}
use secure_messenger_lab.Table.{find_where, exists_where, delete_where}
use secure_messenger_lab.Table.Laws.{
  find_where-append, find_none-delete_where, find_where-none, delete_where-All, exists_where-append,
  exists_where-append_right, exists_where-delete_where, exists_where-weaken,
}
use secure_messenger_lab.Relay.Store.{Tombstone, Message, Tables, Relay, Faults}
use secure_messenger_lab.Relay.Sql.{
  is_message, is_tombstone, message_expired, tombstone_expired, extend_tombstone, upsert_tombstone,
}
use secure_messenger_lab.Relay.Checks.{tombstone_ttl_seconds}
use secure_messenger_lab.Relay.Success.{purged}
use secure_messenger_lab.Relay.Enqueue.{EnqueueOutcome, enqueue, message_of}
use secure_messenger_lab.Relay.Acknowledge.{AckOutcome, acknowledge}
use secure_messenger_lab.Relay.Effects.Enqueue.{enqueue-ok}
use secure_messenger_lab.Relay.Effects.Register
use secure_messenger_lab.Relay.Effects.Enqueue
use secure_messenger_lab.Relay.Effects.Acknowledge
use secure_messenger_lab.Relay.Effects.Remove
use secure_messenger_lab.Relay.Run.{
  Call, Event, Change, unchanged, swept, registered, enqueued, fetched, acknowledged, deleted, run,
  run_induction_when,
}
use secure_messenger_lab.Relay.Retired.{IsRetired, Change-IsRetired, Deleted-IsRetired}
use secure_messenger_lab.Relay.Spec.View.{of_one_queue}

-- A tombstone of the message that no sweep before `until` removes.
abbrev pub is_kept : Bytes → Bytes → ℕ → Tombstone → Bool
is_kept queue_id message_id until d = is_tombstone queue_id message_id d && leb until d.delete_after

extended-kept :
    (row : Tombstone) (ds : List Tombstone)
    → exists_where (is_tombstone row.queue_id row.message_id) ds ≡ true
    → exists_where
        (is_kept row.queue_id row.message_id row.delete_after)
        (map (extend_tombstone row) ds)
      ≡ true
unfolding exists_where extend_tombstone
extended-kept row [] h = absurd (ground arith)
extended-kept row (d ∷ ds) h = ground (arith, extended-kept row ds)

pub upsert_tombstone-kept :
    (row : Tombstone) (ds : List Tombstone)
    → exists_where (is_kept row.queue_id row.message_id row.delete_after) (upsert_tombstone row ds)
      ≡ true
unfolding upsert_tombstone exists_where
upsert_tombstone-kept row ds = ground (
  arith,
  bytes_eq_refl row.queue_id,
  bytes_eq_refl row.message_id,
  extended-kept row ds,
  exists_where-append_right (is_kept row.queue_id row.message_id row.delete_after) ds (row ∷ []),
)

module _ (queue_id message_id : Bytes) (until : ℕ) where
  -- The upsert of another message's row leaves the tombstone.
  extended-other :
      (row : Tombstone) (ds : List Tombstone)
      → is_tombstone queue_id message_id row ≡ false
      → exists_where (is_kept queue_id message_id until) ds ≡ true
      → exists_where (is_kept queue_id message_id until) (map (extend_tombstone row) ds) ≡ true
  unfolding exists_where extend_tombstone
  extended-other row [] other h = absurd (ground arith)
  extended-other row (d ∷ ds) other h = ground (
    arith,
    h,
    other,
    extended-other row ds other,
    bytes_eq_iff d.queue_id queue_id,
    bytes_eq_iff d.message_id message_id,
    bytes_eq_iff d.queue_id row.queue_id,
    bytes_eq_iff d.message_id row.message_id,
  )

  upsert_tombstone-other :
      (row : Tombstone) (ds : List Tombstone)
      → is_tombstone queue_id message_id row ≡ false
      → exists_where (is_kept queue_id message_id until) ds ≡ true
      → exists_where (is_kept queue_id message_id until) (upsert_tombstone row ds) ≡ true
  unfolding upsert_tombstone
  upsert_tombstone-other row ds other h = ground (
    arith,
    h,
    extended-other row ds other h,
    exists_where-append (is_kept queue_id message_id until) ds (row ∷ []),
  )

module _ (c : Crypto) (laws : Laws c) (queue_id message_id : Bytes) (until : ℕ) where
  -- The tombstone is on record, and the message is not.
  pub record IsBuried (t : Tables) : Type 0 where
    pub tombstone : exists_where (is_kept queue_id message_id until) t.tombstones ≡ true
    pub no_message : find_where (is_message queue_id message_id) t.messages ≡ none

  -- The message is gone until then, or its queue is gone for good.
  abbrev pub IsGone : Tables → Type 0
  IsGone t = IsRetired c queue_id t ⊎ IsBuried t

  pub kept-purged :
      (now : ℕ) (ds : List Tombstone)
      → now < until
      → exists_where (is_kept queue_id message_id until) ds ≡ true
      → exists_where (is_kept queue_id message_id until) (delete_where (tombstone_expired now) ds)
        ≡ true
  kept-purged now ds early h =
      exists_where-delete_where (tombstone_expired now) (is_kept queue_id message_id until) ds (
        All-intro
          {P = λ d.
            (is_kept queue_id message_id until d ≡ false) ⊎ (tombstone_expired now d ≡ false)}
          (λ d. ground arith) ds)
      ∙ h

  kept-other_queue :
      (queue : Bytes) (ds : List Tombstone)
      → bytes_eq queue queue_id ≡ false
      → exists_where (is_kept queue_id message_id until) ds ≡ true
      → exists_where
          (is_kept queue_id message_id until)
          (delete_where (λ d. bytes_eq d.queue_id queue) ds)
        ≡ true
  kept-other_queue queue ds other h =
      exists_where-delete_where (λ d. bytes_eq d.queue_id queue) (is_kept queue_id message_id until)
        ds
        (All-intro
          {P = λ d.
            (is_kept queue_id message_id until d ≡ false) ⊎ (bytes_eq d.queue_id queue ≡ false)}
          (λ d. let apart = of_one_queue queue_id queue d.queue_id other in ground arith) ds)
      ∙ h

  module _ (e : Event) (t t' : Tables) (early : e.now < until) (h : IsBuried t) where
    still : exists_where (is_kept queue_id message_id until) (purged e.now t).tombstones ≡ true
    still = kept-purged e.now t.tombstones early h.tombstone

    no_message_swept : find_where (is_message queue_id message_id) (purged e.now t).messages ≡ none
    no_message_swept =
        find_none-delete_where (is_message queue_id message_id) (message_expired e.now) t.messages
          h.no_message

    swept_only :
        t'.tombstones ≡ (purged e.now t).tombstones
        → t'.messages ≡ (purged e.now t).messages
        → IsGone t'
    swept_only ds ms = inr (record {
      tombstone = ap (exists_where (is_kept queue_id message_id until)) ds ∙ still;
      no_message = ap (find_where (is_message queue_id message_id)) ms ∙ no_message_swept;
    })

    all_swept : t' ≡ purged e.now t → IsGone t'
    all_swept same = swept_only (ap (λ u. u.tombstones) same) (ap (λ u. u.messages) same)

    enqueue-IsGone :
        (request : SendRequest) (out : EnqueueOutcome)
        → Enqueue.Enqueued c request e.now t t' out
        → IsGone t'
    enqueue-IsGone request out d = elim d.outcome [
      | Enqueue.is_duplicate _ _ _ _ _ same ↦ all_swept same
      | Enqueue.is_stored _ _ same ↦
          let row = message_of request request.expires_at in
          elim (Bool-cases (is_message queue_id message_id row)) [
            | inr other ↦ inr (record {
              tombstone =
                  ap (λ u. exists_where (is_kept queue_id message_id until) u.tombstones) same
                  ∙ still;
              no_message =
                  ap (λ u. find_where (is_message queue_id message_id) u.messages) same
                  ∙ find_where-append (is_message queue_id message_id) (purged e.now t).messages
                      (row ∷ []) no_message_swept
                  ∙ find_where-none (is_message queue_id message_id) (row ∷ []) (other, tt);
            })
            | inl own ↦
                let queue = (bytes_eq_iff request.queue_id queue_id).0 (ground arith) in
                let message = (bytes_eq_iff request.message_id message_id).0 (ground arith) in
                let live =
                  exists_where-weaken (is_kept queue_id message_id until)
                    (λ d. is_tombstone queue_id message_id d && ltb e.now d.delete_after)
                    (λ d k. ground arith) _ still in
                absurd (ground (arith, d.not_gone, live, queue, message))
          ]
    ]

    acknowledge-IsGone :
        (request : AckRequest) (out : AckOutcome)
        → Acknowledge.Acknowledged c request e.now t t' out
        → IsGone t'
    acknowledge-IsGone request out d = elim d.outcome [
      | Acknowledge.is_repeated _ _ _ same ↦ all_swept same
      | Acknowledge.is_deleted old _ found _ same ↦
          let row = Acknowledge.tombstone_row c request e.now t in
          elim (Bool-cases (is_tombstone queue_id message_id row)) [
            | inr other ↦ inr (record {
              tombstone =
                  ap (λ u. exists_where (is_kept queue_id message_id until) u.tombstones) same
                  ∙ upsert_tombstone-other queue_id message_id until row (purged e.now t).tombstones
                      other still;
              no_message =
                  ap (λ u. find_where (is_message queue_id message_id) u.messages) same
                  ∙ find_none-delete_where (is_message queue_id message_id)
                      (is_message request.queue_id request.message_id) (purged e.now t).messages
                      no_message_swept;
            })
            | inl own ↦
                let queue = (bytes_eq_iff request.queue_id queue_id).0 (ground arith) in
                let message = (bytes_eq_iff request.message_id message_id).0 (ground arith) in
                absurd (ground (arith, found, no_message_swept, queue, message))
          ]
    ]

    delete-IsGone :
        (request : DeleteMailboxRequest) (found : Bool)
        → Remove.Deleted c request e.now t t' found
        → IsGone t'
    delete-IsGone request found d = elim (Bool-cases (bytes_eq request.queue_id queue_id)) [
      | inl own ↦ inl (
          subst (λ q. IsRetired c q t') ((bytes_eq_iff request.queue_id queue_id).0 own)
            (Deleted-IsRetired c laws request e.now t t' found d))
      | inr other ↦ inr (record {
        tombstone =
            ap (exists_where (is_kept queue_id message_id until)) d.tombstones
            ∙ kept-other_queue request.queue_id _ other still;
        no_message =
            ap (find_where (is_message queue_id message_id)) d.messages
            ∙ find_none-delete_where (is_message queue_id message_id)
                (λ m. bytes_eq m.queue_id request.queue_id) (purged e.now t).messages
                no_message_swept;
      })
    ]

    buried-IsGone : Change c e.call e.now t t' → IsGone t'
    buried-IsGone (unchanged same) = subst IsGone (sym same) (inr h)
    buried-IsGone (swept same) = all_swept same
    buried-IsGone (registered request fresh _ _ d) = elim d.outcome [
      | Register.is_retry _ _ _ _ _ same ↦
          swept_only (ap (λ u. u.tombstones) same) (ap (λ u. u.messages) same)
      | Register.is_new _ _ _ same ↦
          swept_only (ap (λ u. u.tombstones) same) (ap (λ u. u.messages) same)
    ]
    buried-IsGone (enqueued request out _ _ _ d) = enqueue-IsGone request out d
    buried-IsGone (fetched request out _ d) =
        swept_only (ap (λ u. u.tombstones) d.after) (ap (λ u. u.messages) d.after)
    buried-IsGone (acknowledged request out _ d) = acknowledge-IsGone request out d
    buried-IsGone (deleted request found _ d) = delete-IsGone request found d

  Change-IsGone :
      (e : Event) (t t' : Tables)
      → e.now < until
      → Change c e.call e.now t t'
      → IsGone t
      → IsGone t'
  Change-IsGone e t t' early d (inl gone) =
      inl (Change-IsRetired c queue_id e.call e.now t t' d gone)
  Change-IsGone e t t' early d (inr h) = buried-IsGone e t t' early h d

  pub run-IsGone :
      (r : Relay) (es : List Event)
      → All (λ e. e.now < until) es
      → IsGone r.tables
      → IsGone (run c r es).tables
  run-IsGone r es early h =
      run_induction_when c (λ e. e.now < until) IsGone Change-IsGone r es early h
