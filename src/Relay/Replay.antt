-- ===== src/Relay/Replay.antt =====
-- Replays of fetch requests: the nonce of a fetch that has succeeded stays on record.
use secure_messenger_lab.Prelude.{
  ℕ, ◌<◌, ◌≡◌, refl, sym, subst, ◌∙◌, ap, true, false, Bool, List, [], ◌∷◌, ◌++◌, ◌&&◌, ◌⊎◌, inl,
  inr, arith, All, All-intro, Bool-cases, leb,
}
use secure_messenger_lab.Errors.{ok}
use secure_messenger_lab.Bytes.{Bytes, bytes_eq}
use secure_messenger_lab.Bytes.Laws.{bytes_eq_iff, bytes_eq_refl}
use secure_messenger_lab.Crypto.{Crypto, Laws}
use secure_messenger_lab.Packets.{StoredEnvelope}
use secure_messenger_lab.Capability.{FetchRequest, DeleteMailboxRequest}
use secure_messenger_lab.Table.{exists_where, delete_where}
use secure_messenger_lab.Table.Laws.{
  exists_where-append, exists_where-append_right, exists_where-delete_where, exists_where-weaken,
}
use secure_messenger_lab.Relay.Store.{RequestNonce, Role, receive, manage, Tables, Relay, Faults}
use secure_messenger_lab.Relay.Sql.{role_eq, is_request_nonce, request_nonce_expired}
use secure_messenger_lab.Relay.Success.{purged}
use secure_messenger_lab.Relay.Fetch.{fetch}
use secure_messenger_lab.Relay.Effects.Fetch.{fetch-ok, nonce_row}
use secure_messenger_lab.Relay.Effects.Register
use secure_messenger_lab.Relay.Effects.Enqueue
use secure_messenger_lab.Relay.Effects.Acknowledge
use secure_messenger_lab.Relay.Effects.Remove
use secure_messenger_lab.Relay.Run.{
  Event, Change, unchanged, swept, registered, enqueued, fetched, acknowledged, deleted, run,
  run_induction_when,
}
use secure_messenger_lab.Relay.Retired.{IsRetired, Change-IsRetired, Deleted-IsRetired}
use secure_messenger_lab.Relay.Spec.View.{of_one_queue}

role_eq_refl : (role : Role) → role_eq role role ≡ true
role_eq_refl receive = refl
role_eq_refl manage = refl

-- A row of the request's nonce that no sweep before `until` removes.
abbrev is_kept : Bytes → Bytes → ℕ → RequestNonce → Bool
is_kept queue_id nonce until n =
    is_request_nonce queue_id receive nonce n && leb until n.delete_after

module _ (c : Crypto) (laws : Laws c) (queue_id nonce : Bytes) (until : ℕ) where
  -- The nonce is on record, or its queue is gone for good.
  abbrev IsSpent : Tables → Type 0
  IsSpent t =
      IsRetired c queue_id t ⊎ (exists_where (is_kept queue_id nonce until) t.request_nonces ≡ true)

  kept-purged :
      (now : ℕ) (ns : List RequestNonce)
      → now < until
      → exists_where (is_kept queue_id nonce until) ns ≡ true
      → exists_where (is_kept queue_id nonce until) (delete_where (request_nonce_expired now) ns)
        ≡ true
  kept-purged now ns early h =
      exists_where-delete_where (request_nonce_expired now) (is_kept queue_id nonce until) ns (
        All-intro
          {P = λ n.
            (is_kept queue_id nonce until n ≡ false) ⊎ (request_nonce_expired now n ≡ false)}
          (λ n. ground arith) ns)
      ∙ h

  kept-other_queue :
      (queue : Bytes) (ns : List RequestNonce)
      → bytes_eq queue queue_id ≡ false
      → exists_where (is_kept queue_id nonce until) ns ≡ true
      → exists_where
          (is_kept queue_id nonce until)
          (delete_where (λ n. bytes_eq n.queue_id queue) ns)
        ≡ true
  kept-other_queue queue ns other h =
      exists_where-delete_where (λ n. bytes_eq n.queue_id queue) (is_kept queue_id nonce until) ns
        (All-intro
          {P = λ n. (is_kept queue_id nonce until n ≡ false) ⊎ (bytes_eq n.queue_id queue ≡ false)}
          (λ n. let apart = of_one_queue queue_id queue n.queue_id other in ground arith) ns)
      ∙ h

  module _ (e : Event) (t t' : Tables) (early : e.now < until)
      (h : exists_where (is_kept queue_id nonce until) t.request_nonces ≡ true) where
    swept_only : t'.request_nonces ≡ (purged e.now t).request_nonces → IsSpent t'
    swept_only same = inr (
        ap (exists_where (is_kept queue_id nonce until)) same
        ∙ kept-purged e.now t.request_nonces early h)

    one_more :
        (row : RequestNonce)
        → exists_where (is_kept queue_id nonce until) ((purged e.now t).request_nonces ++ row ∷ [])
          ≡ true
    one_more row =
        exists_where-append (is_kept queue_id nonce until) (purged e.now t).request_nonces
          (row ∷ []) (kept-purged e.now t.request_nonces early h)

    deletion-IsSpent :
        (request : DeleteMailboxRequest) (found : Bool)
        → Remove.Deleted c request e.now t t' found
        → IsSpent t'
    deletion-IsSpent request found d = elim (Bool-cases (bytes_eq request.queue_id queue_id)) [
      | inl own ↦ inl (
          subst (λ q. IsRetired c q t') ((bytes_eq_iff request.queue_id queue_id).0 own)
            (Deleted-IsRetired c laws request e.now t t' found d))
      | inr other ↦ inr (
          ap (exists_where (is_kept queue_id nonce until)) d.request_nonces
          ∙ kept-other_queue request.queue_id _ other
              (one_more (Remove.nonce_row c request e.now t)))
    ]

    kept-IsSpent : Change c e.call e.now t t' → IsSpent t'
    kept-IsSpent (unchanged same) = subst IsSpent (sym same) (inr h)
    kept-IsSpent (swept same) = swept_only (ap (λ u. u.request_nonces) same)
    kept-IsSpent (registered request fresh _ _ d) = elim d.outcome [
      | Register.is_retry _ _ _ _ _ same ↦ swept_only (ap (λ u. u.request_nonces) same)
      | Register.is_new _ _ _ same ↦ swept_only (ap (λ u. u.request_nonces) same)
    ]
    kept-IsSpent (enqueued request out _ _ _ d) = elim d.outcome [
      | Enqueue.is_stored _ _ same ↦ swept_only (ap (λ u. u.request_nonces) same)
      | Enqueue.is_duplicate _ _ _ _ _ same ↦ swept_only (ap (λ u. u.request_nonces) same)
    ]
    kept-IsSpent (fetched request out _ d) = inr (
        ap (λ u. exists_where (is_kept queue_id nonce until) u.request_nonces) d.after
        ∙ one_more (nonce_row c request e.now t))
    kept-IsSpent (acknowledged request out _ d) = elim d.outcome [
      | Acknowledge.is_repeated _ _ _ same ↦ swept_only (ap (λ u. u.request_nonces) same)
      | Acknowledge.is_deleted _ _ _ _ same ↦ swept_only (ap (λ u. u.request_nonces) same)
    ]
    kept-IsSpent (deleted request found _ d) = deletion-IsSpent request found d

  Change-IsSpent :
      (e : Event) (t t' : Tables)
      → e.now < until
      → Change c e.call e.now t t'
      → IsSpent t
      → IsSpent t'
  Change-IsSpent e t t' early d (inl gone) =
      inl (Change-IsRetired c queue_id e.call e.now t t' d gone)
  Change-IsSpent e t t' early d (inr h) = kept-IsSpent e t t' early h d

  run-IsSpent :
      (r : Relay) (es : List Event)
      → All (λ e. e.now < until) es
      → IsSpent r.tables
      → IsSpent (run c r es).tables
  run-IsSpent r es early h =
      run_induction_when c (λ e. e.now < until) IsSpent Change-IsSpent r es early h

own_row :
    (row : RequestNonce)
    → exists_where
        (is_kept row.queue_id row.nonce row.delete_after)
        (record row { role = receive } ∷ [])
      ≡ true
unfolding exists_where
own_row row = ground (arith, bytes_eq_refl row.queue_id, bytes_eq_refl row.nonce)

-- A fetch request that has succeeded is not accepted again, at whatever time and with whatever
-- faults, after any history of calls each of which comes at a time before the request's
-- `valid_until`.
pub fetch_once :
    (c : Crypto) (laws : Laws c) (fails : Faults) (r r' : Relay) (request : FetchRequest) (now : ℕ)
    (envelopes : List StoredEnvelope)
    → fetch c fails r request now ≡ (ok envelopes, r')
    → (es : List Event) → All (λ e. e.now < request.valid_until) es
    → (again : Faults) (s : Relay) (later : ℕ) (more : List StoredEnvelope)
    → ¬ (fetch c again (run c r' es) request later ≡ (ok more, s))
fetch_once c laws fails r r' request now envelopes e es early again s later more f =
    let (_, _, first) = fetch-ok c fails r r' request now envelopes e in
    let (live, _, second) = fetch-ok c again (run c r' es) s request later more f in
    let row = nonce_row c request now r.tables in
    let recorded =
      exists_where-append_right (is_kept request.queue_id request.nonce request.valid_until)
        (purged now r.tables).request_nonces (row ∷ []) (own_row row) in
    let spent = run-IsSpent c laws request.queue_id request.nonce request.valid_until r' es early (
      inr (
        ap
          (λ t.
            exists_where (is_kept request.queue_id request.nonce request.valid_until)
              t.request_nonces)
          first.after
        ∙ recorded)) in
    elim spent [
      | inl gone ↦ absurd (ground (arith, gone.no_mailbox, second.registered))
      | inr kept ↦
          let seen =
            exists_where-weaken (is_kept request.queue_id request.nonce request.valid_until)
              (is_request_nonce request.queue_id receive request.nonce) (λ n k. ground arith) _
              (kept-purged c laws request.queue_id request.nonce request.valid_until later
                (run c r' es).tables.request_nonces live kept) in
          absurd (ground (arith, seen, second.fresh))
    ]
