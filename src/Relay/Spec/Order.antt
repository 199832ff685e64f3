-- ===== src/Relay/Spec/Order.antt =====
-- The order of a queue: what it holds stands in the order of the sends.
use mathlib.Core.List.Sublistᴰ
use mathlib.Core.List.{Sublistᴰ}
use secure_messenger_lab.Prelude.{
  ℕ, ◌≡◌, refl, sym, subst, ap, Bool, List, [], ◌∷◌, ◌++◌, Bool-cases, inl, inr,
}
use secure_messenger_lab.Bytes.{Bytes, bytes_eq}
use secure_messenger_lab.Crypto.{Crypto}
use secure_messenger_lab.Table.{select_where, delete_where}
use secure_messenger_lab.Table.Laws.{select_where-append}
use secure_messenger_lab.Relay.Store.{Message, Tables, Relay}
use secure_messenger_lab.Relay.Sql.{is_message, message_expired}
use secure_messenger_lab.Relay.Enqueue.{message_of}
use secure_messenger_lab.Relay.Effects.Register
use secure_messenger_lab.Relay.Effects.Enqueue
use secure_messenger_lab.Relay.Effects.Acknowledge
use secure_messenger_lab.Relay.Run.{
  Call, Event, Change, unchanged, swept, registered, enqueued, fetched, acknowledged, deleted, run,
  step, perform-Change, registers, enqueues, fetches, acknowledges, deletes, sweeps,
}
use secure_messenger_lab.Relay.Spec.{is_of}

-- The message that a call sends, if it is a send.
abbrev pub sent_by : Call → List Message
sent_by (enqueues request) = message_of request request.expires_at ∷ []
sent_by (registers request) = []
sent_by (fetches request) = []
sent_by (acknowledges request) = []
sent_by (deletes request) = []
sent_by sweeps = []

-- The messages of all sends in a history, accepted or not, in their order.
unfoldable pub sent : List Event → List Message
sent [] = []
sent (e ∷ es) = sent_by e.call ++ sent es

module _ {ℓ} {A : Type ℓ} (p : A → Bool) where
  delete_where-Sublist : (xs : List A) → Sublistᴰ (delete_where p xs) xs
  unfolding delete_where
  delete_where-Sublist [] = Sublistᴰ.slnil
  delete_where-Sublist (x ∷ xs) = elim (Bool-cases (p x)) [
    | inl gone ↦ rw gone (Sublistᴰ.cons (delete_where-Sublist xs))
    | inr kept ↦ rw kept (Sublistᴰ.cons-cons refl (delete_where-Sublist xs))
  ]

  select_where-Sublist :
      {xs ys : List A} → Sublistᴰ xs ys → Sublistᴰ (select_where p xs) (select_where p ys)
  unfolding select_where
  select_where-Sublist Sublistᴰ.slnil = Sublistᴰ.slnil
  select_where-Sublist {xs} (Sublistᴰ.cons {a} d) = elim (Bool-cases (p a)) [
    | inl chosen ↦ rw chosen (Sublistᴰ.cons (select_where-Sublist d))
    | inr left ↦ rw left (select_where-Sublist d)
  ]
  select_where-Sublist (Sublistᴰ.cons-cons {a} {b} {l₁} {l₂} same d) =
      subst (λ z. Sublistᴰ (select_where p (a ∷ l₁)) (select_where p (z ∷ l₂))) same
        (elim (Bool-cases (p a)) [
          | inl chosen ↦ rw chosen (Sublistᴰ.cons-cons refl (select_where-Sublist d))
          | inr left ↦ rw left (select_where-Sublist d)
        ])

module _ {ℓ} {A : Type ℓ} where
  then_more : {xs ys : List A} (zs : List A) → Sublistᴰ xs ys → Sublistᴰ xs (ys ++ zs)
  then_more zs Sublistᴰ.slnil = Sublistᴰ.nil-sublist zs
  then_more zs (Sublistᴰ.cons d) = Sublistᴰ.cons (then_more zs d)
  then_more zs (Sublistᴰ.cons-cons e d) = Sublistᴰ.cons-cons e (then_more zs d)

  append_assoc : (xs ys zs : List A) → (xs ++ ys) ++ zs ≡ xs ++ (ys ++ zs)
  append_assoc [] ys zs = refl
  append_assoc (x ∷ xs) ys zs = ap (λ l. x ∷ l) (append_assoc xs ys zs)

module _ (c : Crypto) where
  -- The messages after a call: of those before it and then the one that it sends.
  module _ (call : Call) (now : ℕ) (t t' : Tables) where
    abbrev InOrder : List Message → Type 0
    InOrder ms = Sublistᴰ ms (t.messages ++ sent_by call)

    old_only : {ms : List Message} → t'.messages ≡ ms → Sublistᴰ ms t.messages → InOrder t'.messages
    old_only e d = subst InOrder (sym e) (then_more (sent_by call) d)

    swept_only : t'.messages ≡ delete_where (message_expired now) t.messages → InOrder t'.messages
    swept_only e = old_only e (delete_where-Sublist (message_expired now) t.messages)

    deleted_only :
        (p : Message → Bool)
        → t'.messages ≡ delete_where p (delete_where (message_expired now) t.messages)
        → InOrder t'.messages
    deleted_only p e = old_only e (
        Sublistᴰ.trans (delete_where-Sublist p _)
          (delete_where-Sublist (message_expired now) t.messages))

    Change-InOrder : Change c call now t t' → InOrder t'.messages
    Change-InOrder (unchanged e) = old_only (ap (λ u. u.messages) e) (Sublistᴰ.refl t.messages)
    Change-InOrder (swept e) = swept_only (ap (λ u. u.messages) e)
    Change-InOrder (registered request fresh _ _ d) = elim d.outcome [
      | Register.is_retry _ _ _ _ _ e ↦ swept_only (ap (λ u. u.messages) e)
      | Register.is_new _ _ _ e ↦ swept_only (ap (λ u. u.messages) e)
    ]
    Change-InOrder (fetched request out _ d) = swept_only (ap (λ u. u.messages) d.after)
    Change-InOrder (acknowledged request out _ d) = elim d.outcome [
      | Acknowledge.is_repeated _ _ _ e ↦ swept_only (ap (λ u. u.messages) e)
      | Acknowledge.is_deleted _ _ _ _ e ↦
          deleted_only (is_message request.queue_id request.message_id) (ap (λ u. u.messages) e)
    ]
    Change-InOrder (deleted request found _ d) =
        deleted_only (λ m. bytes_eq m.queue_id request.queue_id) d.messages
    Change-InOrder (enqueued request out is_call _ _ d) = elim d.outcome [
      | Enqueue.is_duplicate _ _ _ _ _ e ↦ swept_only (ap (λ u. u.messages) e)
      | Enqueue.is_stored _ _ e ↦
          subst (λ k. Sublistᴰ t'.messages (t.messages ++ sent_by k)) (sym is_call)
            (subst (λ ms. Sublistᴰ ms (t.messages ++ message_of request request.expires_at ∷ []))
              (sym (ap (λ u. u.messages) e))
              (Sublistᴰ.append (delete_where-Sublist (message_expired now) t.messages)
                (Sublistᴰ.refl (message_of request request.expires_at ∷ []))))
    ]

  run-Sublist :
      (r : Relay) (es : List Event)
      → Sublistᴰ (run c r es).tables.messages (r.tables.messages ++ sent es)
  unfolding run sent
  run-Sublist r [] = then_more [] (Sublistᴰ.refl r.tables.messages)
  run-Sublist r (e ∷ es) = Sublistᴰ.trans (run-Sublist (step c r e) es) (
      subst (λ ms. Sublistᴰ ((step c r e).tables.messages ++ sent es) ms)
        (append_assoc r.tables.messages (sent_by e.call) (sent es))
        (Sublistᴰ.append
          (Change-InOrder e.call e.now r.tables (step c r e).tables
            (perform-Change c r e.call e.now e.fails))
          (Sublistᴰ.refl (sent es))))

  -- A queue holds its messages in the order of their sends, whatever history of calls the relay has
  -- gone through and whatever statements failed: they are some of those that it held at first and
  -- then of those that the history's sends to this queue brought, no other messages, each at most
  -- as often as it was there or sent, and in the same order.
  pub run-InOrder :
      (queue_id : Bytes) (r : Relay) (es : List Event)
      → Sublistᴰ (select_where (is_of queue_id) (run c r es).tables.messages) (
          select_where (is_of queue_id) r.tables.messages
          ++ select_where (is_of queue_id) (sent es))
  run-InOrder queue_id r es =
      subst (Sublistᴰ (select_where (is_of queue_id) (run c r es).tables.messages))
        (select_where-append (is_of queue_id) r.tables.messages (sent es))
        (select_where-Sublist (is_of queue_id) (run-Sublist r es))
