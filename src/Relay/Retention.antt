-- ===== src/Relay/Retention.antt =====
-- Bounded retention: how long a message can stay at the relay, and what the sweep deletes.
use secure_messenger_lab.Prelude.{
  ℕ, ◌+◌, ◌≤◌, ◌<◌, ◌≡◌, refl, sym, ◌∙◌, ap, List, [], ◌∷◌, arith, All, All-map, All-append, subst,
  length, le→leb,
}
use secure_messenger_lab.Errors.{ok}
use secure_messenger_lab.Crypto.{Crypto}
use secure_messenger_lab.Bytes.{bytes_eq}
use secure_messenger_lab.Table.{delete_where, select_where}
use secure_messenger_lab.Table.Laws.{All-delete_where, delete_where_everything, delete_where-All}
use secure_messenger_lab.Relay.Store.{Message, Tables, Relay, Faults}
use secure_messenger_lab.Relay.Sql.{is_message, message_expired}
use secure_messenger_lab.Relay.Checks.{max_message_ttl_seconds}
use secure_messenger_lab.Relay.Success.{purged}
use secure_messenger_lab.Relay.Remove.{purge_expired}
use secure_messenger_lab.Relay.Effects.Remove.{purge_expired-ok}
use secure_messenger_lab.Relay.Effects.Register
use secure_messenger_lab.Relay.Effects.Enqueue
use secure_messenger_lab.Relay.Effects.Acknowledge
use secure_messenger_lab.Relay.Run.{
  Event, Change, unchanged, swept, registered, enqueued, fetched, acknowledged, deleted, run,
  run_induction_when,
}

module _ (c : Crypto) (latest : ℕ) where
  abbrev pub ExpiresInTime : Message → Type 0
  ExpiresInTime m = m.expires_at ≤ latest + max_message_ttl_seconds

  abbrev pub IsBounded : Tables → Type 0
  IsBounded t = All ExpiresInTime t.messages

  purged-IsBounded : (now : ℕ) (t : Tables) → IsBounded t → IsBounded (purged now t)
  purged-IsBounded now t h = All-delete_where (message_expired now) ExpiresInTime t.messages h

  Change-IsBounded :
      (e : Event) (t t' : Tables)
      → e.now ≤ latest
      → Change c e.call e.now t t'
      → IsBounded t
      → IsBounded t'
  Change-IsBounded e t t' early (unchanged p) h = subst IsBounded (sym p) h
  Change-IsBounded e t t' early (swept p) h = subst IsBounded (sym p) (purged-IsBounded e.now t h)
  Change-IsBounded e t t' early (registered request fresh _ _ d) h = elim d.outcome [
    | Register.is_new _ _ _ p ↦ subst IsBounded (sym p) (purged-IsBounded e.now t h)
    | Register.is_retry _ _ _ _ _ p ↦ subst IsBounded (sym p) (purged-IsBounded e.now t h)
  ]
  Change-IsBounded e t t' early (enqueued request out _ _ bounded d) h = elim d.outcome [
    | Enqueue.is_stored _ _ p ↦ subst IsBounded (sym p) (
        All-append ExpiresInTime (purged e.now t).messages _ (purged-IsBounded e.now t h)
          (omega arith, tt))
    | Enqueue.is_duplicate _ _ _ _ _ p ↦ subst IsBounded (sym p) (purged-IsBounded e.now t h)
  ]
  Change-IsBounded e t t' early (fetched request out _ d) h =
      subst IsBounded (sym d.after) (purged-IsBounded e.now t h)
  Change-IsBounded e t t' early (acknowledged request out _ d) h = elim d.outcome [
    | Acknowledge.is_repeated _ _ _ p ↦ subst IsBounded (sym p) (purged-IsBounded e.now t h)
    | Acknowledge.is_deleted _ _ _ _ p ↦ subst IsBounded (sym p) (
        All-delete_where (is_message request.queue_id request.message_id) ExpiresInTime _
          (purged-IsBounded e.now t h))
  ]
  Change-IsBounded e t t' early (deleted request out _ d) h =
      subst (All ExpiresInTime) (sym d.messages) (
        All-delete_where (λ m. bytes_eq m.queue_id request.queue_id) ExpiresInTime _
          (purged-IsBounded e.now t h))

  -- If every call of a history happens no later than `latest`, starting from messages that expire
  -- within seven days of it, then a sweep that succeeds seven days after `latest` or later leaves
  -- no message at all.
  pub retention :
      (r r' : Relay) (es : List Event) (fails : Faults) (now n : ℕ)
      → IsBounded r.tables
      → All (λ e. e.now ≤ latest) es
      → latest + max_message_ttl_seconds ≤ now
      → purge_expired fails (run c r es) now ≡ (ok n, r')
      → r'.tables.messages ≡ []
  retention r r' es fails now n h early late e =
      let bounded =
        run_induction_when c (λ e. e.now ≤ latest) IsBounded Change-IsBounded r es early h in
      ap (λ t. t.messages) (purge_expired-ok fails (run c r es) r' now n e).0
      ∙ delete_where_everything (message_expired now) (run c r es).tables.messages (
          All-map (λ m soon. le→leb m.expires_at now (omega arith)) (run c r es).tables.messages
            bounded)

length-swept :
    (now : ℕ) (ms : List Message)
    → length (select_where (message_expired now) ms)
        + length (delete_where (message_expired now) ms)
      ≡ length ms
unfolding select_where delete_where
length-swept now [] = refl
length-swept now (m ∷ ms) = ground (arith, length-swept now ms)

-- A successful `purge_expired` returns the number of messages that it deleted, and leaves no
-- message that has expired; mailboxes and retired queues stay.
pub purge_expired_exact :
    (fails : Faults) (r r' : Relay) (now n : ℕ)
    → purge_expired fails r now ≡ (ok n, r')
    → (n + length r'.tables.messages ≡ length r.tables.messages)
      × All (λ m. now < m.expires_at) r'.tables.messages
      × (r'.tables.mailboxes ≡ r.tables.mailboxes)
      × (r'.tables.retired_queues ≡ r.tables.retired_queues)
purge_expired_exact fails r r' now n e =
    let facts = purge_expired-ok fails r r' now n e in
    let left : r'.tables.messages ≡ delete_where (message_expired now) r.tables.messages =
      ap (λ t. t.messages) facts.0 in
    (
      omega (arith, facts.1, ap length left, length-swept now r.tables.messages),
      subst (All (λ m. now < m.expires_at)) (sym left) (
          All-map (λ m live. ground arith) _
            (delete_where-All (message_expired now) r.tables.messages)),
      ap (λ t. t.mailboxes) facts.0,
      ap (λ t. t.retired_queues) facts.0,
    )
