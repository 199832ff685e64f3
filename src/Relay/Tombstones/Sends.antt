-- ===== src/Relay/Tombstones/Sends.antt =====
-- An acknowledged message cannot be sent again.
use secure_messenger_lab.Prelude.{ℕ, ◌+◌, ◌<◌, ◌≡◌, ◌∙◌, ap, List, ◌&&◌, inl, inr, arith, All, ltb}
use secure_messenger_lab.Errors.{ok}
use secure_messenger_lab.Crypto.{Crypto, Laws}
use secure_messenger_lab.Capability.{AckRequest, SendRequest}
use secure_messenger_lab.Table.{find_where, exists_where}
use secure_messenger_lab.Table.Laws.{find_where-none, delete_where-All, exists_where-weaken}
use secure_messenger_lab.Relay.Store.{Relay, Faults}
use secure_messenger_lab.Relay.Sql.{is_message, is_tombstone}
use secure_messenger_lab.Relay.Checks.{tombstone_ttl_seconds}
use secure_messenger_lab.Relay.Success.{purged}
use secure_messenger_lab.Relay.Enqueue.{EnqueueOutcome, enqueue}
use secure_messenger_lab.Relay.Acknowledge.{deleted, acknowledge}
use secure_messenger_lab.Relay.Effects.Enqueue.{enqueue-ok}
use secure_messenger_lab.Relay.Effects.Acknowledge
use secure_messenger_lab.Relay.Run.{Event, run}
use secure_messenger_lab.Relay.Tombstones.{
  is_kept, upsert_tombstone-kept, IsBuried, kept-purged, run-IsGone,
}

acknowledged-IsBuried :
    (c : Crypto) (laws : Laws c) (fails : Faults) (r r' : Relay) (ack : AckRequest) (now : ℕ)
    → acknowledge c fails r ack now ≡ (ok deleted, r')
    → IsBuried c laws ack.queue_id ack.message_id (now + tombstone_ttl_seconds) r'.tables
acknowledged-IsBuried c laws fails r r' ack now e =
    let (_, _, first) = Acknowledge.acknowledge-ok c fails r r' ack now deleted e in
    elim first.outcome [
      | Acknowledge.is_repeated impossible _ _ _ ↦ absurd (ground arith)
      | Acknowledge.is_deleted old _ _ _ after ↦ record {
        tombstone =
            ap
              (λ t.
                exists_where (is_kept ack.queue_id ack.message_id (now + tombstone_ttl_seconds))
                  t.tombstones)
              after
            ∙ upsert_tombstone-kept (Acknowledge.tombstone_row c ack now r.tables)
                (purged now r.tables).tombstones;
        no_message =
            ap (λ t. find_where (is_message ack.queue_id ack.message_id) t.messages) after
            ∙ find_where-none (is_message ack.queue_id ack.message_id) _ (
                delete_where-All (is_message ack.queue_id ack.message_id)
                  (purged now r.tables).messages);
      }
    ]

-- After an ACK has deleted a message, no send request for the same queue and message identifier is
-- accepted, whatever its packet and faults, until seven days after the ACK: not after any history
-- of calls each of which comes at a time before then.
pub acknowledged_stays_gone :
    (c : Crypto) (laws : Laws c) (fails : Faults) (r r' : Relay) (ack : AckRequest) (now : ℕ)
    → acknowledge c fails r ack now ≡ (ok deleted, r')
    → (es : List Event) → All (λ e. e.now < now + tombstone_ttl_seconds) es
    → (again : Faults) (s : Relay) (request : SendRequest) (later : ℕ) (out : EnqueueOutcome)
    → request.queue_id ≡ ack.queue_id
    → request.message_id ≡ ack.message_id
    → later < now + tombstone_ttl_seconds
    → ¬ (enqueue c again (run c r' es) request later ≡ (ok out, s))
acknowledged_stays_gone c laws fails r r' ack now e es early again s request later out queue message
      soon f =
    let (_, second) = enqueue-ok c again (run c r' es) s request later out f in
    let until = now + tombstone_ttl_seconds in
    elim (run-IsGone c laws ack.queue_id ack.message_id until r' es early
      (inr (acknowledged-IsBuried c laws fails r r' ack now e))) [
        | inl gone ↦ absurd (ground (arith, queue, gone.no_mailbox, second.registered))
        | inr buried ↦
            let live =
              exists_where-weaken (is_kept ack.queue_id ack.message_id until)
                (λ d. is_tombstone ack.queue_id ack.message_id d && ltb later d.delete_after)
                (λ d k. ground arith) _
                (kept-purged c laws ack.queue_id ack.message_id until later
                  (run c r' es).tables.tombstones soon buried.tombstone) in
            absurd (ground (arith, second.not_gone, live, queue, message))
      ]
