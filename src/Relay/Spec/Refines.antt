-- ===== src/Relay/Spec/Refines.antt =====
-- Every call of the relay makes moves of the specification, in each queue.
use secure_messenger_lab.Prelude.{ℕ, sym, subst, ap, List, [], ◌∷◌}
use secure_messenger_lab.Bytes.{Bytes}
use secure_messenger_lab.Crypto.{Crypto, Laws}
use secure_messenger_lab.Relay.Store.{Tables, Relay}
use secure_messenger_lab.Relay.Run.{
  Event, Call, Change, unchanged, swept, registered, enqueued, fetched, acknowledged, deleted, run,
  step, perform-Change,
}
use secure_messenger_lab.Relay.Spec.{queue_of, Moves, rests, Play, over, turn}
use secure_messenger_lab.Relay.Spec.Calls.{
  sweeps_to, register-Moves, enqueue-Moves, acknowledge-Moves, delete_mailbox-Moves,
}

module _ (c : Crypto) (laws : Laws c) (queue_id : Bytes) where
  Change-Moves :
      (call : Call) (now : ℕ) (t t' : Tables)
      → Change c call now t t'
      → Moves c queue_id call now (queue_of c queue_id t) (queue_of c queue_id t')
  Change-Moves call now t t' (unchanged p) =
      subst (Moves c queue_id call now (queue_of c queue_id t)) (ap (queue_of c queue_id) (sym p))
        rests
  Change-Moves call now t t' (swept p) =
      sweeps_to c laws queue_id call now t (ap (queue_of c queue_id) p)
  Change-Moves call now t t' (registered request fresh is_call signed d) =
      register-Moves c laws queue_id call now t request fresh t' is_call signed d
  Change-Moves call now t t' (enqueued request out is_call live bounded d) =
      enqueue-Moves c laws queue_id call now t request out t' is_call live bounded d
  Change-Moves call now t t' (fetched request envelopes _ d) =
      sweeps_to c laws queue_id call now t (ap (queue_of c queue_id) d.after)
  Change-Moves call now t t' (acknowledged request out is_call d) =
      acknowledge-Moves c laws queue_id call now t request out t' is_call d
  Change-Moves call now t t' (deleted request found is_call d) =
      delete_mailbox-Moves c laws queue_id call now t request found t' is_call d

  -- The relay refines the specification of a queue: whatever history of calls it goes through, to
  -- this queue and to others, with whatever statements failing, the queue that its tables hold has
  -- gone through moves of the specification, each call making only moves of
  -- its own request, at its own time.
  pub run-Play :
      (r : Relay) (es : List Event)
      → Play c queue_id es (queue_of c queue_id r.tables) (queue_of c queue_id (run c r es).tables)
  unfolding run
  run-Play r [] = over
  run-Play r (e ∷ es) =
      turn
        (Change-Moves e.call e.now r.tables (step c r e).tables
          (perform-Change c r e.call e.now e.fails))
        (run-Play (step c r e) es)
