-- ===== src/Relay/Disjoint.antt =====
-- A message is queued or tombstoned, never both.
use secure_messenger_lab.Prelude.{
  ℕ, ◌≡◌, refl, sym, false, List, [], ◌∷◌, ◌++◌, ◌&&◌, Bool, arith, All, All-map, All-map₂,
  All-append, subst, map, ltb,
}
use mathlib.Core.Path.{subst₂}
use secure_messenger_lab.Bytes.{Bytes, bytes_eq}
use secure_messenger_lab.Bytes.Laws.{bytes_eq_iff}
use secure_messenger_lab.Crypto.{Crypto}
use secure_messenger_lab.Table.{delete_where, exists_where}
use secure_messenger_lab.Table.Laws.{
  All-delete_where, delete_where-All, exists_where-none, exists_where-false,
}
use secure_messenger_lab.Relay.Store.{Message, Tombstone, Tables, Relay}
use secure_messenger_lab.Relay.Sql.{
  is_message, is_tombstone, message_expired, tombstone_expired, extend_tombstone, upsert_tombstone,
}
use secure_messenger_lab.Relay.Success.{purged}
use secure_messenger_lab.Relay.Effects.Register
use secure_messenger_lab.Relay.Effects.Enqueue
use secure_messenger_lab.Relay.Effects.Acknowledge
use secure_messenger_lab.Relay.Run.{
  Call, Event, Change, unchanged, swept, registered, enqueued, fetched, acknowledged, deleted, run,
  run_induction,
}

-- No tombstone has the message's queue and identifier.
abbrev pub Untombed : List Tombstone → Message → Type 0
Untombed ds m = exists_where (is_tombstone m.queue_id m.message_id) ds ≡ false

abbrev pub IsDisjoint : Tables → Type 0
IsDisjoint t = All (Untombed t.tombstones) t.messages

Untombed-delete :
    (p : Tombstone → Bool) (ds : List Tombstone) (m : Message)
    → Untombed ds m
    → Untombed (delete_where p ds) m
Untombed-delete p ds m h =
    exists_where-none (is_tombstone m.queue_id m.message_id) (delete_where p ds) (
      All-delete_where p (λ d. is_tombstone m.queue_id m.message_id d ≡ false) ds
        (exists_where-false (is_tombstone m.queue_id m.message_id) ds h))

purged-IsDisjoint : (now : ℕ) (t : Tables) → IsDisjoint t → IsDisjoint (purged now t)
purged-IsDisjoint now t h =
    All-map (Untombed-delete (tombstone_expired now) t.tombstones) (purged now t).messages
      (All-delete_where (message_expired now) (Untombed t.tombstones) t.messages h)

Untombed-extend :
    (row : Tombstone) (ds : List Tombstone) (m : Message)
    → Untombed ds m
    → Untombed (map (extend_tombstone row) ds) m
unfolding exists_where extend_tombstone
Untombed-extend row [] m h = refl
Untombed-extend row (d ∷ ds) m h = ground (arith, Untombed-extend row ds m)

Untombed-append :
    (row : Tombstone) (ds : List Tombstone) (m : Message)
    → Untombed ds m
    → is_message row.queue_id row.message_id m ≡ false
    → Untombed (ds ++ row ∷ []) m
unfolding exists_where
Untombed-append row [] m h other = ground (
  arith,
  bytes_eq_iff row.queue_id m.queue_id,
  bytes_eq_iff row.message_id m.message_id,
  bytes_eq_iff m.queue_id row.queue_id,
  bytes_eq_iff m.message_id row.message_id,
)
Untombed-append row (d ∷ ds) m h other = ground (arith, Untombed-append row ds m)

Untombed-upsert :
    (row : Tombstone) (ds : List Tombstone) (m : Message)
    → Untombed ds m
    → is_message row.queue_id row.message_id m ≡ false
    → Untombed (upsert_tombstone row ds) m
unfolding upsert_tombstone
Untombed-upsert row ds m h other =
    ground (arith, Untombed-extend row ds m, Untombed-append row ds m)

-- After the sweep at `now`, a tombstone that is not live is not there.
swept-Untombed :
    (queue_id message_id : Bytes) (now : ℕ) (ds : List Tombstone)
    → All (λ d. tombstone_expired now d ≡ false) ds
    → exists_where (λ d. is_tombstone queue_id message_id d && ltb now d.delete_after) ds ≡ false
    → exists_where (is_tombstone queue_id message_id) ds ≡ false
unfolding exists_where
swept-Untombed queue_id message_id now [] live h = refl
swept-Untombed queue_id message_id now (d ∷ ds) live h =
    ground (arith, live.0, swept-Untombed queue_id message_id now ds live.1)

module _ (c : Crypto) where
  Change-IsDisjoint :
      (call : Call) (now : ℕ) (t t' : Tables)
      → Change c call now t t'
      → IsDisjoint t
      → IsDisjoint t'
  Change-IsDisjoint call now t t' (unchanged e) h = subst IsDisjoint (sym e) h
  Change-IsDisjoint call now t t' (swept e) h = subst IsDisjoint (sym e) (purged-IsDisjoint now t h)
  Change-IsDisjoint call now t t' (registered request fresh _ _ d) h = elim d.outcome [
    | Register.is_new _ _ _ e ↦ subst IsDisjoint (sym e) (purged-IsDisjoint now t h)
    | Register.is_retry _ _ _ _ _ e ↦ subst IsDisjoint (sym e) (purged-IsDisjoint now t h)
  ]
  Change-IsDisjoint call now t t' (enqueued request out _ _ _ d) h = elim d.outcome [
    | Enqueue.is_stored _ _ e ↦ subst IsDisjoint (sym e) (
        All-append (Untombed (purged now t).tombstones) (purged now t).messages _
          (purged-IsDisjoint now t h)
          (
            swept-Untombed request.queue_id request.message_id now (purged now t).tombstones
                (delete_where-All (tombstone_expired now) t.tombstones) d.not_gone,
            tt,
          ))
    | Enqueue.is_duplicate _ _ _ _ _ e ↦ subst IsDisjoint (sym e) (purged-IsDisjoint now t h)
  ]
  Change-IsDisjoint call now t t' (fetched request out _ d) h =
      subst IsDisjoint (sym d.after) (purged-IsDisjoint now t h)
  Change-IsDisjoint call now t t' (acknowledged request out _ d) h = elim d.outcome [
    | Acknowledge.is_repeated _ _ _ e ↦ subst IsDisjoint (sym e) (purged-IsDisjoint now t h)
    | Acknowledge.is_deleted old _ _ _ e ↦
        let clause = is_message request.queue_id request.message_id in
        subst IsDisjoint (sym e) (
          All-map₂
            (Untombed-upsert (Acknowledge.tombstone_row c request now t) (purged now t).tombstones)
            (delete_where clause (purged now t).messages)
            (All-delete_where clause (Untombed (purged now t).tombstones) (purged now t).messages
              (purged-IsDisjoint now t h))
            (delete_where-All clause (purged now t).messages))
  ]
  Change-IsDisjoint call now t t' (deleted request out _ d) h =
      subst₂ (λ ds ms. All (Untombed ds) ms) (sym d.tombstones) (sym d.messages)
        (All-map
          (Untombed-delete (λ d. bytes_eq d.queue_id request.queue_id) (purged now t).tombstones)
          (delete_where (λ m. bytes_eq m.queue_id request.queue_id) (purged now t).messages)
          (All-delete_where (λ m. bytes_eq m.queue_id request.queue_id)
            (Untombed (purged now t).tombstones) (purged now t).messages
            (purged-IsDisjoint now t h)))

  -- Every history keeps the queued messages and the tombstones apart: no message is queued whose
  -- queue and identifier have a tombstone.
  pub run-IsDisjoint :
      (r : Relay) (es : List Event) → IsDisjoint r.tables → IsDisjoint (run c r es).tables
  run-IsDisjoint r es h = run_induction c IsDisjoint Change-IsDisjoint r es h
