-- ===== src/Relay/Effects/Remove.antt =====
-- What a successful `delete_mailbox` or `purge_expired` has done.
use secure_messenger_lab.Prelude.{
  ℕ, ◌+◌, ◌≤◌, ◌<◌, ◌≡◌, true, false, Bool, some, [], ◌∷◌, ◌++◌, arith, length, ◌==◌, List, String,
}
use secure_messenger_lab.Errors.{ok}
use secure_messenger_lab.Bytes.{bytes_eq, i64_max}
use secure_messenger_lab.Crypto.{Crypto}
use secure_messenger_lab.Capability.{DeleteMailboxRequest, delete_signing_bytes}
use secure_messenger_lab.Table.{select_where, find_where, exists_where, delete_where}
use secure_messenger_lab.Relay.Store.{
  Mailbox, RetiredQueue, RequestNonce, manage, to_i64, Tables, Relay, Faults, Reply, immediate,
}
use secure_messenger_lab.Relay.Sql.{
  of_queue, is_request_nonce, insert_request_nonce_sql, message_expired, insert_retired,
  insert_retired_sql, delete_mailbox_sql,
}
use secure_messenger_lab.Relay.Checks.{manage_key, record_nonce, purge_expired_in}
use secure_messenger_lab.Relay.Success.{
  purged, settle-ok, immediate-ok, enter-ok, bind-ok, purge_expired_in-ok, validate_request_time-ok,
}
use secure_messenger_lab.Relay.Remove.{
  delete_mailbox_in, delete_mailbox_body, delete_mailbox, purge_expired_body, purge_expired,
}

module _ (c : Crypto) (request : DeleteMailboxRequest) (now : ℕ) (t : Tables) where
  abbrev pub retired_row : RetiredQueue
  retired_row = record { queue_hash = c.sha256 request.queue_id; retired_at = now }

  abbrev pub nonce_row : RequestNonce
  nonce_row = record {
    queue_id = request.queue_id;
    role = manage;
    nonce = request.nonce;
    delete_after = request.valid_until;
  }

  pub record Deleted (t' : Tables) (found : Bool) : Type 0 where
    pub mailbox : Mailbox
    pub registered : find_where (of_queue request.queue_id) t.mailboxes ≡ some mailbox
    pub signed : c.verify mailbox.manage_key (delete_signing_bytes request) request.signature ≡ true
    pub fresh :
        exists_where
          (is_request_nonce request.queue_id manage request.nonce)
          (purged now t).request_nonces
        ≡ false
    pub count : found ≡ (length (select_where (of_queue request.queue_id) t.mailboxes) == 1)
    pub mailboxes : t'.mailboxes ≡ delete_where (of_queue request.queue_id) t.mailboxes
    pub messages :
        t'.messages
        ≡ delete_where (λ m. bytes_eq m.queue_id request.queue_id) (purged now t).messages
    pub tombstones :
        t'.tombstones
        ≡ delete_where (λ d. bytes_eq d.queue_id request.queue_id) (purged now t).tombstones
    pub request_nonces :
        t'.request_nonces
        ≡ delete_where
            (λ n. bytes_eq n.queue_id request.queue_id)
            ((purged now t).request_nonces ++ nonce_row ∷ [])
    pub registration_nonces : t'.registration_nonces ≡ (purged now t).registration_nonces
    pub retired : t'.retired_queues ≡ insert_retired retired_row t.retired_queues

  module _ (fails : Faults) where
    delete_mailbox_in-ok :
        {reply : Reply Bool} {t' : Tables}
        → delete_mailbox_in c fails request now t ≡ ok (reply, t')
        → Deleted t' reply.1
    unfolding delete_mailbox_in record_nonce insert_retired_sql delete_mailbox_sql
        insert_request_nonce_sql to_i64
    delete_mailbox_in-ok {reply} {t'} e =
        let (m, found, rest, _) = enter-ok c fails now request.queue_id manage_key _ t e in
        record {
          mailbox = m;
          registered = found;
          signed = ground arith;
          fresh = ground arith;
          count = ground arith;
          mailboxes = ground arith;
          messages = ground arith;
          tombstones = ground arith;
          request_nonces = ground arith;
          registration_nonces = ground arith;
          retired = ground arith;
        }

module _ (c : Crypto) (fails : Faults) (request : DeleteMailboxRequest) (now : ℕ) where
  pub delete_mailbox_body-ok :
      (t t' : Tables) (events : List String) (found : Bool)
      → delete_mailbox_body c fails request now t ≡ ok ((events, found), t')
      → (now < request.valid_until)
        × (request.valid_until ≤ now + 300)
        × Deleted c request now t t' found
  unfolding delete_mailbox_body
  delete_mailbox_body-ok t t' events found done =
      let inside : immediate fails (delete_mailbox_in c fails request now) t
          ≡ ok ((events, found), t') =
        ground arith in
      (
        ground (arith, validate_request_time-ok request.valid_until now {u = tt}),
        ground (arith, validate_request_time-ok request.valid_until now {u = tt}),
        delete_mailbox_in-ok c request now t fails (immediate-ok fails _ t inside),
      )

pub delete_mailbox-ok :
    (c : Crypto) (fails : Faults) (r r' : Relay) (request : DeleteMailboxRequest) (now : ℕ)
    (found : Bool)
    → delete_mailbox c fails r request now ≡ (ok found, r')
    → (now < request.valid_until)
      × (request.valid_until ≤ now + 300)
      × Deleted c request now r.tables r'.tables found
unfolding delete_mailbox
delete_mailbox-ok c fails r r' request now found e =
    let (events, done, _) = settle-ok fails r r' _ found e in
    delete_mailbox_body-ok c fails request now r.tables r'.tables events found done

pub purge_expired_body-ok :
    (fails : Faults) (t t' : Tables) (now : ℕ) (events : List String) (n : ℕ)
    → purge_expired_body fails now t ≡ ok ((events, n), t')
    → (t' ≡ purged now t)
      × (n ≡ length (select_where (message_expired now) t.messages))
      × (now ≤ i64_max)
unfolding purge_expired_body
purge_expired_body-ok fails t t' now events n done =
    let (removed, u, swept, rest) =
      bind-ok (immediate fails (purge_expired_in fails now)) _ t done in
    let facts = purge_expired_in-ok fails now t (immediate-ok fails _ t swept) in
    (ground (arith, facts), ground (arith, facts), facts.2)

pub purge_expired-ok :
    (fails : Faults) (r r' : Relay) (now n : ℕ)
    → purge_expired fails r now ≡ (ok n, r')
    → (r'.tables ≡ purged now r.tables)
      × (n ≡ length (select_where (message_expired now) r.tables.messages))
      × (now ≤ i64_max)
unfolding purge_expired
purge_expired-ok fails r r' now n e =
    let (events, done, _) = settle-ok fails r r' _ n e in
    purge_expired_body-ok fails r.tables r'.tables now events n done
