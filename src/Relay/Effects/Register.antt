-- ===== src/Relay/Effects/Register.antt =====
-- What a successful `register` has done.
use secure_messenger_lab.Prelude.{
  ℕ, ◌+◌, ◌≤◌, ◌<◌, ◌≡◌, true, false, Bool, none, some, ◌++◌, ◌∷◌, [], List, arith, Option-cases,
  inl, inr, String,
}
use secure_messenger_lab.Errors.{ok}
use secure_messenger_lab.Bytes.Laws.{bytes_eq_iff}
use secure_messenger_lab.Crypto.{Crypto}
use secure_messenger_lab.Capability.{MailboxRegistration, registration_signing_bytes}
use secure_messenger_lab.Table.{find_where, exists_where}
use secure_messenger_lab.Relay.Store.{
  Mailbox, RegistrationNonce, Tables, Relay, Faults, Tx, Reply, immediate,
}
use secure_messenger_lab.Relay.Sql.{
  of_queue, is_retired, is_registration_nonce, insert_registration_nonce_sql, insert_mailbox_sql,
}
use secure_messenger_lab.Relay.Checks.{purge_expired_in}
use secure_messenger_lab.Relay.Success.{
  purged, settle-ok, immediate-ok, bind-ok, purge_expired_in-ok, validate_request_time-ok,
}
use secure_messenger_lab.Relay.Register.{
  register_again, register_new, register_in, register, register_body,
}

module _ (c : Crypto) (request : MailboxRegistration) (now : ℕ) (t : Tables) where
  abbrev pub nonce_row : RegistrationNonce
  nonce_row = record {
    queue_id = request.queue_id;
    nonce = request.nonce;
    delete_after = request.valid_until;
  }

  abbrev pub mailbox_row : Mailbox
  mailbox_row = record {
    queue_id = request.queue_id;
    send_key = request.send_key;
    receive_key = request.receive_key;
    manage_key = request.manage_key;
    created_at = now;
  }

  pub data Outcome (t' : Tables) (fresh : Bool) : Type 0 where
    is_new :
        fresh ≡ true
        → find_where (of_queue request.queue_id) t.mailboxes ≡ none
        → exists_where
            (is_registration_nonce request.queue_id request.nonce)
            (purged now t).registration_nonces
          ≡ false
        → t' ≡ record (purged now t) {
          mailboxes = t.mailboxes ++ mailbox_row ∷ [];
          registration_nonces = (purged now t).registration_nonces ++ nonce_row ∷ [];
        }
        → Outcome t' fresh
    is_retry :
        (old : Mailbox) (nonces : List RegistrationNonce)
        → fresh ≡ false
        → find_where (of_queue request.queue_id) t.mailboxes ≡ some old
        → (old.send_key ≡ request.send_key)
          × (old.receive_key ≡ request.receive_key)
          × (old.manage_key ≡ request.manage_key)
        → t' ≡ record (purged now t) { registration_nonces = nonces }
        → Outcome t' fresh

  pub record Registered (t' : Tables) (fresh : Bool) : Type 0 where
    pub not_retired : exists_where (is_retired (c.sha256 request.queue_id)) t.retired_queues ≡ false
    pub outcome : Outcome t' fresh

  module _ (fails : Faults) where
    register_again-ok :
        (old : Mailbox) {reply : Reply Bool} {t' : Tables}
        → find_where (of_queue request.queue_id) t.mailboxes ≡ some old
        → register_again c fails request old (purged now t) ≡ ok (reply, t')
        → Outcome t' reply.1
    unfolding register_again insert_registration_nonce_sql
    register_again-ok old {t'} found e =
        is_retry old t'.registration_nonces (ground arith) found
          (ground (
            arith,
            bytes_eq_iff old.send_key request.send_key,
            bytes_eq_iff old.receive_key request.receive_key,
            bytes_eq_iff old.manage_key request.manage_key,
          ))
          (ground arith)

    register_new-ok :
        {reply : Reply Bool} {t' : Tables}
        → find_where (of_queue request.queue_id) t.mailboxes ≡ none
        → register_new c fails request now (purged now t) ≡ ok (reply, t')
        → Outcome t' reply.1
    unfolding register_new insert_registration_nonce_sql insert_mailbox_sql
    register_new-ok found e = is_new (ground arith) found (ground arith) (ground arith)

    select_existing-ok :
        {reply : Reply Bool} {t' : Tables}
        → (elim (find_where (of_queue request.queue_id) t.mailboxes) as (λ _. Tx (Reply Bool)) [
          | some old ↦ register_again c fails request old
          | none ↦ register_new c fails request now
        ])
            (purged now t)
          ≡ ok (reply, t')
        → Outcome t' reply.1
    select_existing-ok {reply} {t'} e =
        elim (Option-cases (find_where (of_queue request.queue_id) t.mailboxes)) [
          | inl missing ↦ register_new-ok missing (rw missing at e)
          | inr (old, found) ↦ register_again-ok old found (rw found at e)
        ]

    register_in-ok :
        {reply : Reply Bool} {t' : Tables}
        → register_in c fails request now t ≡ ok (reply, t')
        → Registered t' reply.1
    unfolding register_in
    register_in-ok {reply} {t'} e =
        let (n, t1, swept, rest) = bind-ok (purge_expired_in fails now) _ t e in
        let sweep = (purge_expired_in-ok fails now t swept).0 in
        record {
          not_retired = ground arith;
          outcome = select_existing-ok {reply = reply} {t' = t'} (ground arith);
        }

module _ (c : Crypto) (fails : Faults) (request : MailboxRegistration) (now : ℕ) where
  -- What `register` has checked before it opens its transaction.
  pub record Admitted : Type 0 where
    pub live : now < request.valid_until
    pub bounded : request.valid_until ≤ now + 300
    pub signed :
        c.verify request.manage_key (registration_signing_bytes request) request.signature ≡ true

  pub register_body-ok :
      (t t' : Tables) (events : List String) (fresh : Bool)
      → register_body c fails request now t ≡ ok ((events, fresh), t')
      → Admitted × Registered c request now t t' fresh
  unfolding register_body
  register_body-ok t t' events fresh done =
      let inside : immediate fails (register_in c fails request now) t ≡ ok ((events, fresh), t') =
        ground arith in
      (
        record {
          live = ground (arith, validate_request_time-ok request.valid_until now {u = tt});
          bounded = ground (arith, validate_request_time-ok request.valid_until now {u = tt});
          signed = ground arith;
        },
        register_in-ok c request now t fails (immediate-ok fails _ t inside),
      )

pub register-ok :
    (c : Crypto) (fails : Faults) (r r' : Relay) (request : MailboxRegistration) (now : ℕ)
    (fresh : Bool)
    → register c fails r request now ≡ (ok fresh, r')
    → Admitted c fails request now × Registered c request now r.tables r'.tables fresh
unfolding register
register-ok c fails r r' request now fresh e =
    let (events, done, _) = settle-ok fails r r' _ fresh e in
    register_body-ok c fails request now r.tables r'.tables events fresh done
