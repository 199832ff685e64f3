-- ===== src/Relay/Progress/Registration.antt =====
-- `register` serves a request of a new queue when no statement fails.
use secure_messenger_lab.Prelude.{
  ℕ, ◌+◌, ◌≤◌, ◌<◌, ◌≡◌, true, false, none, [], ◌∷◌, ◌++◌, arith, length,
}
use secure_messenger_lab.Errors.{ok}
use secure_messenger_lab.Bytes.{i64_max}
use secure_messenger_lab.Crypto.{Crypto}
use secure_messenger_lab.Capability.{MailboxRegistration, registration_signing_bytes}
use secure_messenger_lab.Table.{find_where, exists_where}
use secure_messenger_lab.Table.Laws.{exists_where-find_none}
use secure_messenger_lab.Relay.Store.{Tables, Relay, settle, immediate, to_i64}
use secure_messenger_lab.Relay.Sql.{
  of_queue, is_registration_nonce, is_retired, insert_registration_nonce_sql, insert_mailbox_sql,
}
use secure_messenger_lab.Relay.Checks.{purge_expired_in, validate_request_time}
use secure_messenger_lab.Relay.Success.{purged}
use secure_messenger_lab.Relay.Register.{register_new, register_in, register, register_body}
use secure_messenger_lab.Relay.Effects.Register.{mailbox_row, nonce_row}
use secure_messenger_lab.Relay.Retry.{healthy}

module _ (c : Crypto) (r : Relay) (request : MailboxRegistration) (now : ℕ) where
  pub record Registrable : Type 0 where
    pub live : now < request.valid_until
    pub short : request.valid_until ≤ now + 300
    pub representable : request.valid_until ≤ i64_max
    pub signed :
        c.verify request.manage_key (registration_signing_bytes request) request.signature ≡ true
    pub not_retired :
        exists_where (is_retired (c.sha256 request.queue_id)) r.tables.retired_queues ≡ false
    pub new_queue : find_where (of_queue request.queue_id) r.tables.mailboxes ≡ none
    pub fresh :
        exists_where
          (is_registration_nonce request.queue_id request.nonce)
          (purged now r.tables).registration_nonces
        ≡ false
    pub queue_size : length request.queue_id ≡ 32
    pub send_size : length request.send_key ≡ 32
    pub receive_size : length request.receive_key ≡ 32
    pub manage_size : length request.manage_key ≡ 32
    pub nonce_size : length request.nonce ≡ 16

  abbrev pub tables_after_registration : Tables
  tables_after_registration = record (purged now r.tables) {
    mailboxes = r.tables.mailboxes ++ mailbox_row c request now r.tables ∷ [];
    registration_nonces =
        (purged now r.tables).registration_nonces ++ nonce_row c request now r.tables ∷ [];
  }

  pub register-served :
      Registrable
      → register c healthy r request now ≡ (
        ok true,
        record {
          tables = tables_after_registration;
          audit_events = r.audit_events ++ "mailbox_registered" ∷ [];
        },
      )
  unfolding register register_body register_in register_new settle immediate purge_expired_in to_i64
      validate_request_time insert_registration_nonce_sql insert_mailbox_sql
  register-served h =
      let absent =
        exists_where-find_none (of_queue request.queue_id) r.tables.mailboxes h.new_queue in
      ground (
        arith, h.live, h.short, h.representable, h.signed, h.not_retired, h.new_queue, absent,
        h.fresh, h.queue_size, h.send_size, h.receive_size, h.manage_size, h.nonce_size,
      )
