-- ===== src/Demo/Relaying.antt =====
-- The relay's side of `run_demo`: both inboxes are registered, and both exchanges are in order.
use secure_messenger_lab.Prelude.{
  ℕ, ◌+◌, ◌≤◌, ◌<◌, ◌≡◌, refl, sym, subst, All, ap, true, false, [], ◌∷◌, ◌++◌, arith, length,
}
use secure_messenger_lab.Errors.{ok}
use secure_messenger_lab.Bytes.{Bytes, i64_max, bytes_eq}
use secure_messenger_lab.Bytes.Laws.{bytes_eq_refl}
use secure_messenger_lab.Crypto.{Crypto, Laws}
use secure_messenger_lab.Packets.{PlainMessage}
use secure_messenger_lab.Capability.{
  MailboxRegistration, registration, registration_signing_bytes, authorize_ack, authorize_fetch,
  receiver_capability,
}
use secure_messenger_lab.Table.{find_where, exists_where, delete_where}
use secure_messenger_lab.Relay.Store.{Relay, empty_tables, receive}
use secure_messenger_lab.Relay.Sql.{is_message, is_request_nonce, is_tombstone, upsert_tombstone}
use secure_messenger_lab.Relay.Checks.{max_packet_bytes, tombstone_ttl_seconds}
use secure_messenger_lab.Relay.Register.{register}
use secure_messenger_lab.Relay.Effects.Register.{mailbox_row}
use secure_messenger_lab.Relay.Retry.{healthy}
use secure_messenger_lab.Relay.Progress.Registration.{
  Registrable, tables_after_registration, register-served,
}
use secure_messenger_lab.Relay.Exchange.{Exchange, IsReadable, Ready, acknowledged_relay}
use secure_messenger_lab.Relay.Exchange.Steps.{messages_left}
use secure_messenger_lab.Demo.{DemoDraws}

-- A relay that holds nothing.
abbrev pub empty_relay : Relay
empty_relay = record { tables = empty_tables; audit_events = [] }

module _ {A : Type 0} (d : DemoDraws A) where
  -- Identifiers and nonces have their sizes, and the two queues differ.
  pub record IsDrawn : Type 0 where
    pub alice_queue : length d.alice_inbox.queue_id ≡ 32
    pub bob_queue : length d.bob_inbox.queue_id ≡ 32
    pub distinct : bytes_eq d.alice_inbox.queue_id d.bob_inbox.queue_id ≡ false
    pub distinct_too : bytes_eq d.bob_inbox.queue_id d.alice_inbox.queue_id ≡ false
    pub alice_nonce_size : length d.alice_nonce ≡ 16
    pub bob_nonce_size : length d.bob_nonce ≡ 16
    pub message_id_size : length d.message_id ≡ 16
    pub fetch_nonce_size : length d.fetch_nonce ≡ 16
    pub reply_id_size : length d.reply_id ≡ 16
    pub reply_fetch_nonce_size : length d.reply_fetch_nonce ≡ 16

module _ {A : Type 0} (c : Crypto) (laws : Laws c) (d : DemoDraws A) (drawn : IsDrawn d) (now : ℕ)
    (small : now + 1 + tombstone_ttl_seconds ≤ i64_max) where
  abbrev pub alice_registration : MailboxRegistration
  alice_registration = registration c d.alice_inbox d.alice_nonce (now + 60)

  abbrev pub bob_registration : MailboxRegistration
  bob_registration = registration c d.bob_inbox d.bob_nonce (now + 60)

  abbrev pub alice_registered : Relay
  alice_registered = record {
    tables = tables_after_registration c empty_relay alice_registration now;
    audit_events = "mailbox_registered" ∷ [];
  }

  abbrev pub both_registered : Relay
  both_registered = record {
    tables = tables_after_registration c alice_registered bob_registration now;
    audit_events = alice_registered.audit_events ++ "mailbox_registered" ∷ [];
  }

  alice-Registrable : Registrable c empty_relay alice_registration now
  unfolding registration registration_signing_bytes find_where exists_where delete_where
  alice-Registrable = record {
    live = omega arith;
    short = omega arith;
    representable = omega (arith, small);
    signed = laws.verify_sign d.alice_inbox.manage _;
    not_retired = refl;
    new_queue = refl;
    fresh = refl;
    queue_size = drawn.alice_queue;
    send_size = laws.length_public_key d.alice_inbox.send;
    receive_size = laws.length_public_key d.alice_inbox.receive;
    manage_size = laws.length_public_key d.alice_inbox.manage;
    nonce_size = drawn.alice_nonce_size;
  }

  bob-Registrable : Registrable c alice_registered bob_registration now
  unfolding registration registration_signing_bytes find_where exists_where delete_where
  bob-Registrable = record {
    live = omega arith;
    short = omega arith;
    representable = omega (arith, small);
    signed = laws.verify_sign d.bob_inbox.manage _;
    not_retired = refl;
    new_queue = ground (arith, drawn.distinct);
    fresh = ground (arith, drawn.distinct);
    queue_size = drawn.bob_queue;
    send_size = laws.length_public_key d.bob_inbox.send;
    receive_size = laws.length_public_key d.bob_inbox.receive;
    manage_size = laws.length_public_key d.bob_inbox.manage;
    nonce_size = drawn.bob_nonce_size;
  }

  pub registers :
      (register c healthy empty_relay alice_registration now ≡ (ok true, alice_registered))
      × (register c healthy alice_registered bob_registration now ≡ (ok true, both_registered))
  registers = (
    register-served c empty_relay alice_registration now alice-Registrable,
    register-served c alice_registered bob_registration now bob-Registrable,
  )

  module _ (packet reply_packet : Bytes) (plain reply : PlainMessage) where
    abbrev pub message_exchange : Exchange
    message_exchange = record {
      owner = d.bob_inbox;
      mailbox = mailbox_row c bob_registration now alice_registered.tables;
      message_id = d.message_id;
      packet = packet;
      message = plain;
      expires_at = now + 3600;
      nonce = d.fetch_nonce;
      sent_at = now;
      fetched_at = now;
      fetch_until = now + 60;
      acknowledged_at = now;
      ack_until = now + 60;
    }

    abbrev pub reply_exchange : Exchange
    reply_exchange = record {
      owner = d.alice_inbox;
      mailbox = mailbox_row c alice_registration now empty_tables;
      message_id = d.reply_id;
      packet = reply_packet;
      message = reply;
      expires_at = now + 3600;
      nonce = d.reply_fetch_nonce;
      sent_at = now + 1;
      fetched_at = now + 1;
      fetch_until = now + 61;
      acknowledged_at = now + 1;
      ack_until = now + 61;
    }

    module _ (size : (0 < length packet) × (length packet ≤ max_packet_bytes)) where
      pub message-Ready : Ready c message_exchange both_registered
      unfolding registration find_where exists_where delete_where
      message-Ready = record {
        mailbox = ground (arith, drawn.distinct, bytes_eq_refl d.bob_inbox.queue_id);
        send_key = refl;
        receive_key = refl;
        new_message = refl;
        not_gone = refl;
        new_nonce = refl;
        readable = tt;
        id_size = drawn.message_id_size;
        nonce_size = drawn.fetch_nonce_size;
        nonempty = size.0;
        short = size.1;
        ordered = (omega arith, omega arith, omega arith);
        bounded = omega arith;
        fetch_window = (omega arith, omega arith);
        ack_window = (omega arith, omega arith);
        clock = omega (arith, small);
      }

      other_tombstone :
          exists_where
            (is_tombstone d.alice_inbox.queue_id d.reply_id)
            (acknowledged_relay c message_exchange both_registered).tables.tombstones
          ≡ false
      unfolding authorize_ack receiver_capability upsert_tombstone exists_where delete_where
      other_tombstone = ground (arith, drawn.distinct_too)

      other_nonce :
          exists_where
            (is_request_nonce d.alice_inbox.queue_id receive d.reply_fetch_nonce)
            (acknowledged_relay c message_exchange both_registered).tables.request_nonces
          ≡ false
      unfolding authorize_fetch receiver_capability exists_where delete_where
      other_nonce = ground (arith, drawn.distinct_too)

      -- No message is left of the first exchange.
      pub nothing_left :
          (acknowledged_relay c message_exchange both_registered).tables.messages ≡ []
      unfolding delete_where
      nothing_left = messages_left c laws message_exchange both_registered message-Ready

      module _
          (reply_size : (0 < length reply_packet) × (length reply_packet ≤ max_packet_bytes)) where
        pub reply-Ready :
            Ready c reply_exchange (acknowledged_relay c message_exchange both_registered)
        unfolding registration find_where exists_where delete_where
        reply-Ready = record {
          mailbox = ground (arith, bytes_eq_refl d.alice_inbox.queue_id);
          send_key = refl;
          receive_key = refl;
          new_message = ap (find_where (is_message d.alice_inbox.queue_id d.reply_id)) nothing_left;
          not_gone = other_tombstone;
          new_nonce = other_nonce;
          readable = subst (All (IsReadable c)) (sym nothing_left) tt;
          id_size = drawn.reply_id_size;
          nonce_size = drawn.reply_fetch_nonce_size;
          nonempty = reply_size.0;
          short = reply_size.1;
          ordered = (omega arith, omega arith, omega arith);
          bounded = omega arith;
          fetch_window = (omega arith, omega arith);
          ack_window = (omega arith, omega arith);
          clock = omega (arith, small);
        }
