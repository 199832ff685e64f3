-- ===== src/Demo/Transcript.antt =====
-- What `run_demo` relies on from vodozemac and serde, on its own run: each side's session opens
-- what the other side's has encrypted, what is written is read again, and a packet of a short text
-- is one that the relay takes.
use secure_messenger_lab.Prelude.{ℕ, ◌≡◌, ◌≤◌, ◌<◌, some, length}
use secure_messenger_lab.Bytes.{Bytes}
use secure_messenger_lab.Packets.{PlainMessage}
use secure_messenger_lab.Client.Olm.{Olm, OlmMessage, Inbound, pre_key}
use secure_messenger_lab.Client.State.{payload_version}
use secure_messenger_lab.Relay.Checks.{max_packet_bytes}
use secure_messenger_lab.Demo.{DemoDraws, demo_message, demo_reply}

module _ {A S : Type 0} (o : Olm A S) (d : DemoDraws A) where
  -- An account whose one-time key a contact bundle hands out, and the same account afterwards.
  abbrev pub offering : A → A
  offering account = o.generate_one_time_key account

  abbrev pub published : A → A
  published account = o.mark_keys_as_published (offering account)

  abbrev pub plain_message : ℕ → PlainMessage
  plain_message now = record {
    version = payload_version;
    conversation_id = d.conversation;
    message_id = d.message_id;
    sent_at = now;
    body = demo_message;
  }

  abbrev pub plain_reply : ℕ → PlainMessage
  plain_reply later = record {
    version = payload_version;
    conversation_id = d.conversation;
    message_id = d.reply_id;
    sent_at = later;
    body = demo_reply;
  }

  pub record Transcript (now later : ℕ) : Type 0 where
    pub alice_key : Bytes
    pub bob_key : Bytes
    pub alice_offers : o.first_one_time_key (offering d.alice) ≡ some alice_key
    pub bob_offers : o.first_one_time_key (offering d.bob) ≡ some bob_key
    pub alice_keeps : o.ed25519_key (published d.alice) ≡ o.ed25519_key (offering d.alice)
    pub bob_keeps : o.ed25519_key (published d.bob) ≡ o.ed25519_key (offering d.bob)
    -- the message
    pub outbound : S
    pub creates :
        o.create_outbound_session (published d.alice) (o.curve25519_key (offering d.bob)) bob_key
        ≡ some outbound
    pub plain : Bytes
    pub writes : o.write_plain (plain_message now) ≡ some plain
    pub reads : o.read_plain plain ≡ some (plain_message now)
    pub sealed : S
    pub body : Bytes
    pub encrypts : o.encrypt outbound plain ≡ (sealed, some (pre_key body))
    pub packet : Bytes
    pub packs : o.write_packet (pre_key body) ≡ some packet
    pub unpacks : o.read_packet packet ≡ some (pre_key body)
    pub size : (0 < length packet) × (length packet ≤ max_packet_bytes)
    pub inbound : Inbound A S
    pub accepts :
        o.create_inbound_session
          (o.copy_account (published d.bob))
          (o.curve25519_key (offering d.alice))
          body
        ≡ some inbound
    pub decrypts : inbound.plaintext ≡ plain
    -- the reply
    pub reply_plain : Bytes
    pub writes_reply : o.write_plain (plain_reply later) ≡ some reply_plain
    pub reads_reply : o.read_plain reply_plain ≡ some (plain_reply later)
    pub answered : S
    pub reply : OlmMessage
    pub encrypts_reply : o.encrypt inbound.session reply_plain ≡ (answered, some reply)
    pub reply_packet : Bytes
    pub packs_reply : o.write_packet reply ≡ some reply_packet
    pub unpacks_reply : o.read_packet reply_packet ≡ some reply
    pub reply_size : (0 < length reply_packet) × (length reply_packet ≤ max_packet_bytes)
    pub received : S
    pub decrypts_reply : o.decrypt (o.copy_session sealed) reply ≡ (received, some reply_plain)
