-- ===== src/Tests/Fixtures.antt =====
-- A toy instance of the cryptography, which meets the laws and has no security, and values that
-- the tests share.
use secure_messenger_lab.Prelude.{
  ℕ, zero, suc, ◌+◌, ◌≡◌, refl, ap, false, [], ◌∷◌, ◌++◌, ◌==◌, arith, length,
}
use secure_messenger_lab.Bytes.{Bytes, ascii, bytes_eq}
use secure_messenger_lab.Bytes.Laws.{bytes_eq_refl}
use secure_messenger_lab.Packets.{OpenedMessage}
use secure_messenger_lab.Crypto.{Crypto, Laws}
use secure_messenger_lab.Capability.{
  MailboxOwner, MailboxRegistration, SendRequest, FetchRequest, DeleteMailboxRequest, AckRequest,
  registration, sender_capability, receiver_capability, manager_capability, authorize,
  authorize_fetch, authorize_ack, authorize_delete,
}
use secure_messenger_lab.Relay.Store.{Relay, Faults, empty_tables}

-- The first `n` bytes, with zeros behind them.
unfoldable pub fit : ℕ → Bytes → Bytes
fit zero xs = []
fit (suc n) [] = 0 ∷ fit n []
fit (suc n) (x ∷ xs) = x ∷ fit n xs

pub length-fit : (n : ℕ) (xs : Bytes) → length (fit n xs) ≡ n
unfolding fit
length-fit zero xs = refl
length-fit (suc n) [] = ap suc (length-fit n [])
length-fit (suc n) (x ∷ xs) = ap suc (length-fit n xs)

unfoldable pub checksum : Bytes → ℕ
checksum [] = 0
checksum (x ∷ xs) = x + checksum xs

unfoldable pub toy_sign : Bytes → Bytes → Bytes
toy_sign key message = fit 64 (key ++ checksum message ∷ [])

abbrev pub toy : Crypto
toy = record {
  public_key = λ k. fit 32 k;
  sign = λ k m. toy_sign (fit 32 k) m;
  verify = λ key m s. bytes_eq s (toy_sign key m);
  is_public_key = λ k. length k == 32;
  is_signature = λ s. length s == 64;
  sha256 = λ m. fit 32 m;
}

pub toy-Laws : Laws toy
unfolding toy_sign
toy-Laws = record {
  verify_sign = λ k m. bytes_eq_refl (fit 64 (fit 32 k ++ checksum m ∷ []));
  length_public_key = λ k. length-fit 32 k;
  length_sign = λ k m. length-fit 64 (fit 32 k ++ checksum m ∷ []);
  parse_public_key = λ k. ground (arith, length-fit 32 k);
  parse_sign = λ k m. ground (arith, length-fit 64 (fit 32 k ++ checksum m ∷ []));
  length_sha256 = λ m. length-fit 32 m;
}

abbrev pub no_faults : Faults
no_faults = λ _. false

abbrev pub new_relay : Relay
new_relay = record { tables = empty_tables; audit_events = [] }

abbrev pub owner : MailboxOwner
unfolding fit
owner = record {
  queue_id = fit 32 (ascii "queue");
  send = ascii "send key";
  receive = ascii "receive key";
  manage = ascii "manage key";
}

abbrev pub nonce : ℕ → Bytes
unfolding fit
nonce n = fit 16 (n ∷ [])

abbrev pub packet : Bytes
packet = ascii "ciphertext"

abbrev pub registering : MailboxRegistration
registering = registration toy owner (nonce 1) 1060

abbrev pub sending : SendRequest
sending = authorize toy (sender_capability toy owner) (nonce 2) packet 4600

abbrev pub fetching : FetchRequest
fetching = authorize_fetch toy (receiver_capability toy owner) (nonce 3) 1060

abbrev pub deleting : DeleteMailboxRequest
deleting = authorize_delete toy (manager_capability toy owner) (nonce 4) 1060

abbrev pub opened : OpenedMessage
opened = record {
  message = record {
    version = 1;
    conversation_id = nonce 7;
    message_id = nonce 2;
    sent_at = 1000;
    body = ascii "hello";
  };
  envelope = record {
    queue_id = owner.queue_id;
    message_id = nonce 2;
    packet = packet;
    expires_at = 4600;
  };
}

abbrev pub acking : AckRequest
acking = authorize_ack toy (receiver_capability toy owner) opened 1060
