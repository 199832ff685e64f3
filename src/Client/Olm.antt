-- ===== src/Client/Olm.antt =====
-- The libraries under the client, as a parameter: the accounts, sessions and messages of vodozemac
-- and the JSON of serde. A method that takes `&mut self` returns the object that it leaves.
use secure_messenger_lab.Prelude.{Option, ◌≡◌, true}
use secure_messenger_lab.Bytes.{Bytes}
use secure_messenger_lab.Crypto.{Crypto}
use secure_messenger_lab.Packets.{PlainMessage}

-- `vodozemac::olm::OlmMessage`, whose two variants the client tells apart.
pub data OlmMessage : Type 0 where
  pre_key normal : Bytes → OlmMessage

-- What `create_inbound_session` returns, and the account that it leaves.
pub record Inbound (Account Session : Type 0) : Type 0 where
  pub account : Account
  pub session : Session
  pub plaintext : Bytes

pub record Olm (Account Session : Type 0) : Type 0 where
  pub ed25519_key : Account → Bytes
  pub curve25519_key : Account → Bytes
  pub sign : Account → Bytes → Bytes
  pub generate_one_time_key : Account → Account
  pub first_one_time_key : Account → Option Bytes
  pub mark_keys_as_published : Account → Account
  pub create_outbound_session : Account → Bytes → Bytes → Option Session
  pub create_inbound_session : Account → Bytes → Bytes → Option (Inbound Account Session)
  -- `from_pickle(x.pickle())`
  pub copy_account : Account → Account
  pub copy_session : Session → Session
  pub encrypt : Session → Bytes → Session × Option OlmMessage
  pub decrypt : Session → OlmMessage → Session × Option Bytes
  -- `serde_json::to_vec` and `from_slice`
  pub write_packet : OlmMessage → Option Bytes
  pub read_packet : Bytes → Option OlmMessage
  pub write_plain : PlainMessage → Option Bytes
  pub read_plain : Bytes → Option PlainMessage

-- An account's signature verifies under its own Ed25519 identity.
pub record SigningLaws (c : Crypto) {A S : Type 0} (o : Olm A S) : Type 0 where
  pub verify_sign : (a : A) (m : Bytes) → c.verify (o.ed25519_key a) m (o.sign a m) ≡ true
  pub keep_generate : (a : A) → o.ed25519_key (o.generate_one_time_key a) ≡ o.ed25519_key a
