-- ===== src/Tests/Demos.antt =====
-- `run_demo` with toy libraries, which keep nothing secret.
use secure_messenger_lab.Prelude.{
  zero, suc, ◌≡◌, refl, Option, some, none, [], ◌∷◌, ◌++◌, arith, length,
}
use secure_messenger_lab.Errors.{Result, ok}
use secure_messenger_lab.Bytes.{Bytes, ascii}
use secure_messenger_lab.Bytes.Laws.{bytes_eq_refl}
use secure_messenger_lab.Packets.{PlainMessage}
use secure_messenger_lab.Capability.{MailboxOwner}
use secure_messenger_lab.Client.Olm.{Olm, OlmMessage, SigningLaws, pre_key, normal}
use secure_messenger_lab.Relay.Store.{Relay}
use secure_messenger_lab.Relay.Schema.{RelayDatabase}
use secure_messenger_lab.Relay.Manifest.Laws.{no_open_faults}
use secure_messenger_lab.Relay.Opening.{SqliteFiles, open_now}
use secure_messenger_lab.Relay.Ddl.{current_schema_ddl}
use secure_messenger_lab.Relay.Retry.{healthy}
use secure_messenger_lab.Demo.{DemoDraws, run_demo}
use secure_messenger_lab.Demo.Transcript.{Transcript, plain_message, plain_reply}
use secure_messenger_lab.Demo.Relaying.{IsDrawn, empty_relay}
use secure_messenger_lab.Demo.Passes.{all_healthy, demo_passes}
use secure_messenger_lab.Tests.Fixtures.{toy, toy-Laws, toy_sign, fit, owner, nonce}
use secure_messenger_lab.Tests.Executable.{executable}
use secure_messenger_lab.Tests.States.{drop_tag}
use secure_messenger_lab.Tests.Openings.{
  openings, toy_engine, toy_catalog, toy_object, fresh, files_at_rest,
}

-- A session that has encrypted nothing is empty, and its first message is a pre-key message.
abbrev variant : Bytes → Bytes → OlmMessage
variant [] plain = pre_key plain
variant (_ ∷ _) plain = normal plain

abbrev written : OlmMessage → Bytes
written (pre_key body) = 0 ∷ body
written (normal body) = 1 ∷ body

abbrev parsed : Bytes → Option OlmMessage
parsed [] = none
parsed (zero ∷ body) = some (pre_key body)
parsed (suc _ ∷ body) = some (normal body)

abbrev plain_of : Bytes → Option PlainMessage
plain_of [] = none
plain_of (sent_at ∷ rest) = some (record {
  version = 1;
  conversation_id = fit 16 rest;
  message_id = fit 16 (drop_tag 16 rest);
  sent_at = sent_at;
  body = drop_tag 32 rest;
})

abbrev body_of : OlmMessage → Bytes
body_of (pre_key body) = body
body_of (normal body) = body

abbrev two_party_olm : Olm Bytes Bytes
two_party_olm = record {
  ed25519_key = λ a. fit 32 a;
  curve25519_key = λ a. fit 32 a;
  sign = λ a m. toy_sign (fit 32 a) m;
  generate_one_time_key = λ a. a;
  first_one_time_key = λ a. some a;
  mark_keys_as_published = λ a. a;
  create_outbound_session = λ a curve key. some [];
  create_inbound_session =
      λ a curve body. some (record { account = a; session = 1 ∷ []; plaintext = body });
  copy_account = λ a. a;
  copy_session = λ s. s;
  encrypt = λ s plain. (1 ∷ s, some (variant s plain));
  decrypt = λ s m. (s, some (body_of m));
  write_packet = λ m. some (written m);
  read_packet = parsed;
  write_plain = λ p. some (p.sent_at ∷ (p.conversation_id ++ (p.message_id ++ p.body)));
  read_plain = plain_of;
}

two_party_olm-SigningLaws : SigningLaws toy two_party_olm
two_party_olm-SigningLaws = record {
  verify_sign = λ a m. bytes_eq_refl (toy_sign (fit 32 a) m);
  keep_generate = λ a. refl;
}

abbrev second_owner : MailboxOwner
unfolding fit
second_owner = record owner { queue_id = fit 32 (ascii "other queue") }

abbrev draws : DemoDraws Bytes
draws = record {
  conversation = nonce 1;
  alice = ascii "alice";
  bob = ascii "bob";
  alice_inbox = owner;
  bob_inbox = second_owner;
  alice_nonce = nonce 2;
  bob_nonce = nonce 3;
  message_id = nonce 4;
  fetch_nonce = nonce 5;
  reply_id = nonce 6;
  reply_fetch_nonce = nonce 7;
}

draws-IsDrawn : IsDrawn draws
unfolding executable
draws-IsDrawn = record {
  alice_queue = refl;
  bob_queue = refl;
  distinct = refl;
  distinct_too = refl;
  alice_nonce_size = refl;
  bob_nonce_size = refl;
  message_id_size = refl;
  fetch_nonce_size = refl;
  reply_id_size = refl;
  reply_fetch_nonce_size = refl;
}

abbrev encoded : PlainMessage → Bytes
encoded p = p.sent_at ∷ (p.conversation_id ++ (p.message_id ++ p.body))

abbrev message : Bytes
message = encoded (plain_message two_party_olm draws 1000)

abbrev answer : Bytes
answer = encoded (plain_reply two_party_olm draws 1001)

transcript : Transcript two_party_olm draws 1000 1001
unfolding executable drop_tag
transcript = record {
  alice_key = ascii "alice";
  bob_key = ascii "bob";
  alice_offers = refl;
  bob_offers = refl;
  alice_keeps = refl;
  bob_keeps = refl;
  outbound = [];
  creates = refl;
  plain = message;
  writes = refl;
  reads = refl;
  sealed = 1 ∷ [];
  body = message;
  encrypts = refl;
  packet = 0 ∷ message;
  packs = refl;
  unpacks = refl;
  size = (omega arith, omega arith);
  inbound = record { account = ascii "bob"; session = 1 ∷ []; plaintext = message };
  accepts = refl;
  decrypts = refl;
  reply_plain = answer;
  writes_reply = refl;
  reads_reply = refl;
  answered = 1 ∷ 1 ∷ [];
  reply = normal answer;
  encrypts_reply = refl;
  reply_packet = 1 ∷ answer;
  packs_reply = refl;
  unpacks_reply = refl;
  reply_size = (omega arith, omega arith);
  received = 1 ∷ [];
  decrypts_reply = refl;
}

abbrev new_file : RelayDatabase
new_file = record fresh {
  user_version = 2;
  catalog = toy_catalog (toy_object (length current_schema_ddl) ∷ []);
}

abbrev new_files : SqliteFiles
new_files = record { open_uri = λ uri. some fresh; open_path = λ path. some fresh }

abbrev relay_path : Bytes
relay_path = ascii "relay.sqlite"

-- `Relay::open` on a new file, at time 1000
abbrev opens_relay : Bytes → Result (Relay × RelayDatabase)
opens_relay path =
    open_now toy_engine no_open_faults no_open_faults healthy files_at_rest new_files path
      (some 1000)

opens_empty : opens_relay relay_path ≡ ok (empty_relay, new_file)
unfolding openings
opens_empty = refl

demo_passes_example :
    run_demo toy two_party_olm draws all_healthy
      (some 1000)
      (some relay_path)
      opens_relay
      (some 1002)
    ≡ ok tt
demo_passes_example =
    demo_passes toy toy-Laws two_party_olm two_party_olm-SigningLaws draws draws-IsDrawn 1000
      transcript (omega arith) relay_path opens_relay new_file 1002 opens_empty (omega arith)
