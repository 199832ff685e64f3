-- ===== src/Tests/Commands.antt =====
-- The theorems on signed commands at concrete inputs.
use secure_messenger_lab.Prelude.{◌≡◌, refl, true, List, [], ◌∷◌, arith}
use secure_messenger_lab.Errors.{ok, err, unauthorized}
use secure_messenger_lab.Bytes.{Bytes, ascii}
use secure_messenger_lab.Packets.{StoredEnvelope}
use secure_messenger_lab.Capability.{
  registration_signing_bytes, request_signing_bytes, fetch_signing_bytes, ack_signing_bytes,
  delete_signing_bytes, registration, sender_capability, receiver_capability, manager_capability,
  authorize, authorize_fetch, authorize_ack, authorize_delete, verify_envelope,
}
use secure_messenger_lab.Capability.Requests.{authorize_verifies}
use secure_messenger_lab.Capability.Signing.{fetch, content, signing_bytes_injective}
use secure_messenger_lab.Capability.Envelopes.{
  IsGenuine, envelope_of, verified, verify_envelope_exact,
}
use secure_messenger_lab.Tests.Fixtures.{
  toy, toy-Laws, owner, nonce, packet, opened, sending, fetching,
}
use secure_messenger_lab.Tests.Executable.{executable}

abbrev parts : List Bytes
parts = ascii "queue" ∷ ascii "nonce" ∷ []

signing_bytes_injective_example : content toy (fetch fetching) ≡ content toy (fetch fetching)
unfolding executable
signing_bytes_injective_example =
    signing_bytes_injective toy (fetch fetching) (fetch fetching) (refl, refl, omega arith)
      (refl, refl, omega arith) refl

authorize_verifies_example :
    let reg = registration toy owner (nonce 1) 1060 in
    let sent = authorize toy (sender_capability toy owner) (nonce 2) packet 1060 in
    let fetched = authorize_fetch toy (receiver_capability toy owner) (nonce 1) 1060 in
    let acked = authorize_ack toy (receiver_capability toy owner) opened 1060 in
    let deleted = authorize_delete toy (manager_capability toy owner) (nonce 1) 1060 in
    (toy.verify reg.manage_key (registration_signing_bytes reg) reg.signature ≡ true)
    × (toy.verify reg.send_key (request_signing_bytes toy sent) sent.signature ≡ true)
    × (toy.verify reg.receive_key (fetch_signing_bytes fetched) fetched.signature ≡ true)
    × (toy.verify reg.receive_key (ack_signing_bytes acked) acked.signature ≡ true)
    × (toy.verify reg.manage_key (delete_signing_bytes deleted) deleted.signature ≡ true)
authorize_verifies_example =
    authorize_verifies toy toy-Laws owner (nonce 1) (nonce 2) packet opened 1060

abbrev sent_envelope : StoredEnvelope
sent_envelope = envelope_of sending

verify_envelope_exact_example :
    (IsGenuine toy (receiver_capability toy owner) sent_envelope 1002
      → verify_envelope toy (receiver_capability toy owner) sent_envelope 1002
        ≡ ok (verified sent_envelope))
    × (¬ IsGenuine toy (receiver_capability toy owner) sent_envelope 1002
        → verify_envelope toy (receiver_capability toy owner) sent_envelope 1002 ≡ err unauthorized)
verify_envelope_exact_example =
    verify_envelope_exact toy (receiver_capability toy owner) sent_envelope 1002
