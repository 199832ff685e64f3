-- ===== src/Capability/Signing.antt =====
-- Domain separation of the signed commands: the bytes under a signature determine the command.
use secure_messenger_lab.Prelude.{
  ℕ, ◌^◌, ◌<◌, ◌≡◌, refl, sym, ◌∙◌, List, [], ◌∷◌, arith, length, All,
}
use secure_messenger_lab.Bytes.{Bytes, to_be_bytes}
use secure_messenger_lab.Bytes.Laws.{length-to_be_bytes, to_be_bytes_injective}
use secure_messenger_lab.Encoding.{
  canonical, action_register, action_send, action_fetch, action_ack, action_delete,
}
use secure_messenger_lab.Encoding.Injective.{Fits, canonical_injective}
use secure_messenger_lab.Crypto.{Crypto}
use secure_messenger_lab.Capability.{
  MailboxRegistration, SendRequest, FetchRequest, AckRequest, DeleteMailboxRequest,
  registration_signing_bytes, request_signing_bytes, send_signing_bytes, fetch_signing_bytes,
  ack_signing_bytes, delete_signing_bytes,
}

-- A signed relay command.
pub data Command : Type 0 where
  register : MailboxRegistration → Command
  send : SendRequest → Command
  fetch : FetchRequest → Command
  ack : AckRequest → Command
  delete : DeleteMailboxRequest → Command

-- What a command asks for: all of it but the signature, and of a packet its digest.
pub data Content : Type 0 where
  registers : (queue_id send_key receive_key manage_key nonce : Bytes) (until : ℕ) → Content
  sends acks : (queue_id message_id digest : Bytes) (until : ℕ) → Content
  fetches deletes : (queue_id nonce : Bytes) (until : ℕ) → Content

module _ (c : Crypto) where
  abbrev pub signing_bytes : Command → Bytes
  signing_bytes (register r) = registration_signing_bytes r
  signing_bytes (send r) = request_signing_bytes c r
  signing_bytes (fetch r) = fetch_signing_bytes r
  signing_bytes (ack r) = ack_signing_bytes r
  signing_bytes (delete r) = delete_signing_bytes r

  abbrev pub content : Command → Content
  content (register r) =
      registers r.queue_id r.send_key r.receive_key r.manage_key r.nonce r.valid_until
  content (send r) = sends r.queue_id r.message_id (c.sha256 r.packet) r.expires_at
  content (fetch r) = fetches r.queue_id r.nonce r.valid_until
  content (ack r) = acks r.queue_id r.message_id r.packet_hash r.valid_until
  content (delete r) = deletes r.queue_id r.nonce r.valid_until

-- The sizes of the Rust types: arrays of 16 and 32 bytes, and a `u64`.
abbrev pub IsTyped : Content → Type 0
IsTyped (registers queue sk rk mk nonce until) =
    (length queue ≡ 32)
    × (length sk ≡ 32)
    × (length rk ≡ 32)
    × (length mk ≡ 32)
    × (length nonce ≡ 16)
    × (until < 2 ^ 64)
IsTyped (sends queue message digest until) =
    (length queue ≡ 32) × (length message ≡ 16) × (length digest ≡ 32) × (until < 2 ^ 64)
IsTyped (acks queue message digest until) =
    (length queue ≡ 32) × (length message ≡ 16) × (length digest ≡ 32) × (until < 2 ^ 64)
IsTyped (fetches queue nonce until) = (length queue ≡ 32) × (length nonce ≡ 16) × (until < 2 ^ 64)
IsTyped (deletes queue nonce until) = (length queue ≡ 32) × (length nonce ≡ 16) × (until < 2 ^ 64)

action : Content → Bytes
action (registers queue sk rk mk nonce until) = action_register
action (sends queue message digest until) = action_send
action (acks queue message digest until) = action_ack
action (fetches queue nonce until) = action_fetch
action (deletes queue nonce until) = action_delete

parts : Content → List Bytes
parts (registers queue sk rk mk nonce until) =
    queue ∷ sk ∷ rk ∷ mk ∷ nonce ∷ to_be_bytes 8 until ∷ []
parts (sends queue message digest until) = queue ∷ message ∷ digest ∷ to_be_bytes 8 until ∷ []
parts (acks queue message digest until) = queue ∷ message ∷ digest ∷ to_be_bytes 8 until ∷ []
parts (fetches queue nonce until) = queue ∷ nonce ∷ to_be_bytes 8 until ∷ []
parts (deletes queue nonce until) = queue ∷ nonce ∷ to_be_bytes 8 until ∷ []

signing_bytes-content :
    (c : Crypto) (x : Command)
    → signing_bytes c x ≡ canonical (action (content c x)) (parts (content c x))
unfolding action parts registration_signing_bytes request_signing_bytes send_signing_bytes
    fetch_signing_bytes ack_signing_bytes delete_signing_bytes
signing_bytes-content c (register r) = refl
signing_bytes-content c (send r) = refl
signing_bytes-content c (fetch r) = refl
signing_bytes-content c (ack r) = refl
signing_bytes-content c (delete r) = refl

action-Fits : (x : Content) → Fits 8 (action x)
unfolding action
action-Fits (registers queue sk rk mk nonce until) = omega arith
action-Fits (sends queue message digest until) = omega arith
action-Fits (acks queue message digest until) = omega arith
action-Fits (fetches queue nonce until) = omega arith
action-Fits (deletes queue nonce until) = omega arith

parts-Fits : (x : Content) → IsTyped x → All (Fits 8) (parts x)
unfolding parts
parts-Fits (registers queue sk rk mk nonce until) h = omega (arith, length-to_be_bytes 8 until)
parts-Fits (sends queue message digest until) h = omega (arith, length-to_be_bytes 8 until)
parts-Fits (acks queue message digest until) h = omega (arith, length-to_be_bytes 8 until)
parts-Fits (fetches queue nonce until) h = omega (arith, length-to_be_bytes 8 until)
parts-Fits (deletes queue nonce until) h = omega (arith, length-to_be_bytes 8 until)

u64_bytes_injective :
    (n m : ℕ) → n < 2 ^ 64 → m < 2 ^ 64 → to_be_bytes 8 n ≡ to_be_bytes 8 m → n ≡ m
u64_bytes_injective n m hn hm e = to_be_bytes_injective 8 n m (omega arith) (omega arith) e

content_determined :
    (x y : Content) → IsTyped x → IsTyped y → action x ≡ action y → parts x ≡ parts y → x ≡ y
unfolding action parts
content_determined (registers q s r m n t) (registers q' s' r' m' n' t') hx hy a p =
    ground (arith, u64_bytes_injective t t')
content_determined (sends q m d t) (sends q' m' d' t') hx hy a p =
    ground (arith, u64_bytes_injective t t')
content_determined (acks q m d t) (acks q' m' d' t') hx hy a p =
    ground (arith, u64_bytes_injective t t')
content_determined (fetches q n t) (fetches q' n' t') hx hy a p =
    ground (arith, u64_bytes_injective t t')
content_determined (deletes q n t) (deletes q' n' t') hx hy a p =
    ground (arith, u64_bytes_injective t t')
content_determined _ _ hx hy a p = absurd (ground arith)

-- Two commands whose fields have the sizes of their Rust types sign the same bytes only if they
-- are commands of one kind with the same fields, up to the signature and to the packet's digest.
pub signing_bytes_injective :
    (c : Crypto) (x y : Command)
    → IsTyped (content c x)
    → IsTyped (content c y)
    → signing_bytes c x ≡ signing_bytes c y
    → content c x ≡ content c y
signing_bytes_injective c x y hx hy e =
    let same =
      canonical_injective _ _ _ _ (action-Fits (content c x)) (action-Fits (content c y))
        (parts-Fits (content c x) hx) (parts-Fits (content c y) hy)
        (sym (signing_bytes-content c x) ∙ e ∙ signing_bytes-content c y) in
    content_determined (content c x) (content c y) hx hy same.0 same.1
