-- ===== src/Relay/Success.antt =====
-- What the helpers of the relay's handlers have done when they succeed, whatever statements
-- might have failed.
use secure_messenger_lab.Prelude.{
  ℕ, String, ◌≤◌, ◌<◌, ◌≡◌, refl, false, some, List, ◌++◌, ◌∷◌, [], arith, length, Option-cases,
  inl, inr, ◌+◌, Bool-cases,
}
use mathlib.Core.Path.{subst, subst₂, ◌∙◌}
use secure_messenger_lab.Errors.{Result, ok, err}
use secure_messenger_lab.Bytes.{Bytes, i64_max}
use secure_messenger_lab.Crypto.{Crypto}
use secure_messenger_lab.Table.{select_where, delete_where, find_where, exists_where}
use secure_messenger_lab.Relay.Store.{
  commit_reply, Mailbox, Tables, Relay, Role, Faults, Tx, settle, immediate, ◌>>=◌,
}
use secure_messenger_lab.Relay.Sql.{
  of_queue, is_request_nonce, message_expired, tombstone_expired, request_nonce_expired,
  registration_nonce_expired,
}
use secure_messenger_lab.Relay.Checks.{
  Column, key_of, parse_key, mailbox_key, purge_expired_in, record_nonce, validate_request_time,
  validate_message_expiry, max_message_ttl_seconds,
}

-- The tables after the expiry sweep.
abbrev pub purged : ℕ → Tables → Tables
purged now t = record t {
  messages = delete_where (message_expired now) t.messages;
  tombstones = delete_where (tombstone_expired now) t.tombstones;
  request_nonces = delete_where (request_nonce_expired now) t.request_nonces;
  registration_nonces = delete_where (registration_nonce_expired now) t.registration_nonces;
}

pub settle-ok {ℓ} :
    {A : Type ℓ} (fails : Faults) (r r' : Relay) (result : Result ((List String × A) × Tables))
    (a : A)
    → settle fails r result ≡ (ok a, r')
    → (events : List String) × (result ≡ ok ((events, a), r'.tables))
      × (r'.audit_events ≡ r.audit_events ++ events)
unfolding settle
settle-ok fails r r' (ok ((events, b), t)) a e = elim (Bool-cases (fails commit_reply)) [
  | inl lost ↦ absurd (ground arith)
  | inr heard ↦ (events, ground arith, ground arith)
]
settle-ok fails r r' (err x) a e = absurd (ground arith)

pub immediate-ok {ℓ} :
    {A : Type ℓ} (fails : Faults) (body : Tx A) (t : Tables) {a : A} {t' : Tables}
    → immediate fails body t ≡ ok (a, t')
    → body t ≡ ok (a, t')
unfolding immediate
immediate-ok fails body t e = ground arith

pub purge_expired_in-ok :
    (fails : Faults) (now : ℕ) (t : Tables) {n : ℕ} {t' : Tables}
    → purge_expired_in fails now t ≡ ok (n, t')
    → (t' ≡ purged now t)
      × (n ≡ length (select_where (message_expired now) t.messages))
      × (now ≤ i64_max)
unfolding purge_expired_in
purge_expired_in-ok fails now t e = ground arith

pub mailbox_key-ok :
    (c : Crypto) (fails : Faults) (queue : Bytes) (column : Column) (t : Tables) {k : Bytes}
    {t' : Tables}
    → mailbox_key c fails queue column t ≡ ok (k, t')
    → (m : Mailbox) × (find_where (of_queue queue) t.mailboxes ≡ some m)
      × (k ≡ key_of column m)
      × (t' ≡ t)
      × (parse_key c (key_of column m) ≡ ok (key_of column m))
unfolding mailbox_key parse_key
mailbox_key-ok c fails queue column t {k} {t'} e =
    elim (Option-cases (find_where (of_queue queue) t.mailboxes)) [
      | inl missing ↦ absurd (ground arith)
      | inr (m, found) ↦ (m, found, ground arith, ground arith, ground arith)
    ]

pub record_nonce-ok :
    (fails : Faults) (queue : Bytes) (role : Role) (nonce : Bytes) (until : ℕ) (t : Tables)
    {u : Unit {0}} {t' : Tables}
    → record_nonce fails queue role nonce until t ≡ ok (u, t')
    → (exists_where (is_request_nonce queue role nonce) t.request_nonces ≡ false)
      × (t' ≡ record t {
        request_nonces =
            t.request_nonces
            ++ record { queue_id = queue; role = role; nonce = nonce; delete_after = until } ∷ [];
      })
unfolding record_nonce
record_nonce-ok fails queue role nonce until t e = ground arith

pub validate_request_time-ok :
    (until now : ℕ) {u : Unit {0}}
    → validate_request_time until now ≡ ok u
    → (now < until) × (until ≤ now + 300)
unfolding validate_request_time
validate_request_time-ok until now e = ground arith

pub validate_message_expiry-ok :
    (expires now : ℕ) {u : Unit {0}}
    → validate_message_expiry expires now ≡ ok u
    → (now < expires) × (expires ≤ now + max_message_ttl_seconds)
unfolding validate_message_expiry
validate_message_expiry-ok expires now e = ground arith

-- Inversion of a successful step of a transaction.
pub bind-ok {ℓ κ} :
    {A : Type ℓ} {B : Type κ} (m : Tx A) (f : A → Tx B) (t : Tables) {b : B} {t' : Tables}
    → (m >>= f) t ≡ ok (b, t')
    → (a : A) × (u : Tables) × (m t ≡ ok (a, u)) × (f a u ≡ ok (b, t'))
bind-ok {A} {B} m f t {b} {t'} e = go (m t) refl e
  where
    go :
        (r : Result (A × Tables))
        → m t ≡ r
        → (elim r [ ok (a, u) ↦ f a u | err x ↦ err x ]) ≡ ok (b, t')
        → (a : A) × (u : Tables) × (m t ≡ ok (a, u)) × (f a u ≡ ok (b, t'))
    go (ok (a, u)) p q = (a, u, p, q)
    go (err x) p q = absurd (ground arith)

-- The way into every handler of a registered queue: the sweep, then the mailbox's key.
pub enter-ok {ℓ} :
    {B : Type ℓ} (c : Crypto) (fails : Faults) (now : ℕ) (queue : Bytes) (column : Column)
    (f : Bytes → Tx B) (t : Tables) {b : B} {t' : Tables}
    → (do _ ← purge_expired_in fails now; key ← mailbox_key c fails queue column; f key) t
      ≡ ok (b, t')
    → (m : Mailbox) × (find_where (of_queue queue) t.mailboxes ≡ some m)
      × (f (key_of column m) (purged now t) ≡ ok (b, t'))
      × (parse_key c (key_of column m) ≡ ok (key_of column m))
enter-ok c fails now queue column f t {b} {t'} e =
    let (n, t1, swept, e1) = bind-ok (purge_expired_in fails now) _ t e in
    let (k, t2, keyed, e2) = bind-ok (mailbox_key c fails queue column) f t1 e1 in
    let sweep = purge_expired_in-ok fails now t swept in
    let (m, found, key, same, parsed) = mailbox_key-ok c fails queue column t1 keyed in
    (
      m,
      subst (λ u. find_where (of_queue queue) u.mailboxes ≡ some m) sweep.0 found,
      subst₂ (λ k u. f k u ≡ ok (b, t')) key (same ∙ sweep.0) e2,
      parsed,
    )
