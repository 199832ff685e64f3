-- ===== src/Relay/Run.antt =====
-- Histories of the relay: any sequence of calls, each at its own time and with its own faults.
use secure_messenger_lab.Prelude.{
  ℕ, ◌+◌, ◌<◌, ◌≤◌, ◌≡◌, refl, true, List, [], ◌∷◌, All, All-intro, Bool, Bool-cases, inl, inr,
  arith, subst, String, Option, some, none,
}
use secure_messenger_lab.Errors.{LabError, Result, ok, err}
use secure_messenger_lab.Bytes.{Bytes}
use secure_messenger_lab.Crypto.{Crypto}
use secure_messenger_lab.Packets.{StoredEnvelope}
use secure_messenger_lab.Capability.{
  MailboxRegistration, registration_signing_bytes, SendRequest, FetchRequest, AckRequest,
  DeleteMailboxRequest,
}
use secure_messenger_lab.Relay.Store.{Tables, Relay, Faults, commit_reply, settle}
use secure_messenger_lab.Relay.Success.{purged}
use secure_messenger_lab.Relay.Register.{register_body, register}
use secure_messenger_lab.Relay.Enqueue.{enqueue_body, enqueue, EnqueueOutcome}
use secure_messenger_lab.Relay.Fetch.{fetch_body, fetch}
use secure_messenger_lab.Relay.Acknowledge.{acknowledge_body, acknowledge, AckOutcome}
use secure_messenger_lab.Relay.Remove.{
  delete_mailbox_body, delete_mailbox, purge_expired_body, purge_expired,
}
use secure_messenger_lab.Relay.Effects.Register
use secure_messenger_lab.Relay.Effects.Register.{Registered}
use secure_messenger_lab.Relay.Effects.Enqueue
use secure_messenger_lab.Relay.Effects.Enqueue.{Enqueued}
use secure_messenger_lab.Relay.Checks.{max_message_ttl_seconds}
use secure_messenger_lab.Relay.Effects.Fetch.{Fetched, fetch_body-ok}
use secure_messenger_lab.Relay.Effects.Acknowledge.{Acknowledged, acknowledge_body-ok}
use secure_messenger_lab.Relay.Effects.Remove.{
  Deleted, delete_mailbox_body-ok, purge_expired_body-ok,
}

-- The calls that change the database.
pub data Call : Type 0 where
  registers : MailboxRegistration → Call
  enqueues : SendRequest → Call
  fetches : FetchRequest → Call
  acknowledges : AckRequest → Call
  deletes : DeleteMailboxRequest → Call
  sweeps : Call

pub record Event : Type 0 where
  pub call : Call
  pub now : ℕ
  pub fails : Faults

-- The queue that a call names; a sweep names none.
abbrev pub queue_named : Call → Option Bytes
queue_named (registers request) = some request.queue_id
queue_named (enqueues request) = some request.queue_id
queue_named (fetches request) = some request.queue_id
queue_named (acknowledges request) = some request.queue_id
queue_named (deletes request) = some request.queue_id
queue_named sweeps = none

abbrev pub failure {ℓ} : {A : Type ℓ} → Result A → Option LabError
failure (ok a) = none
failure (err x) = some x

module _ (c : Crypto) where
  abbrev pub perform : Relay → Call → ℕ → Faults → Relay
  perform r (registers request) now fails = (register c fails r request now).1
  perform r (enqueues request) now fails = (enqueue c fails r request now).1
  perform r (fetches request) now fails = (fetch c fails r request now).1
  perform r (acknowledges request) now fails = (acknowledge c fails r request now).1
  perform r (deletes request) now fails = (delete_mailbox c fails r request now).1
  perform r sweeps now fails = (purge_expired fails r now).1

  -- The error that a call answers with, if it does.
  abbrev pub error_of : Relay → Call → ℕ → Faults → Option LabError
  error_of r (registers request) now fails = failure (register c fails r request now).0
  error_of r (enqueues request) now fails = failure (enqueue c fails r request now).0
  error_of r (fetches request) now fails = failure (fetch c fails r request now).0
  error_of r (acknowledges request) now fails = failure (acknowledge c fails r request now).0
  error_of r (deletes request) now fails = failure (delete_mailbox c fails r request now).0
  error_of r sweeps now fails = failure (purge_expired fails r now).0

  abbrev pub step : Relay → Event → Relay
  step r e = perform r e.call e.now e.fails

  unfoldable pub run : Relay → List Event → Relay
  run r [] = r
  run r (e ∷ es) = run (step r e) es

  -- What a call at time `now` may do to the tables.
  pub data Change (call : Call) (now : ℕ) (t t' : Tables) : Type 0 where
    unchanged : t' ≡ t → Change call now t t'
    swept : t' ≡ purged now t → Change call now t t'
    registered :
        (request : MailboxRegistration) (fresh : Bool)
        → call ≡ registers request
        → c.verify request.manage_key (registration_signing_bytes request) request.signature ≡ true
        → Registered c request now t t' fresh
        → Change call now t t'
    enqueued :
        (request : SendRequest) (out : EnqueueOutcome)
        → call ≡ enqueues request
        → now < request.expires_at
        → request.expires_at ≤ now + max_message_ttl_seconds
        → Enqueued c request now t t' out
        → Change call now t t'
    fetched :
        (request : FetchRequest) (envelopes : List StoredEnvelope)
        → call ≡ fetches request
        → Fetched c request now t t' envelopes
        → Change call now t t'
    acknowledged :
        (request : AckRequest) (out : AckOutcome)
        → call ≡ acknowledges request
        → Acknowledged c request now t t' out
        → Change call now t t'
    deleted :
        (request : DeleteMailboxRequest) (found : Bool)
        → call ≡ deletes request
        → Deleted c request now t t' found
        → Change call now t t'

  -- A call's body changes the tables if its commit is written, be it answered or not.
  settled-Change {ℓ} :
      {A : Type ℓ} (call : Call) (now : ℕ) (r : Relay) (fails : Faults)
      (result : Result ((List String × A) × Tables))
      → ((events : List String) (a : A) (t' : Tables)
          → result ≡ ok ((events, a), t')
          → Change call now r.tables t')
      → Change call now r.tables (settle fails r result).1.tables
  unfolding settle
  settled-Change call now r fails (ok ((events, a), t)) written =
      subst (Change call now r.tables)
        (elim (Bool-cases (fails commit_reply)) [
          | inl lost ↦ ground arith
          | inr heard ↦ ground arith
        ])
        (written events a t refl)
  settled-Change call now r fails (err x) written = unchanged refl

  -- Whatever the call, the time and the faults, the tables change in one of these ways.
  pub perform-Change :
      (r : Relay) (call : Call) (now : ℕ) (fails : Faults)
      → Change call now r.tables (perform r call now fails).tables
  unfolding register enqueue fetch acknowledge delete_mailbox purge_expired
  perform-Change r (registers request) now fails =
      settled-Change (registers request) now r fails (register_body c fails request now r.tables)
        (λ events fresh t' e.
          let facts = Register.register_body-ok c fails request now r.tables t' events fresh e in
          registered request fresh refl facts.0.signed facts.1)
  perform-Change r (enqueues request) now fails =
      settled-Change (enqueues request) now r fails (enqueue_body c fails request now r.tables)
        (λ events out t' e.
          let facts = Enqueue.enqueue_body-ok c fails request now r.tables t' events out e in
          enqueued request out refl facts.0.live facts.0.bounded facts.1)
  perform-Change r (fetches request) now fails =
      settled-Change (fetches request) now r fails (fetch_body c fails request now r.tables)
        (λ events es t' e.
          fetched request es refl (fetch_body-ok c fails request now r.tables t' events es e).2)
  perform-Change r (acknowledges request) now fails =
      settled-Change (acknowledges request) now r fails
        (acknowledge_body c fails request now r.tables)
        (λ events out t' e.
          acknowledged request out refl
            (acknowledge_body-ok c fails request now r.tables t' events out e).2)
  perform-Change r (deletes request) now fails =
      settled-Change (deletes request) now r fails
        (delete_mailbox_body c fails request now r.tables)
        (λ events found t' e.
          deleted request found refl
            (delete_mailbox_body-ok c fails request now r.tables t' events found e).2)
  perform-Change r sweeps now fails =
      settled-Change sweeps now r fails (purge_expired_body fails now r.tables)
        (λ events n t' e. swept (purge_expired_body-ok fails r.tables t' now events n e).0)

  -- What every change by an event of a kind keeps, every history of such events keeps.
  pub run_induction_when {ℓ κ} :
      (E : Event → Type κ) (P : Tables → Type ℓ)
      → ((e : Event) (t t' : Tables) → E e → Change e.call e.now t t' → P t → P t')
      → (r : Relay) (es : List Event) → All E es
      → P r.tables
      → P (run r es).tables
  unfolding run
  run_induction_when E P keep r [] k h = h
  run_induction_when E P keep r (e ∷ es) k h =
      run_induction_when E P keep (step r e) es k.1
        (keep e r.tables _ k.0 (perform-Change r e.call e.now e.fails) h)

  pub run_induction {ℓ} :
      (P : Tables → Type ℓ)
      → ((call : Call) (now : ℕ) (t t' : Tables) → Change call now t t' → P t → P t')
      → (r : Relay) (es : List Event) → P r.tables
      → P (run r es).tables
  run_induction P keep r es h =
      run_induction_when (λ _. Unit {0}) P (λ e t t' _ d p. keep e.call e.now t t' d p) r es
        (All-intro (λ _. tt) es) h
