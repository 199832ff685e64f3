-- ===== src/Relay/Spec.antt =====
-- What the relay of src/relay.rs promises about one queue, without tables, SQL, transactions,
-- nonces, tombstones and other queues: a mailbox that is opened once, filled by its sender, emptied
-- by its recipient and by time, and closed for good.
pub mod View
pub mod Calls
pub mod Refines
pub mod Order
use secure_messenger_lab.Prelude.{
  ℕ, ◌+◌, ◌≤◌, ◌<◌, ◌≡◌, true, false, Bool, Option, none, some, List, [], ◌∷◌, ◌++◌,
}
use secure_messenger_lab.Bytes.{Bytes, bytes_eq}
use secure_messenger_lab.Crypto.{Crypto}
use secure_messenger_lab.Capability.{
  MailboxRegistration, SendRequest, AckRequest, DeleteMailboxRequest, registration_signing_bytes,
  request_signing_bytes, ack_signing_bytes, delete_signing_bytes,
}
use secure_messenger_lab.Table.{select_where, find_where, exists_where, delete_where}
use secure_messenger_lab.Relay.Store.{Mailbox, Message, Tables}
use secure_messenger_lab.Relay.Sql.{of_queue, is_message, is_retired, message_expired}
use secure_messenger_lab.Relay.Checks.{max_message_ttl_seconds}
use secure_messenger_lab.Relay.Enqueue.{message_of}
use secure_messenger_lab.Relay.Run.{Call, Event, registers, enqueues, acknowledges, deletes}

-- A queue, as its owner and its peer know it.
pub record Queue : Type 0 where
  pub mailbox : Option Mailbox
  pub messages : List Message
  pub retired : Bool

abbrev pub is_of : Bytes → Message → Bool
is_of queue_id m = bytes_eq m.queue_id queue_id

-- The queue that the tables hold.
abbrev pub queue_of : Crypto → Bytes → Tables → Queue
queue_of c queue_id t = record {
  mailbox = find_where (of_queue queue_id) t.mailboxes;
  messages = select_where (is_of queue_id) t.messages;
  retired = exists_where (is_retired (c.sha256 queue_id)) t.retired_queues;
}

module _ (c : Crypto) (queue_id : Bytes) where
  -- One move of a queue, by a call at time `now`.
  pub data Move (call : Call) (now : ℕ) (s s' : Queue) : Type 0 where
    expires :
        s' ≡ record s { messages = delete_where (message_expired now) s.messages }
        → Move call now s s'
    opens :
        (box : Mailbox) (request : MailboxRegistration)
        → call ≡ registers request
        → c.verify request.manage_key (registration_signing_bytes request) request.signature ≡ true
        → request.queue_id ≡ queue_id
        → box ≡ record {
          queue_id = request.queue_id;
          send_key = request.send_key;
          receive_key = request.receive_key;
          manage_key = request.manage_key;
          created_at = now;
        }
        → s.retired ≡ false
        → s.mailbox ≡ none
        → s' ≡ record s { mailbox = some box }
        → Move call now s s'
    accepts :
        (box : Mailbox) (request : SendRequest)
        → call ≡ enqueues request
        → s.mailbox ≡ some box
        → c.verify box.send_key (request_signing_bytes c request) request.signature ≡ true
        → now < request.expires_at
        → request.expires_at ≤ now + max_message_ttl_seconds
        → request.queue_id ≡ queue_id
        → find_where (is_message queue_id request.message_id) s.messages ≡ none
        → s' ≡ record s { messages = s.messages ++ message_of request request.expires_at ∷ [] }
        → Move call now s s'
    removes :
        (box : Mailbox) (request : AckRequest) (old : Message)
        → call ≡ acknowledges request
        → s.mailbox ≡ some box
        → c.verify box.receive_key (ack_signing_bytes request) request.signature ≡ true
        → request.queue_id ≡ queue_id
        → find_where (is_message queue_id request.message_id) s.messages ≡ some old
        → c.sha256 old.ciphertext ≡ request.packet_hash
        → s'
          ≡ record s { messages = delete_where (is_message queue_id request.message_id) s.messages }
        → Move call now s s'
    -- The hash is all that the record of a deleted queue keeps.
    retires :
        (request : DeleteMailboxRequest)
        → call ≡ deletes request
        → c.sha256 request.queue_id ≡ c.sha256 queue_id
        → s' ≡ record s { retired = true }
        → Move call now s s'
    closes :
        (box : Mailbox) (request : DeleteMailboxRequest)
        → call ≡ deletes request
        → s.mailbox ≡ some box
        → c.verify box.manage_key (delete_signing_bytes request) request.signature ≡ true
        → request.queue_id ≡ queue_id
        → s.retired ≡ true
        → s' ≡ record s { mailbox = none; messages = [] }
        → Move call now s s'

  -- Any number of moves by one call.
  pub data Moves (call : Call) (now : ℕ) : Queue → Queue → Type 0 where
    rests : {s : Queue} → Moves call now s s
    moves : {s s1 s2 : Queue} → Move call now s s1 → Moves call now s1 s2 → Moves call now s s2

  -- The moves of a history, each by its call and at its time.
  pub data Play : List Event → Queue → Queue → Type 0 where
    over : {s : Queue} → Play [] s s
    turn :
        {e : Event} {es : List Event} {s s1 s2 : Queue}
        → Moves e.call e.now s s1
        → Play es s1 s2
        → Play (e ∷ es) s s2
