-- ===== src/Smtp/Session.antt =====
-- internal/smtpedge/session.go, adapter.go and receipt_sink.go. A session is the state that its
-- three commands change; what they call is taken over an arbitrary state `S`.
use agent_layer.Prelude.{String, ◌==◌, Option, none, some, [], ◌∷◌, if◌then◌else◌}
use agent_layer.Prelude.Exec.{Exec, Result, ok, err, pure, fail, ◌>>=◌, ◌>>◌, failure}
use agent_layer.Domain.{Time, Bytes, Inbox, zero_time}
use agent_layer.Core.{StoredInboundMessage}
use agent_layer.Inbound.Receipt.{DurableReceiptRequest, stored_message}
use agent_layer.Inbound.Service.{HandleResult}

-- The fields that the commands write. A session that has seen no RCPT has the zero inbox.
pub record Session : Type 0 where
  pub session_id : String
  pub sender : String
  pub recipient : String
  pub target_inbox : Inbox

abbrev pub zero_inbox : Inbox
zero_inbox = record {
  id = "";
  organization_id = "";
  agent_id = "";
  email_address = "";
  domain = "";
  display_name = "";
  outbound_identity = "";
  created_at = zero_time;
  updated_at = zero_time;
}

-- NewSession
unfoldable pub new_session : String → Session
new_session session_id = record {
  session_id = session_id;
  sender = "";
  recipient = "";
  target_inbox = zero_inbox;
}

-- InboxLookup, RawMessageStore, ReceiptSink, Clock and ObjectKeyGenerator
pub record Edge (S : Type 0) : Type 0 where
  pub find_by_email_address : String → Exec S (Option Inbox)
  pub put : String → Bytes → Exec S Unit
  pub enqueue : DurableReceiptRequest → Exec S Unit
  pub now : Exec S Time
  pub next_key : Time → Inbox → Exec S String

abbrev pub receipt_of : Session → String → Time → DurableReceiptRequest
receipt_of session object_key received_at = record {
  smtp_transaction_id = session.session_id;
  organization_id = session.target_inbox.organization_id;
  agent_id = session.target_inbox.agent_id;
  inbox_id = session.target_inbox.id;
  envelope_sender = session.sender;
  envelope_recipients = session.recipient ∷ [];
  raw_message_object_key = object_key;
  received_at = received_at;
}

-- A command acts on the session and on what lies behind it: the state is the pair of both.
module _ {S : Type 0} (edge : Edge S) where
  unfoldable pub mail : String → Exec (Session × S) Unit
  mail from (session, s) =
      if from == ""
      then (err (failure "mail from is required"), (session, s))
      else (ok tt, (record session { sender = from }, s))

  abbrev pub accept_recipient :
      String → Session → Result (Option Inbox) × S → Result (Unit {0}) × (Session × S)
  accept_recipient to session (err e, s) = (err e, (session, s))
  accept_recipient to session (ok none, s) =
      (err (failure "recipient inbox not found"), (session, s))
  accept_recipient to session (ok (some inbox), s) =
      (ok tt, (record session { recipient = to; target_inbox = inbox }, s))

  unfoldable pub rcpt : String → Exec (Session × S) Unit
  rcpt to (session, s) =
      if to == ""
      then (err (failure "rcpt to is required"), (session, s))
      else accept_recipient to session (edge.find_by_email_address to s)

  -- What `Data` does once both checks have passed: the raw message is kept before the receipt.
  unfoldable pub keep_message : Session → Result Bytes → Exec S Unit
  keep_message session (err e) = fail e
  keep_message session (ok raw) = do
    received_at ← edge.now
    object_key ← edge.next_key received_at session.target_inbox
    edge.put object_key raw
    edge.enqueue (receipt_of session object_key received_at)

  -- The argument is what `io.ReadAll` makes of the reader.
  unfoldable pub receive_content : Result Bytes → Exec (Session × S) Unit
  unfolding keep_message
  receive_content read (session, s) =
      if session.sender == ""
      then (err (failure "mail from must be set before data"), (session, s))
      else if session.recipient == ""
      then (err (failure "at least one recipient must be accepted before data"), (session, s))
      else ((keep_message session read s).0, (session, (keep_message session read s).1))

  -- AdapterSession.Reset, which RSET calls.
  unfoldable pub reset : Session × S → Session × S
  reset state = state

module _ {S : Type 0} where
  abbrev pub save_first :
      Option (DurableReceiptRequest → Exec S Unit) → DurableReceiptRequest → Exec S Unit
  save_first none receipt = pure tt
  save_first (some save) receipt = save receipt

  -- ReceiptHandlerSink.Enqueue, with the recorder that may be nil.
  unfoldable pub enqueue :
      (StoredInboundMessage → Exec S HandleResult)
      → Option (DurableReceiptRequest → Exec S Unit)
      → DurableReceiptRequest
      → Exec S Unit
  unfolding stored_message
  enqueue handle recorder receipt = do
    save_first recorder receipt
    handle (stored_message receipt)
    pure tt
