-- ===== src/Outbound/Recorders.antt =====
-- internal/outbound/recorder.go, sender.go, status_recorder.go and delivery_recorder.go: the steps
-- that write a reply's state.
use agent_layer.Prelude.{String, ◌==◌, ◌||◌, Option, none, some, if◌then◌else◌}
use agent_layer.Prelude.Exec.{Exec, pure, fail, ◌>>=◌, ◌>>◌, failure}
use agent_layer.Domain.{
  Time, Organization, Agent, Inbox, Thread, Message, Contact, Bytes, zero_message,
  message_direction_outbound,
}
use agent_layer.Core.{Ambient, SendResult, OutboundSendRequest, generated_id}
use agent_layer.Outbound.Assembler.{ReplyMetadata}

abbrev pub delivery_state_queued : String
delivery_state_queued = "queued"

abbrev pub delivery_state_sent : String
delivery_state_sent = "sent"

abbrev pub delivery_state_delivered : String
delivery_state_delivered = "delivered"

abbrev pub delivery_state_hard_bounce : String
delivery_state_hard_bounce = "hard_bounce"

abbrev pub delivery_state_soft_bounce : String
delivery_state_soft_bounce = "soft_bounce"

abbrev pub delivery_state_complaint : String
delivery_state_complaint = "complaint"

pub record RecordQueuedReplyInput : Type 0 where
  pub organization : Organization
  pub agent : Agent
  pub inbox : Inbox
  pub thread : Thread
  pub contact : Contact
  pub metadata : ReplyMetadata
  pub raw_mime : String
  pub object_key : String
  pub body_text : String
  pub queued_at : Time

pub record RecordQueuedReplyResult : Type 0 where
  pub thread : Thread
  pub message : Message

-- The message repository, and the thread repository and raw store, which may be nil. `[]byte(text)`
-- is the UTF-8 of the text.
pub record Recorder (S : Type 0) : Type 0 where
  pub create : Message → Exec S Message
  pub threads : Option (Thread → Exec S Thread)
  pub raw : Option (String → Bytes → Exec S Unit)
  pub utf8 : String → Bytes

-- newOutboundMessageID
unfoldable pub new_outbound_message_id : Option String → String
unfolding generated_id
new_outbound_message_id = generated_id "message-" "outbound-message-generated"

unfoldable pub queued_message : String → RecordQueuedReplyInput → Message
queued_message id input = record zero_message {
  id = id;
  organization_id = input.organization.id;
  thread_id = input.thread.id;
  inbox_id = input.inbox.id;
  contact_id = input.contact.id;
  direction = message_direction_outbound;
  subject = input.metadata.subject;
  message_id_header = input.metadata.message_id_header;
  in_reply_to = input.metadata.in_reply_to;
  references = input.metadata.references;
  text_body = input.body_text;
  raw_mime_object_key = input.object_key;
  delivery_state = delivery_state_queued;
  created_at = input.queued_at;
}

module _ {S : Type 0} where
  unfoldable pub keep_raw : Recorder S → RecordQueuedReplyInput → Exec S Unit
  keep_raw recorder input = elim recorder.raw [
    | none ↦ pure tt
    | some put ↦
        if input.object_key == ""
        then fail (failure "object key is required")
        else put input.object_key (recorder.utf8 input.raw_mime)
  ]

  unfoldable pub touch_thread : Recorder S → RecordQueuedReplyInput → Message → Exec S Thread
  touch_thread recorder input message = elim recorder.threads [
    | none ↦ pure input.thread
    | some save ↦ save (record input.thread {
      last_outbound_id = message.id;
      last_activity_at = input.queued_at;
      updated_at = input.queued_at;
    })
  ]

  unfoldable pub record_queued_reply :
      Recorder S → Ambient S → RecordQueuedReplyInput → Exec S RecordQueuedReplyResult
  unfolding keep_raw touch_thread queued_message new_outbound_message_id
  record_queued_reply recorder ambient input = do
    keep_raw recorder input
    hex ← ambient.random_hex
    message ← recorder.create (queued_message (new_outbound_message_id hex) input)
    thread ← touch_thread recorder input message
    pure (record { thread = thread; message = message })

pub record SendQueuedReplyInput : Type 0 where
  pub organization : Organization
  pub agent : Agent
  pub inbox : Inbox
  pub thread : Thread
  pub contact : Contact
  pub message : Message
  pub raw_mime : Bytes

-- Sender.SendQueuedReply
unfoldable pub send_queued_reply :
    {S : Type 0}
    → (OutboundSendRequest → Exec S SendResult)
    → SendQueuedReplyInput
    → Exec S SendResult
send_queued_reply send input = send (record {
  organization = input.organization;
  agent = input.agent;
  inbox = input.inbox;
  thread = input.thread;
  contact = input.contact;
  message = input.message;
  raw_mime = input.raw_mime;
})

unfoldable pub sent_message : Message → SendResult → Message
sent_message message result = record message {
  delivery_state = delivery_state_sent;
  provider_message_id = result.provider_message_id;
  sent_at = result.accepted_at;
}

-- StatusRecorder.RecordSent
unfoldable pub record_sent :
    {S : Type 0} → (Message → Exec S Message) → Message → SendResult → Exec S Message
unfolding sent_message
record_sent save message result = save (sent_message message result)

unfoldable pub with_status : Message → String → Time → Message
with_status message status occurred_at =
    if status == delivery_state_delivered
    then record message { delivery_state = status; delivered_at = occurred_at }
    else if status == delivery_state_hard_bounce
        || status == delivery_state_soft_bounce
        || status == delivery_state_complaint
    then record message { delivery_state = status; bounced_at = occurred_at }
    else record message { delivery_state = status }

-- DeliveryRecorder.RecordStatus
unfoldable pub record_status :
    {S : Type 0} → (Message → Exec S Message) → Message → String → Time → Exec S Message
unfolding with_status
record_status save message status occurred_at = save (with_status message status occurred_at)
