-- ===== src/Inbound/Recorder.antt =====
-- internal/inbound/processor.go and recorder.go: what a stored message means, and how it is saved.
use agent_layer.Prelude.{String, Bool, Option}
use agent_layer.Prelude.Exec.{Exec, pure, ◌>>=◌}
use agent_layer.Domain.{Contact, Thread, Message, zero_message, message_direction_inbound}
use agent_layer.Core.{
  StoredInboundMessage, ParsedMessage, MessageParser, ContactResolver, ThreadResolver, Ambient,
  generated_id,
}

pub record ProcessResult : Type 0 where
  pub parsed_message : ParsedMessage
  pub contact : Contact
  pub thread : Thread
  pub thread_match_strategy : String
  pub thread_created : Bool

module _ {S : Type 0} (parser : MessageParser S) (contact_resolver : ContactResolver S)
    (thread_resolver : ThreadResolver S) where
  -- Processor.Process
  unfoldable pub process : StoredInboundMessage → Exec S ProcessResult
  process message = do
    parsed ← parser.parse message
    contact_result ← contact_resolver.resolve (record {
      organization_id = message.receipt.organization_id;
      parsed_message = parsed;
      received_at = message.receipt.received_at;
    })
    thread_result ← thread_resolver.resolve (record {
      organization_id = message.receipt.organization_id;
      agent_id = message.receipt.agent_id;
      inbox_id = message.receipt.inbox_id;
      contact_id = contact_result.contact.id;
      parsed_message = parsed;
      received_at = message.receipt.received_at;
    })
    pure (record {
      parsed_message = parsed;
      contact = contact_result.contact;
      thread = thread_result.thread;
      thread_match_strategy = thread_result.matched_by;
      thread_created = thread_result.created;
    })

-- The repositories of the recorder, which the code names ContactRepository, ThreadRepository and
-- MessageRepository.
pub record Repositories (S : Type 0) : Type 0 where
  pub upsert_by_email : Contact → Exec S Contact
  pub save : Thread → Exec S Thread
  pub create : Message → Exec S Message

pub record RecordResult : Type 0 where
  pub contact : Contact
  pub thread : Thread
  pub message : Message

-- newMessageID
unfoldable pub new_message_id : Option String → String
unfolding generated_id
new_message_id = generated_id "message-" "message-generated"

unfoldable pub inbound_message :
    String → StoredInboundMessage → ProcessResult → String → String → Message
inbound_message id stored processed thread_id contact_id = record zero_message {
  id = id;
  organization_id = stored.receipt.organization_id;
  thread_id = thread_id;
  inbox_id = stored.receipt.inbox_id;
  contact_id = contact_id;
  direction = message_direction_inbound;
  subject = processed.parsed_message.subject;
  subject_normalized = processed.parsed_message.subject_normalized;
  message_id_header = processed.parsed_message.message_id_header;
  in_reply_to = processed.parsed_message.in_reply_to;
  references = processed.parsed_message.references;
  text_body = processed.parsed_message.text_body;
  html_body = processed.parsed_message.html_body;
  raw_mime_object_key = stored.receipt.raw_message_object_key;
  created_at = stored.receipt.received_at;
}

-- The thread after its newest message.
unfoldable pub touched : StoredInboundMessage → Message → Thread → Thread
touched stored message thread = record thread {
  last_inbound_id = message.id;
  last_activity_at = stored.receipt.received_at;
  updated_at = stored.receipt.received_at;
}

module _ {S : Type 0} (repositories : Repositories S) (ambient : Ambient S) where
  -- Recorder.Record. The thread is saved twice: before the message, which carries its id, and after.
  unfoldable pub record_inbound : StoredInboundMessage → ProcessResult → Exec S RecordResult
  unfolding inbound_message touched new_message_id
  record_inbound stored processed = do
    contact ← repositories.upsert_by_email processed.contact
    thread ← repositories.save processed.thread
    hex ← ambient.random_hex
    message ←
        repositories.create
          (inbound_message (new_message_id hex) stored processed thread.id contact.id)
    thread' ← repositories.save (touched stored message thread)
    pure (record { contact = contact; thread = thread'; message = message })
