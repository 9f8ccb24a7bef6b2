-- ===== src/Outbound/Service.antt =====
-- internal/outbound/service.go: SendReply, from the suppression check to the status `sent`.
use agent_layer.Prelude.{String, Bool, Option, none, some, if◌then◌else◌}
use agent_layer.Prelude.Exec.{Exec, Result, pure, fail, ◌>>=◌, ◌>>◌, recipient_suppressed}
use agent_layer.Domain.{Time, Organization, Agent, Inbox, Thread, Message, Contact, Bytes}
use agent_layer.Core.{SendResult}
use agent_layer.Outbound.Assembler.{ReplyAssemblyInput, ReplyMetadata}
use agent_layer.Outbound.Recorders.{
  RecordQueuedReplyInput, RecordQueuedReplyResult, SendQueuedReplyInput,
}

pub record SendReplyInput : Type 0 where
  pub organization : Organization
  pub agent : Agent
  pub inbox : Inbox
  pub thread : Thread
  pub reply_to_message : Message
  pub contact : Contact
  pub body_text : String
  pub object_key : String
  pub idempotency_key : String

pub record SendReplyResult : Type 0 where
  pub thread : Thread
  pub message : Message
  pub send_result : SendResult

-- The collaborators of the service; the suppression checker may be nil.
pub record Service (S : Type 0) : Type 0 where
  pub assemble_reply : ReplyAssemblyInput → Result (String × ReplyMetadata)
  pub record_queued_reply : RecordQueuedReplyInput → Exec S RecordQueuedReplyResult
  pub send_queued_reply : SendQueuedReplyInput → Exec S SendResult
  pub record_sent : Message → SendResult → Exec S Message
  pub suppressions : Option (String → String → Exec S Bool)
  pub now : Exec S Time
  pub utf8 : String → Bytes

abbrev pub assembly_input : SendReplyInput → ReplyAssemblyInput
assembly_input input = record {
  organization = input.organization;
  agent = input.agent;
  inbox = input.inbox;
  thread = input.thread;
  reply_to_message = input.reply_to_message;
  contact = input.contact;
  body_text = input.body_text;
}

module _ {S : Type 0} where
  unfoldable pub check_suppressed : Service S → SendReplyInput → Exec S Unit
  check_suppressed service input = elim service.suppressions [
    | none ↦ pure tt
    | some is_suppressed ↦ do
      suppressed ← is_suppressed input.organization.id input.contact.email_address
      if suppressed then fail recipient_suppressed else pure tt
  ]

  -- A call that has no state, and may fail.
  abbrev pub lift : {A : Type 0} → Result A → Exec S A
  lift r s = (r, s)

  -- From the queued message on: the provider's call and the new status.
  unfoldable pub deliver_queued :
      Service S → SendReplyInput → String → RecordQueuedReplyResult → Exec S SendReplyResult
  deliver_queued service input raw_mime queued = do
    send_result ← service.send_queued_reply (record {
      organization = input.organization;
      agent = input.agent;
      inbox = input.inbox;
      thread = queued.thread;
      contact = input.contact;
      message = queued.message;
      raw_mime = service.utf8 raw_mime;
    })
    message ← service.record_sent queued.message send_result
    pure (record { thread = queued.thread; message = message; send_result = send_result })

  unfoldable pub queue_reply :
      Service S → SendReplyInput → String × ReplyMetadata → Exec S RecordQueuedReplyResult
  queue_reply service input (raw_mime, metadata) = do
    queued_at ← service.now
    service.record_queued_reply (record {
      organization = input.organization;
      agent = input.agent;
      inbox = input.inbox;
      thread = input.thread;
      contact = input.contact;
      metadata = metadata;
      raw_mime = raw_mime;
      object_key = input.object_key;
      body_text = input.body_text;
      queued_at = queued_at;
    })

  unfoldable pub send_reply : Service S → SendReplyInput → Exec S SendReplyResult
  unfolding check_suppressed queue_reply deliver_queued
  send_reply service input = do
    check_suppressed service input
    assembled ← lift (service.assemble_reply (assembly_input input))
    queued ← queue_reply service input assembled
    deliver_queued service input assembled.0 queued
