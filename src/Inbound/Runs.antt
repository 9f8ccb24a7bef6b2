-- ===== src/Inbound/Runs.antt =====
-- How the steps of internal/inbound/processor.go and service.go follow one another, for any
-- collaborators: each lemma joins the answers of the steps.
use agent_layer.Prelude.{String, none, some, ◌≡◌}
use agent_layer.Prelude.Exec.{ok, err, Error}
use agent_layer.Domain.{Message}
use agent_layer.Core.{
  StoredInboundMessage, ParsedMessage, MessageParser, ContactResolver, ThreadResolver,
  ContactResolutionInput, ContactResolutionResult, ThreadResolutionInput, ThreadResolutionResult,
}
use agent_layer.Inbound.Recorder.{ProcessResult, process}
use agent_layer.Inbound.Service.{
  Service, DuplicateLookup, find_duplicate, report_duplicate, record_new, handle_stored_message,
}

abbrev pub contact_input : StoredInboundMessage → ParsedMessage → ContactResolutionInput
contact_input message parsed = record {
  organization_id = message.receipt.organization_id;
  parsed_message = parsed;
  received_at = message.receipt.received_at;
}

abbrev pub thread_input : StoredInboundMessage → ParsedMessage → String → ThreadResolutionInput
thread_input message parsed contact_id = record {
  organization_id = message.receipt.organization_id;
  agent_id = message.receipt.agent_id;
  inbox_id = message.receipt.inbox_id;
  contact_id = contact_id;
  parsed_message = parsed;
  received_at = message.receipt.received_at;
}

abbrev pub process_result :
    ParsedMessage → ContactResolutionResult → ThreadResolutionResult → ProcessResult
process_result p c t = record {
  parsed_message = p;
  contact = c.contact;
  thread = t.thread;
  thread_match_strategy = t.matched_by;
  thread_created = t.created;
}

module _ {S : Type 0} (parser : MessageParser S) (contact_resolver : ContactResolver S)
    (thread_resolver : ThreadResolver S) (stored : StoredInboundMessage) (s : S) where
  pub process-run :
      (p : ParsedMessage) (c : ContactResolutionResult) (t : ThreadResolutionResult) (s₁ s₂ s₃ : S)
      → parser.parse stored s ≡ (ok p, s₁)
      → contact_resolver.resolve (contact_input stored p) s₁ ≡ (ok c, s₂)
      → thread_resolver.resolve (thread_input stored p c.contact.id) s₂ ≡ (ok t, s₃)
      → process parser contact_resolver thread_resolver stored s ≡ (ok (process_result p c t), s₃)
  unfolding process
  process-run p c t s₁ s₂ s₃ e₁ e₂ e₃ = rw (e₁, e₂, e₃)

  pub process-fails :
      (x : Error) (s₁ : S)
      → parser.parse stored s ≡ (err x, s₁)
      → process parser contact_resolver thread_resolver stored s ≡ (err x, s₁)
  unfolding process
  process-fails x s₁ e = rw e

module _ {S : Type 0} (service : Service S) (stored : StoredInboundMessage) (s : S) where
  pub handle-fails :
      (x : Error) (s₁ : S)
      → service.process stored s ≡ (err x, s₁)
      → handle_stored_message service stored s ≡ (err x, s₁)
  unfolding handle_stored_message
  handle-fails x s₁ e = rw e

  module _ (p : ProcessResult) (s₁ s₂ : S) (e : service.process stored s ≡ (ok p, s₁)) where
    pub handle-duplicate :
        (d : DuplicateLookup S) (m : Message)
        → find_duplicate service.duplicates stored.receipt.inbox_id
            p.parsed_message.message_id_header s₁
          ≡ (ok (some (d, m)), s₂)
        → handle_stored_message service stored s ≡ report_duplicate d p m s₂
    unfolding handle_stored_message
    handle-duplicate d m f = rw (e, f)

    pub handle-new :
        find_duplicate service.duplicates stored.receipt.inbox_id p.parsed_message.message_id_header
            s₁
          ≡ (ok none, s₂)
        → handle_stored_message service stored s ≡ record_new service stored p s₂
    unfolding handle_stored_message
    handle-new f = rw (e, f)
