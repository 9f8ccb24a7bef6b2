-- ===== src/Inbound/Service.antt =====
-- internal/inbound/service.go: a message that is already stored is reported as a duplicate, and any
-- other is recorded.
use agent_layer.Prelude.{String, Bool, true, false, ◌==◌, Option, none, some, if◌then◌else◌}
use agent_layer.Prelude.Exec.{Exec, pure, ◌>>=◌}
use agent_layer.Domain.{Contact, Thread, Message}
use agent_layer.Core.{StoredInboundMessage, ParsedMessage}
use agent_layer.Inbound.Recorder.{ProcessResult, RecordResult}

pub record DuplicateLookup (S : Type 0) : Type 0 where
  pub find_inbound_by_header : String → String → Exec S (Option Message)
  pub get_by_id : String → Exec S Thread
  pub get_contact_by_id : String → Exec S Contact

pub record HandleResult : Type 0 where
  pub parsed_message : ParsedMessage
  pub contact : Contact
  pub thread : Thread
  pub message : Message
  pub thread_match_strategy : String
  pub thread_created : Bool
  pub duplicate : Bool

-- ProcessorInterface, RecorderInterface and the duplicate lookup, which may be nil.
pub record Service (S : Type 0) : Type 0 where
  pub process : StoredInboundMessage → Exec S ProcessResult
  pub record_inbound : StoredInboundMessage → ProcessResult → Exec S RecordResult
  pub duplicates : Option (DuplicateLookup S)

module _ {S : Type 0} where
  -- The answer for a message that is stored already.
  unfoldable pub report_duplicate :
      DuplicateLookup S → ProcessResult → Message → Exec S HandleResult
  report_duplicate duplicates processed existing = do
    thread ← duplicates.get_by_id existing.thread_id
    contact ← duplicates.get_contact_by_id existing.contact_id
    pure (record {
      parsed_message = processed.parsed_message;
      contact = contact;
      thread = thread;
      message = existing;
      thread_match_strategy = "duplicate";
      thread_created = false;
      duplicate = true;
    })

  -- `if s.duplicates != nil && header != "" { … }`
  unfoldable pub find_duplicate :
      Option (DuplicateLookup S) → String → String → Exec S (Option (DuplicateLookup S × Message))
  find_duplicate none inbox_id header = pure none
  find_duplicate (some duplicates) inbox_id header = if header == "" then pure none else do
    found ← duplicates.find_inbound_by_header inbox_id header
    pure (elim found [ some existing ↦ some (duplicates, existing) | none ↦ none ])

  unfoldable pub record_new : Service S → StoredInboundMessage → ProcessResult → Exec S HandleResult
  record_new service stored processed = do
    recorded ← service.record_inbound stored processed
    pure (record {
      parsed_message = processed.parsed_message;
      contact = recorded.contact;
      thread = recorded.thread;
      message = recorded.message;
      thread_match_strategy = processed.thread_match_strategy;
      thread_created = processed.thread_created;
      duplicate = false;
    })

  unfoldable pub handle_stored_message : Service S → StoredInboundMessage → Exec S HandleResult
  unfolding report_duplicate find_duplicate record_new
  handle_stored_message service stored = do
    processed ← service.process stored
    found ←
        find_duplicate service.duplicates stored.receipt.inbox_id
          processed.parsed_message.message_id_header
    elim found [
      | some (duplicates, existing) ↦ report_duplicate duplicates processed existing
      | none ↦ record_new service stored processed
    ]
