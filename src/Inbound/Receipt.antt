-- ===== src/Inbound/Receipt.antt =====
-- internal/inbound/receipt.go: the receipt that is kept of every accepted message.
use agent_layer.Prelude.{
  String, Bool, true, false, ◌==◌, Option, none, some, List, [], ◌∷◌, if◌then◌else◌,
}
use agent_layer.Domain.{Time, is_zero}
use agent_layer.Core.{StoredInboundMessage}
use agent_layer.Prelude.Exec.{Error, failure}
use agent_layer.Prelude.Int.{pos}

pub record DurableReceiptRequest : Type 0 where
  pub smtp_transaction_id : String
  pub organization_id : String
  pub agent_id : String
  pub inbox_id : String
  pub envelope_sender : String
  pub envelope_recipients : List String
  pub raw_message_object_key : String
  pub received_at : Time

abbrev pub is_empty {ℓ} : {A : Type ℓ} → List A → Bool
is_empty [] = true
is_empty (_ ∷ _) = false

-- Validate: the first field that is missing, in the order of the fields.
unfoldable pub validate : DurableReceiptRequest → Option Error
validate r =
    if r.smtp_transaction_id == ""
    then some (failure "smtp transaction id is required")
    else if r.organization_id == ""
    then some (failure "organization id is required")
    else if r.agent_id == ""
    then some (failure "agent id is required")
    else if r.inbox_id == ""
    then some (failure "inbox id is required")
    else if r.envelope_sender == ""
    then some (failure "envelope sender is required")
    else if is_empty r.envelope_recipients
    then some (failure "at least one envelope recipient is required")
    else if r.raw_message_object_key == ""
    then some (failure "raw message object key is required")
    else if is_zero r.received_at
    then some (failure "received at is required")
    else none

-- The message that the receipt stands for, as the receipt sink and the reprocessing build it.
unfoldable pub stored_message : DurableReceiptRequest → StoredInboundMessage
stored_message r = record {
  receipt = record {
    smtp_transaction_id = r.smtp_transaction_id;
    organization_id = r.organization_id;
    agent_id = r.agent_id;
    inbox_id = r.inbox_id;
    envelope_sender = r.envelope_sender;
    envelope_recipients = r.envelope_recipients;
    raw_message_object_key = r.raw_message_object_key;
    received_at = r.received_at;
  };
  raw_size_bytes = pos 0;
}
