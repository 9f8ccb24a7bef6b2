-- ===== src/Api/Lookups.antt =====
-- internal/api: the handlers that show one record: thread_handler.go, contact_handler.go,
-- suppression_handler.go, webhook_delivery_handler.go, inbound_receipt_handler.go and
-- bootstrap_read_handler.go, with the structs that they encode.
use agent_layer.Prelude.{String, List, ◌==◌, if◌then◌else◌}
use agent_layer.Prelude.Int.{ℤ}
use agent_layer.Prelude.Exec.{Exec}
use agent_layer.Domain.{Thread, Contact, SuppressedAddress, WebhookDelivery}
use agent_layer.Text.{Unicode, trim_space}
use agent_layer.Inbound.Receipt.{DurableReceiptRequest}
use agent_layer.Api.{Formats, Handler, Response, answer, write_lookup_error, format_response_time}
use agent_layer.Api.Paths.{
  thread_id_from_thread_path, contact_id_from_path, suppression_id_from_path,
  webhook_delivery_id_from_show_path,
}

pub record ThreadResponse : Type 0 where
  pub id : String
  pub organization_id : String
  pub agent_id : String
  pub inbox_id : String
  pub contact_id : String
  pub subject_normalized : String
  pub state : String
  pub last_inbound_id : String
  pub last_outbound_id : String

pub record ContactResponse : Type 0 where
  pub id : String
  pub organization_id : String
  pub email_address : String
  pub display_name : String

pub record SuppressionResponse : Type 0 where
  pub id : String
  pub organization_id : String
  pub email_address : String
  pub reason : String
  pub source : String
  pub created_at : String
  pub updated_at : String

pub record WebhookDeliveryResponse : Type 0 where
  pub id : String
  pub event_id : String
  pub event_type : String
  pub status : String
  pub attempt_count : ℤ
  pub response_code : ℤ
  pub next_attempt_at : String

pub record InboundReceiptResponse : Type 0 where
  pub smtp_transaction_id : String
  pub organization_id : String
  pub agent_id : String
  pub inbox_id : String
  pub envelope_sender : String
  pub envelope_recipients : List String
  pub raw_message_object_key : String
  pub received_at : String

-- bootstrapResponse has the fields of BootstrapResult.
pub record BootstrapResponse : Type 0 where
  pub organization_id : String
  pub agent_id : String
  pub inbox_id : String
  pub webhook_url : String
  pub inbox_address : String

unfoldable pub thread_response : Thread → ThreadResponse
thread_response thread = record {
  id = thread.id;
  organization_id = thread.organization_id;
  agent_id = thread.agent_id;
  inbox_id = thread.inbox_id;
  contact_id = thread.contact_id;
  subject_normalized = thread.subject_normalized;
  state = thread.state;
  last_inbound_id = thread.last_inbound_id;
  last_outbound_id = thread.last_outbound_id;
}

unfoldable pub contact_response : Contact → ContactResponse
contact_response contact = record {
  id = contact.id;
  organization_id = contact.organization_id;
  email_address = contact.email_address;
  display_name = contact.display_name;
}

unfoldable pub suppression_response : Formats → SuppressedAddress → SuppressionResponse
suppression_response formats suppressed = record {
  id = suppressed.id;
  organization_id = suppressed.organization_id;
  email_address = suppressed.email_address;
  reason = suppressed.reason;
  source = suppressed.source;
  created_at = format_response_time formats suppressed.created_at;
  updated_at = format_response_time formats suppressed.updated_at;
}

unfoldable pub webhook_delivery_response : Formats → WebhookDelivery → WebhookDeliveryResponse
webhook_delivery_response formats delivery = record {
  id = delivery.id;
  event_id = delivery.event_id;
  event_type = delivery.event_type;
  status = delivery.status;
  attempt_count = delivery.attempt_count;
  response_code = delivery.response_code;
  next_attempt_at = format_response_time formats delivery.next_attempt_at;
}

unfoldable pub inbound_receipt_response : Formats → DurableReceiptRequest → InboundReceiptResponse
inbound_receipt_response formats receipt = record {
  smtp_transaction_id = receipt.smtp_transaction_id;
  organization_id = receipt.organization_id;
  agent_id = receipt.agent_id;
  inbox_id = receipt.inbox_id;
  envelope_sender = receipt.envelope_sender;
  envelope_recipients = receipt.envelope_recipients;
  raw_message_object_key = receipt.raw_message_object_key;
  received_at = formats.http_time receipt.received_at;
}

module _ {S : Type 0} where
  unfoldable pub thread_handler : (String → Exec S Thread) → Handler S ThreadResponse
  thread_handler get_thread request s =
      let thread_id = thread_id_from_thread_path request.path in
      if thread_id == ""
      then (Response.refused 400 "thread id is required", s)
      else answer (get_thread thread_id)
          (write_lookup_error "thread not found" "failed to load thread")
          (λ thread. Response.encoded 200 (thread_response thread)) s

  unfoldable pub contact_handler : (String → Exec S Contact) → Handler S ContactResponse
  contact_handler get_contact request s =
      let contact_id = contact_id_from_path request.path in
      if contact_id == ""
      then (Response.refused 400 "contact id is required", s)
      else answer (get_contact contact_id)
          (write_lookup_error "contact not found" "failed to load contact")
          (λ contact. Response.encoded 200 (contact_response contact)) s

  unfoldable pub suppression_handler :
      Formats → (String → Exec S SuppressedAddress) → Handler S SuppressionResponse
  suppression_handler formats get_suppression request s =
      let suppression_id = suppression_id_from_path request.path in
      if suppression_id == ""
      then (Response.refused 400 "suppression id is required", s)
      else answer (get_suppression suppression_id)
          (write_lookup_error "suppression not found" "failed to load suppression")
          (λ suppressed. Response.encoded 200 (suppression_response formats suppressed)) s

  unfoldable pub webhook_delivery_handler :
      Formats → (String → Exec S WebhookDelivery) → Handler S WebhookDeliveryResponse
  webhook_delivery_handler formats get_delivery request s =
      let delivery_id = webhook_delivery_id_from_show_path request.path in
      if delivery_id == ""
      then (Response.refused 400 "delivery id is required", s)
      else answer (get_delivery delivery_id)
          (write_lookup_error "webhook delivery not found" "failed to load webhook delivery")
          (λ delivery. Response.encoded 200 (webhook_delivery_response formats delivery)) s

  unfoldable pub inbound_receipt_handler :
      Unicode → Formats → (String → Exec S DurableReceiptRequest) → Handler S InboundReceiptResponse
  inbound_receipt_handler unicode formats get_receipt request s =
      let object_key = trim_space unicode (request.query "object_key") in
      if object_key == ""
      then (Response.refused 400 "object_key is required", s)
      else answer (get_receipt object_key)
          (write_lookup_error "inbound receipt not found" "failed to load inbound receipt")
          (λ receipt. Response.encoded 200 (inbound_receipt_response formats receipt)) s

  unfoldable pub bootstrap_read_handler : Exec S BootstrapResponse → Handler S BootstrapResponse
  bootstrap_read_handler get_bootstrap request s =
      answer get_bootstrap (λ e. Response.refused 500 "failed to load bootstrap config")
        (λ result. Response.encoded 200 result) s
