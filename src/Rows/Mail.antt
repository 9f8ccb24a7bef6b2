-- ===== src/Rows/Mail.antt =====
-- internal/store/models.go and convert.go: the rows of threads, messages and receipts.
use agent_layer.Prelude.{String, List}
use agent_layer.Domain.{Time, Thread, Message}
use agent_layer.Inbound.Receipt.{DurableReceiptRequest}

pub record ThreadModel : Type 0 where
  pub id : String
  pub organization_id : String
  pub agent_id : String
  pub inbox_id : String
  pub contact_id : String
  pub subject_normalized : String
  pub state : String
  pub last_inbound_id : String
  pub last_outbound_id : String
  pub last_activity_at : Time
  pub created_at : Time
  pub updated_at : Time

pub record MessageModel : Type 0 where
  pub id : String
  pub organization_id : String
  pub thread_id : String
  pub inbox_id : String
  pub contact_id : String
  pub direction : String
  pub subject : String
  pub subject_normalized : String
  pub message_id_header : String
  pub in_reply_to : String
  pub references : List String
  pub text_body : String
  pub html_body : String
  pub raw_mime_object_key : String
  pub provider_message_id : String
  pub delivery_state : String
  pub sent_at : Time
  pub delivered_at : Time
  pub bounced_at : Time
  pub created_at : Time

pub record InboundReceiptModel : Type 0 where
  pub raw_message_object_key : String
  pub smtp_transaction_id : String
  pub organization_id : String
  pub agent_id : String
  pub inbox_id : String
  pub envelope_sender : String
  pub envelope_recipients : List String
  pub received_at : Time
  pub created_at : Time

unfoldable pub thread_to_model : Thread → ThreadModel
thread_to_model thread = record {
  id = thread.id;
  organization_id = thread.organization_id;
  agent_id = thread.agent_id;
  inbox_id = thread.inbox_id;
  contact_id = thread.contact_id;
  subject_normalized = thread.subject_normalized;
  state = thread.state;
  last_inbound_id = thread.last_inbound_id;
  last_outbound_id = thread.last_outbound_id;
  last_activity_at = thread.last_activity_at;
  created_at = thread.created_at;
  updated_at = thread.updated_at;
}

unfoldable pub thread_from_model : ThreadModel → Thread
thread_from_model row = record {
  id = row.id;
  organization_id = row.organization_id;
  agent_id = row.agent_id;
  inbox_id = row.inbox_id;
  contact_id = row.contact_id;
  subject_normalized = row.subject_normalized;
  state = row.state;
  last_inbound_id = row.last_inbound_id;
  last_outbound_id = row.last_outbound_id;
  last_activity_at = row.last_activity_at;
  created_at = row.created_at;
  updated_at = row.updated_at;
}

unfoldable pub message_to_model : Message → MessageModel
message_to_model message = record {
  id = message.id;
  organization_id = message.organization_id;
  thread_id = message.thread_id;
  inbox_id = message.inbox_id;
  contact_id = message.contact_id;
  direction = message.direction;
  subject = message.subject;
  subject_normalized = message.subject_normalized;
  message_id_header = message.message_id_header;
  in_reply_to = message.in_reply_to;
  references = message.references;
  text_body = message.text_body;
  html_body = message.html_body;
  raw_mime_object_key = message.raw_mime_object_key;
  provider_message_id = message.provider_message_id;
  delivery_state = message.delivery_state;
  sent_at = message.sent_at;
  delivered_at = message.delivered_at;
  bounced_at = message.bounced_at;
  created_at = message.created_at;
}

unfoldable pub message_from_model : MessageModel → Message
message_from_model row = record {
  id = row.id;
  organization_id = row.organization_id;
  thread_id = row.thread_id;
  inbox_id = row.inbox_id;
  contact_id = row.contact_id;
  direction = row.direction;
  subject = row.subject;
  subject_normalized = row.subject_normalized;
  message_id_header = row.message_id_header;
  in_reply_to = row.in_reply_to;
  references = row.references;
  text_body = row.text_body;
  html_body = row.html_body;
  raw_mime_object_key = row.raw_mime_object_key;
  provider_message_id = row.provider_message_id;
  delivery_state = row.delivery_state;
  sent_at = row.sent_at;
  delivered_at = row.delivered_at;
  bounced_at = row.bounced_at;
  created_at = row.created_at;
}

unfoldable pub inbound_receipt_to_model : DurableReceiptRequest → InboundReceiptModel
inbound_receipt_to_model receipt = record {
  raw_message_object_key = receipt.raw_message_object_key;
  smtp_transaction_id = receipt.smtp_transaction_id;
  organization_id = receipt.organization_id;
  agent_id = receipt.agent_id;
  inbox_id = receipt.inbox_id;
  envelope_sender = receipt.envelope_sender;
  envelope_recipients = receipt.envelope_recipients;
  received_at = receipt.received_at;
  created_at = receipt.received_at;
}

unfoldable pub inbound_receipt_from_model : InboundReceiptModel → DurableReceiptRequest
inbound_receipt_from_model row = record {
  smtp_transaction_id = row.smtp_transaction_id;
  organization_id = row.organization_id;
  agent_id = row.agent_id;
  inbox_id = row.inbox_id;
  envelope_sender = row.envelope_sender;
  envelope_recipients = row.envelope_recipients;
  raw_message_object_key = row.raw_message_object_key;
  received_at = row.received_at;
}
