-- ===== src/Core.antt =====
-- internal/core/interfaces.go: the records that cross the boundaries between components, and the
-- interfaces that a component takes as a record of operations over an arbitrary state `S`.
use agent_layer.Prelude.{String, str_append, Bool, List, Option, none, some}
use agent_layer.Prelude.Int.{ℤ}
use agent_layer.Prelude.Dict.{Dict}
use agent_layer.Prelude.Exec.{Exec}
use agent_layer.Domain.{
  Time, Bytes, Organization, Agent, Inbox, Contact, Thread, Message, WebhookDelivery,
}

pub record InboundReceipt : Type 0 where
  pub smtp_transaction_id : String
  pub organization_id : String
  pub agent_id : String
  pub inbox_id : String
  pub envelope_sender : String
  pub envelope_recipients : List String
  pub raw_message_object_key : String
  pub received_at : Time

pub record StoredInboundMessage : Type 0 where
  pub receipt : InboundReceipt
  pub raw_size_bytes : ℤ

pub record ParsedAddress : Type 0 where
  pub email : String
  pub display_name : String

pub record ParsedAttachment : Type 0 where
  pub file_name : String
  pub content_type : String
  pub object_key : String
  pub size_bytes : ℤ
  pub content_id : String
  pub content_disposition : String

pub record ParsedMessage : Type 0 where
  pub message_id_header : String
  pub in_reply_to : String
  pub references : List String
  pub subject : String
  pub subject_normalized : String
  pub text_body : String
  pub html_body : String
  pub from : ParsedAddress
  pub reply_to : List ParsedAddress
  pub to : List ParsedAddress
  pub cc : List ParsedAddress
  pub attachments : List ParsedAttachment
  pub raw_headers : Dict (List String)

pub record ThreadResolutionInput : Type 0 where
  pub organization_id : String
  pub agent_id : String
  pub inbox_id : String
  pub contact_id : String
  pub parsed_message : ParsedMessage
  pub received_at : Time

pub record ThreadResolutionResult : Type 0 where
  pub thread : Thread
  pub matched_by : String
  pub created : Bool

pub record ContactResolutionInput : Type 0 where
  pub organization_id : String
  pub parsed_message : ParsedMessage
  pub received_at : Time

pub record ContactResolutionResult : Type 0 where
  pub contact : Contact
  pub created : Bool

pub record WebhookDispatchRequest : Type 0 where
  pub delivery : WebhookDelivery
  pub payload : Bytes
  pub headers : Dict String

pub record WebhookDispatchResult : Type 0 where
  pub status_code : ℤ
  pub body : Bytes
  pub delivered_at : Time

pub record OutboundSendRequest : Type 0 where
  pub organization : Organization
  pub agent : Agent
  pub inbox : Inbox
  pub thread : Thread
  pub contact : Contact
  pub message : Message
  pub raw_mime : Bytes

pub record SendResult : Type 0 where
  pub provider_message_id : String
  pub accepted_at : Time

pub record MessageParser (S : Type 0) : Type 0 where
  pub parse : StoredInboundMessage → Exec S ParsedMessage

pub record ThreadResolver (S : Type 0) : Type 0 where
  pub resolve : ThreadResolutionInput → Exec S ThreadResolutionResult

pub record ContactResolver (S : Type 0) : Type 0 where
  pub resolve : ContactResolutionInput → Exec S ContactResolutionResult

-- What a component draws from its process: 8 random bytes in hex, or none if `rand.Read` fails, and
-- the present time.
pub record Ambient (S : Type 0) : Type 0 where
  pub random_hex : Exec S (Option String)
  pub now : Exec S Time

-- The identifier generators differ in their prefix and in what they return without random bytes.
unfoldable pub generated_id : String → String → Option String → String
generated_id prefix fallback none = fallback
generated_id prefix fallback (some hex) = str_append prefix hex
