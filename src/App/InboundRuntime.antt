-- ===== src/App/InboundRuntime.antt =====
-- internal/app/inbound_runtime_service.go and inbound_reprocess_service.go: an inbound message is
-- handled, and if it is new the agent's webhook is called.
use agent_layer.Prelude.{
  String, str_append, ◌==◌, ◌||◌, not, Option, none, some, List, if◌then◌else◌,
}
use agent_layer.Prelude.Int.{ℤ, pos, leb_ℤ}
use agent_layer.Prelude.Exec.{Exec, pure, ◌>>=◌, ◌>>◌}
use agent_layer.Domain.{
  Time, Organization, Agent, Inbox, Message, ContactMemoryEntry, WebhookDelivery, zero_delivery,
  agent_status_active,
}
use agent_layer.Core.{StoredInboundMessage, Ambient}
use agent_layer.Inbound.Receipt.{DurableReceiptRequest, stored_message}
use agent_layer.Inbound.Service.{HandleResult}
use agent_layer.Webhooks.Delivery.{DeliverMessageReceivedInput, DeliveryResult}

pub record InboundRuntimeConfig : Type 0 where
  pub organization : Organization
  pub agent : Agent
  pub inbox : Inbox
  pub webhook_url : String
  pub webhook_secret : String
  pub history_limit : ℤ
  pub memory_limit : ℤ

-- The collaborators of the service; the webhook service may be nil.
pub record Service (S : Type 0) : Type 0 where
  pub handle : StoredInboundMessage → Exec S HandleResult
  pub list_by_thread_id : String → ℤ → Exec S (List Message)
  pub list_memory_by_contact_id : String → ℤ → Exec S (List ContactMemoryEntry)
  pub webhooks : Option (DeliverMessageReceivedInput → Exec S DeliveryResult)
  pub ambient : Ambient S
  pub config : InboundRuntimeConfig

-- The limits of NewInboundRuntimeService.
unfoldable pub with_limits : InboundRuntimeConfig → InboundRuntimeConfig
with_limits config = record config {
  history_limit = if leb_ℤ config.history_limit (pos 0) then pos 20 else config.history_limit;
  memory_limit = if leb_ℤ config.memory_limit (pos 0) then pos 10 else config.memory_limit;
}

-- randomHexID
abbrev pub random_hex_id : Option String → String
random_hex_id none = "generated"
random_hex_id (some hex) = hex

unfoldable pub new_message_received_delivery :
    Option String → Option String → String → String → Time → WebhookDelivery
new_message_received_delivery delivery_hex event_hex organization_id agent_id now =
    record zero_delivery {
      id = str_append "delivery-" (random_hex_id delivery_hex);
      organization_id = organization_id;
      agent_id = agent_id;
      event_id = str_append "event-" (random_hex_id event_hex);
      event_type = "message.received";
      status = "pending";
      created_at = now;
      updated_at = now;
    }

module _ {S : Type 0} where
  -- The call of the webhook for a message that is new.
  unfoldable pub notify :
      Service S
      → (DeliverMessageReceivedInput → Exec S DeliveryResult)
      → HandleResult
      → Exec S HandleResult
  unfolding new_message_received_delivery
  notify service deliver handled = do
    thread_messages ← service.list_by_thread_id handled.thread.id service.config.history_limit
    memory ← service.list_memory_by_contact_id handled.contact.id service.config.memory_limit
    now ← service.ambient.now
    delivery_hex ← service.ambient.random_hex
    event_hex ← service.ambient.random_hex
    deliver (record {
      url = service.config.webhook_url;
      webhook_secret = service.config.webhook_secret;
      build_input = record {
        organization = service.config.organization;
        agent = service.config.agent;
        inbox = service.config.inbox;
        delivery =
            new_message_received_delivery delivery_hex event_hex service.config.organization.id
              service.config.agent.id now;
        handled = handled;
        thread_messages = thread_messages;
        memory = memory;
      };
    })
    pure handled

  -- `s.webhooks == nil` is the third of the conditions that skip the call.
  unfoldable pub after_handled : Service S → HandleResult → Exec S HandleResult
  unfolding notify
  after_handled service handled =
      if handled.duplicate
      then pure handled
      else if service.config.webhook_url == ""
          || not (service.config.agent.status == agent_status_active)
      then pure handled
      else elim service.webhooks [
        | none ↦ pure handled
        | some deliver ↦ notify service deliver handled
      ]

  -- InboundRuntimeService.HandleStoredMessage
  unfoldable pub handle_stored_message : Service S → StoredInboundMessage → Exec S HandleResult
  unfolding after_handled
  handle_stored_message service stored = do
    handled ← service.handle stored
    after_handled service handled

  -- InboundReprocessService.ReprocessByObjectKey
  unfoldable pub reprocess_by_object_key :
      (String → Exec S DurableReceiptRequest)
      → (StoredInboundMessage → Exec S HandleResult)
      → String
      → Exec S HandleResult
  unfolding stored_message
  reprocess_by_object_key get_receipt handle object_key = do
    receipt ← get_receipt object_key
    handle (stored_message receipt)
