-- ===== src/Webhooks/Delivery.antt =====
-- internal/webhooks/message_received.go, service.go, dispatcher.go, delivery_service.go and
-- replay_service.go: the request of a received message, its first attempt, and a replay.
use agent_layer.Prelude.{String, ◌==◌, ◌||◌, List, [], ◌∷◌, map, if◌then◌else◌}
use agent_layer.Prelude.Exec.{Exec, Result, pure, fail, ◌>>=◌, replay_request_unavailable}
use agent_layer.Prelude.Int.{ℤ}
use agent_layer.Prelude.Dict.{Dict}
use agent_layer.Domain.{
  Time, Bytes, Organization, Agent, Inbox, Message, ContactMemoryEntry, WebhookDelivery,
}
use agent_layer.Core.{WebhookDispatchRequest, WebhookDispatchResult}
use agent_layer.Inbound.Receipt.{is_empty}
use agent_layer.Inbound.Service.{HandleResult}

pub record BuildMessageReceivedInput : Type 0 where
  pub organization : Organization
  pub agent : Agent
  pub inbox : Inbox
  pub delivery : WebhookDelivery
  pub handled : HandleResult
  pub thread_messages : List Message
  pub memory : List ContactMemoryEntry

pub record PayloadOrganization : Type 0 where
  pub id : String
  pub name : String

pub record PayloadAgent : Type 0 where
  pub id : String
  pub name : String

pub record PayloadInbox : Type 0 where
  pub id : String
  pub email_address : String

pub record PayloadMessage : Type 0 where
  pub id : String
  pub thread_id : String
  pub direction : String
  pub subject : String
  pub text_body : String
  pub message_id_header : String
  pub created_at : String

pub record PayloadThread : Type 0 where
  pub id : String
  pub subject_normalized : String
  pub state : String

pub record PayloadContact : Type 0 where
  pub id : String
  pub email_address : String
  pub display_name : String

pub record PayloadContactMemory : Type 0 where
  pub id : String
  pub contact_id : String
  pub thread_id : String
  pub note : String
  pub tags : List String
  pub created_at : String

pub record MessageReceivedPayload : Type 0 where
  pub event_id : String
  pub event_type : String
  pub occurred_at : String
  pub organization : PayloadOrganization
  pub agent : PayloadAgent
  pub inbox : PayloadInbox
  pub message : PayloadMessage
  pub thread : PayloadThread
  pub contact : PayloadContact
  pub thread_messages : List PayloadMessage
  pub memory : List PayloadContactMemory

-- `json.Marshal` of the payload and the format of a time are parameters.
module _ (format_time : Time → String) where
  unfoldable pub map_message : Message → PayloadMessage
  map_message message = record {
    id = message.id;
    thread_id = message.thread_id;
    direction = message.direction;
    subject = message.subject;
    text_body = message.text_body;
    message_id_header = message.message_id_header;
    created_at = format_time message.created_at;
  }

  unfoldable pub map_memory : ContactMemoryEntry → PayloadContactMemory
  map_memory memory = record {
    id = memory.id;
    contact_id = memory.contact_id;
    thread_id = memory.thread_id;
    note = memory.note;
    tags = memory.tags;
    created_at = format_time memory.created_at;
  }

  unfoldable pub message_received_payload : BuildMessageReceivedInput → MessageReceivedPayload
  unfolding map_message map_memory
  message_received_payload input = record {
    event_id = input.delivery.event_id;
    event_type = input.delivery.event_type;
    occurred_at = format_time input.delivery.created_at;
    organization = record { id = input.organization.id; name = input.organization.name };
    agent = record { id = input.agent.id; name = input.agent.name };
    inbox = record { id = input.inbox.id; email_address = input.inbox.email_address };
    message = map_message input.handled.message;
    thread = record {
      id = input.handled.thread.id;
      subject_normalized = input.handled.thread.subject_normalized;
      state = input.handled.thread.state;
    };
    contact = record {
      id = input.handled.contact.id;
      email_address = input.handled.contact.email_address;
      display_name = input.handled.contact.display_name;
    };
    thread_messages = map map_message input.thread_messages;
    memory = map map_memory input.memory;
  }

  -- MessageReceivedBuilder.Build
  unfoldable pub build :
      {S : Type 0}
      → (MessageReceivedPayload → Result Bytes)
      → BuildMessageReceivedInput
      → Exec S WebhookDispatchRequest
  unfolding message_received_payload
  build marshal input = (λ s. (marshal (message_received_payload input), s)) >>= λ body.
      pure (record {
        delivery = input.delivery;
        payload = body;
        headers = ("Content-Type", "application/json") ∷ [];
      })

pub record DispatchInput : Type 0 where
  pub url : String
  pub request : WebhookDispatchRequest

pub record HttpResponse : Type 0 where
  pub status_code : ℤ
  pub body : Bytes

-- Dispatcher.Dispatch. `http.NewRequest`, `client.Do` and reading the answer's body are one call,
-- which may fail at any of them; the clock is read after it.
unfoldable pub dispatch :
    {S : Type 0}
    → (DispatchInput → Exec S HttpResponse)
    → Exec S Time
    → DispatchInput
    → Exec S WebhookDispatchResult
dispatch post now input = do
  response ← post input
  at ← now
  pure (record { status_code = response.status_code; body = response.body; delivered_at = at })

pub record DeliverMessageReceivedInput : Type 0 where
  pub url : String
  pub webhook_secret : String
  pub build_input : BuildMessageReceivedInput

pub record DeliverMessageReceivedResult : Type 0 where
  pub request : WebhookDispatchRequest
  pub response : WebhookDispatchResult

-- The builder, the signer and the dispatcher of a webhook service.
pub record Service (S : Type 0) : Type 0 where
  pub build : BuildMessageReceivedInput → Exec S WebhookDispatchRequest
  pub sign : WebhookDispatchRequest → String → Exec S WebhookDispatchRequest
  pub dispatch : DispatchInput → Exec S WebhookDispatchResult

pub record DeliveryResult : Type 0 where
  pub request : WebhookDispatchRequest
  pub response : WebhookDispatchResult
  pub delivery : WebhookDelivery

-- A copy of a map has the same entries.
abbrev pub copy_headers : Dict String → Dict String
copy_headers headers = headers

unfoldable pub with_request : String → WebhookDispatchRequest → WebhookDelivery
with_request url request = record request.delivery {
  request_url = url;
  request_payload = request.payload;
  request_headers = copy_headers request.headers;
}

unfoldable pub replay_request : WebhookDelivery → WebhookDispatchRequest
replay_request delivery = record {
  delivery = delivery;
  payload = delivery.request_payload;
  headers = copy_headers delivery.request_headers;
}

module _ {S : Type 0} where
  -- Service.DeliverMessageReceived
  unfoldable pub deliver_message_received :
      Service S → DeliverMessageReceivedInput → Exec S DeliverMessageReceivedResult
  deliver_message_received service input = do
    built ← service.build input.build_input
    request ← service.sign built input.webhook_secret
    response ← service.dispatch (record { url = input.url; request = request })
    pure (record { request = request; response = response })

  -- DeliveryService.DeliverAndRecordMessageReceived, with the base service and the recorder.
  unfoldable pub deliver_and_record :
      Service S
      → (WebhookDelivery → WebhookDispatchResult → Exec S WebhookDelivery)
      → DeliverMessageReceivedInput
      → Exec S DeliveryResult
  unfolding deliver_message_received with_request
  deliver_and_record service record_attempt input = do
    delivered ← deliver_message_received service input
    recorded ← record_attempt (with_request input.url delivered.request) delivered.response
    pure
        (record { request = delivered.request; response = delivered.response; delivery = recorded })

  -- What ReplayDelivery does with the delivery that it found.
  unfoldable pub replay_found :
      (DispatchInput → Exec S WebhookDispatchResult)
      → (WebhookDelivery → WebhookDispatchResult → Exec S WebhookDelivery)
      → WebhookDelivery
      → Exec S DeliveryResult
  unfolding replay_request
  replay_found dispatch record_attempt delivery =
      if delivery.request_url == "" || is_empty delivery.request_payload
      then fail replay_request_unavailable
      else dispatch (record { url = delivery.request_url; request = replay_request delivery })
        >>= λ response. record_attempt delivery response >>= λ recorded.
            pure (record {
              request = replay_request delivery;
              response = response;
              delivery = recorded;
            })

  -- ReplayService.ReplayDelivery
  unfoldable pub replay_delivery :
      (String → Exec S WebhookDelivery)
      → (DispatchInput → Exec S WebhookDispatchResult)
      → (WebhookDelivery → WebhookDispatchResult → Exec S WebhookDelivery)
      → String
      → Exec S DeliveryResult
  unfolding replay_found
  replay_delivery get_delivery dispatch record_attempt delivery_id = do
    delivery ← get_delivery delivery_id
    replay_found dispatch record_attempt delivery
