-- ===== src/Api/Actions.antt =====
-- internal/api: the handlers that act, but for the reply's: bootstrap_handler.go,
-- contact_memory_handler.go, inbound_reprocess_handler.go, outbound_callback_handler.go,
-- thread_escalate_handler.go and webhook_replay_handler.go; with the adapters of
-- cmd/agentlayer/main.go that put the services' results in the handlers' structs.
use agent_layer.Prelude.{String, Bool, not, Option, none, some, List, ◌==◌, ◌&&◌, if◌then◌else◌}
use agent_layer.Prelude.Exec.{Exec, Error, Result, ok, err, provider_message_not_found}
use agent_layer.Domain.{
  Bytes, Thread, Contact, ContactMemoryEntry, zero_time, agent_status_is_valid,
}
use agent_layer.Text.{Unicode, trim_space}
use agent_layer.Inbound.Service.{HandleResult}
use agent_layer.Outbound.Callback.{CallbackFlowInput, CallbackFlowResult, DeliveryCallbackEvent}
use agent_layer.Webhooks.Delivery.{DeliveryResult}
use agent_layer.App.Bootstrap.{BootstrapInput, BootstrapResult}
use agent_layer.App.Writes.{CreateContactMemoryInput}
use agent_layer.Api.{RequestBody, Formats, Handler, Response, answer, read_all, write_lookup_error}
use agent_layer.Api.Paths.{
  thread_id_from_escalate_path, contact_id_from_memory_path, webhook_delivery_id_from_replay_path,
}
use agent_layer.Api.Lookups.{
  BootstrapResponse, ThreadResponse, WebhookDeliveryResponse, thread_response,
  webhook_delivery_response,
}

pub record ContactMemoryResponse : Type 0 where
  pub id : String
  pub contact_id : String
  pub thread_id : String
  pub note : String
  pub tags : List String

unfoldable pub contact_memory_response : ContactMemoryEntry → ContactMemoryResponse
contact_memory_response entry = record {
  id = entry.id;
  contact_id = entry.contact_id;
  thread_id = entry.thread_id;
  note = entry.note;
  tags = entry.tags;
}

pub record InboundReprocessResponse : Type 0 where
  pub message_id : String
  pub thread_id : String
  pub duplicate : Bool

-- What the adapter makes of a handled message.
unfoldable pub reprocess_response : HandleResult → InboundReprocessResponse
reprocess_response result = record {
  message_id = result.message.id;
  thread_id = result.thread.id;
  duplicate = result.duplicate;
}

pub record OutboundCallbackResponse : Type 0 where
  pub message_id : String
  pub provider_message_id : String
  pub delivery_state : String
  pub suppressed : Bool

unfoldable pub callback_response : CallbackFlowResult → OutboundCallbackResponse
callback_response result = record {
  message_id = result.message.id;
  provider_message_id = result.message.provider_message_id;
  delivery_state = result.message.delivery_state;
  suppressed = result.suppressed;
}

-- The result of bootstrapServiceAdapter and of bootstrapReadServiceAdapter.
unfoldable pub bootstrap_response : BootstrapResult → BootstrapResponse
bootstrap_response result = record {
  organization_id = result.organization.id;
  agent_id = result.agent.id;
  inbox_id = result.inbox.id;
  webhook_url = result.agent.webhook_url;
  inbox_address = result.inbox.email_address;
}

-- domain.Contact{EmailAddress: email}
abbrev pub contact_of_email : String → Contact
contact_of_email email = record {
  id = "";
  organization_id = "";
  email_address = email;
  display_name = "";
  last_seen_at = zero_time;
  created_at = zero_time;
  updated_at = zero_time;
}

-- The first required field of a bootstrap that is blank, or the status that is not one.
unfoldable pub bootstrap_problem : Unicode → BootstrapInput → Option String
bootstrap_problem unicode payload =
    if trim_space unicode payload.organization_name == ""
    then some "organization_name is required"
    else if trim_space unicode payload.agent_name == ""
    then some "agent_name is required"
    else if trim_space unicode payload.inbox_address == ""
    then some "inbox_address is required"
    else if trim_space unicode payload.inbox_domain == ""
    then some "inbox_domain is required"
    else if trim_space unicode payload.inbox_display_name == ""
    then some "inbox_display_name is required"
    else if not (payload.agent_status == "") && not (agent_status_is_valid payload.agent_status)
    then some "invalid agent status"
    else none

-- The status and the message of a callback that failed.
unfoldable pub callback_refused : {A : Type 0} → Error → Response A
callback_refused provider_message_not_found = Response.refused 404 "provider message not found"
callback_refused (Error.not_found message) = Response.refused 500 "failed to apply callback"
callback_refused Error.recipient_suppressed = Response.refused 500 "failed to apply callback"
callback_refused Error.replay_request_unavailable = Response.refused 500 "failed to apply callback"
callback_refused (Error.failure message) = Response.refused 500 "failed to apply callback"

module _ {S : Type 0} where
  unfoldable pub bootstrap_handler :
      Unicode
      → (RequestBody → Option BootstrapInput)
      → (BootstrapInput → Exec S BootstrapResponse)
      → Handler S BootstrapResponse
  bootstrap_handler unicode decode bootstrap request s = elim (decode request.body) [
    | none ↦ (Response.refused 400 "invalid json payload", s)
    | some payload ↦ elim (bootstrap_problem unicode payload) [
      | some problem ↦ (Response.refused 400 problem, s)
      | none ↦
          answer (bootstrap payload) (λ e. Response.refused 500 "failed to bootstrap runtime")
            (λ result. Response.encoded 201 result) s
    ]
  ]

  unfoldable pub contact_memory_handler :
      (RequestBody → Option CreateContactMemoryInput)
      → (String → CreateContactMemoryInput → Exec S ContactMemoryEntry)
      → Handler S ContactMemoryResponse
  contact_memory_handler decode create request s =
      let contact_id = contact_id_from_memory_path request.path in
      if contact_id == ""
      then (Response.refused 400 "contact id is required", s)
      else elim (decode request.body) [
        | none ↦ (Response.refused 400 "invalid json payload", s)
        | some payload ↦
            answer (create contact_id payload)
              (write_lookup_error "contact not found" "failed to create contact memory")
              (λ entry. Response.encoded 201 (contact_memory_response entry)) s
      ]

  -- The payload has the one field object_key.
  unfoldable pub inbound_reprocess_handler :
      Unicode
      → (RequestBody → Option String)
      → (String → Exec S HandleResult)
      → Handler S InboundReprocessResponse
  inbound_reprocess_handler unicode decode reprocess request s = elim (decode request.body) [
    | none ↦ (Response.refused 400 "invalid json payload", s)
    | some object_key ↦
        if trim_space unicode object_key == ""
        then (Response.refused 400 "object_key is required", s)
        else answer (reprocess object_key)
            (write_lookup_error "inbound receipt not found" "failed to reprocess inbound message")
            (λ result. Response.encoded 202 (reprocess_response result)) s
  ]

  -- `contact_email` reads that field of the body, and `parse` is the callback parser.
  unfoldable pub outbound_callback_handler :
      Unicode
      → (Bytes → Option String)
      → (Bytes → Result DeliveryCallbackEvent)
      → (CallbackFlowInput → Exec S CallbackFlowResult)
      → Handler S OutboundCallbackResponse
  outbound_callback_handler unicode contact_email parse apply request s =
      elim (read_all request.body) [
        | none ↦ (Response.refused 400 "invalid request body", s)
        | some body ↦ elim (contact_email body) [
          | none ↦ (Response.refused 400 "invalid json payload", s)
          | some email ↦
              if trim_space unicode email == ""
              then (Response.refused 400 "contact_email is required", s)
              else elim (parse body) [
                | err e ↦ (Response.refused 400 "invalid callback payload", s)
                | ok event ↦
                    answer (apply (record { event = event; contact = contact_of_email email }))
                      callback_refused (λ result. Response.encoded 200 (callback_response result)) s
              ]
        ]
      ]

  -- The payload has the one field reason.
  unfoldable pub thread_escalate_handler :
      (RequestBody → Option String) → (String → String → Exec S Thread) → Handler S ThreadResponse
  thread_escalate_handler decode escalate request s =
      let thread_id = thread_id_from_escalate_path request.path in
      if thread_id == ""
      then (Response.refused 400 "thread id is required", s)
      else elim (decode request.body) [
        | none ↦ (Response.refused 400 "invalid json payload", s)
        | some reason ↦
            answer (escalate thread_id reason)
              (write_lookup_error "thread not found" "failed to escalate thread")
              (λ thread. Response.encoded 202 (thread_response thread)) s
      ]

  -- The adapter hands on the delivery of the replay.
  unfoldable pub webhook_replay_handler :
      Formats → (String → Exec S DeliveryResult) → Handler S WebhookDeliveryResponse
  webhook_replay_handler formats replay request s =
      let delivery_id = webhook_delivery_id_from_replay_path request.path in
      if delivery_id == ""
      then (Response.refused 400 "delivery id is required", s)
      else answer (replay delivery_id)
          (write_lookup_error "webhook delivery not found" "failed to replay webhook delivery")
          (λ result. Response.encoded 202 (webhook_delivery_response formats result.delivery)) s
