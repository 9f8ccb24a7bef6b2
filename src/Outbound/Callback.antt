-- ===== src/Outbound/Callback.antt =====
-- internal/outbound/callback_parser.go, callback_service.go, callback_flow.go and suppression.go:
-- what a delivery callback of the provider does.
use agent_layer.Prelude.{String, Bool, true, false, ◌==◌, ◌||◌, Option, none, some, if◌then◌else◌}
use agent_layer.Prelude.Exec.{
  Exec, Result, ok, err, pure, fail, ◌>>=◌, failure, provider_message_not_found,
}
use agent_layer.Domain.{Time, Bytes, Message, Contact, SuppressedAddress, zero_suppression}
use agent_layer.Core.{Ambient, generated_id}
use agent_layer.Outbound.Recorders.{
  delivery_state_delivered, delivery_state_hard_bounce, delivery_state_soft_bounce,
  delivery_state_complaint,
}

pub record DeliveryCallbackEvent : Type 0 where
  pub provider_message_id : String
  pub status : String
  pub occurred_at : Time

pub record CallbackPayload : Type 0 where
  pub event_type : String
  pub provider_message_id : String
  pub occurred_at : String

-- mapCallbackEventType
unfoldable pub map_callback_event_type : String → Result String
map_callback_event_type event_type =
    if event_type == delivery_state_delivered
    then ok delivery_state_delivered
    else if event_type == delivery_state_hard_bounce
    then ok delivery_state_hard_bounce
    else if event_type == delivery_state_soft_bounce
    then ok delivery_state_soft_bounce
    else if event_type == delivery_state_complaint
    then ok delivery_state_complaint
    else err (failure "unknown delivery callback event type")

-- CallbackParser.Parse. `json.Unmarshal` into the payload and `time.Parse` are parameters.
module _ (unmarshal : Bytes → Result CallbackPayload) (parse_time : String → Result Time) where
  abbrev pub with_event_type : CallbackPayload → Time → Result String → Result DeliveryCallbackEvent
  with_event_type payload occurred_at (err e) = err e
  with_event_type payload occurred_at (ok status) = ok (record {
    provider_message_id = payload.provider_message_id;
    status = status;
    occurred_at = occurred_at;
  })

  abbrev pub with_time : CallbackPayload → Result Time → Result DeliveryCallbackEvent
  with_time payload (err e) = err e
  with_time payload (ok occurred_at) =
      with_event_type payload occurred_at (map_callback_event_type payload.event_type)

  abbrev pub with_payload : Result CallbackPayload → Result DeliveryCallbackEvent
  with_payload (err e) = err e
  with_payload (ok payload) = with_time payload (parse_time payload.occurred_at)

  unfoldable pub parse : Bytes → Result DeliveryCallbackEvent
  parse body = with_payload (unmarshal body)

-- CallbackService: the lookup and the status recorder.
pub record CallbackService (S : Type 0) : Type 0 where
  pub find_by_provider_message_id : String → Exec S (Option Message)
  pub record_status : Message → String → Time → Exec S Message

pub record SuppressionInput : Type 0 where
  pub message : Message
  pub contact : Contact
  pub status : String
  pub occurred_at : Time

-- newSuppressionID
unfoldable pub new_suppression_id : Option String → String
unfolding generated_id
new_suppression_id = generated_id "suppression-" "suppression-generated"

unfoldable pub suppression_record : String → SuppressionInput → SuppressedAddress
suppression_record id input = record {
  id = id;
  organization_id = input.message.organization_id;
  email_address = input.contact.email_address;
  reason = input.status;
  source = "provider_callback";
  created_at = input.occurred_at;
  updated_at = input.occurred_at;
}

pub record CallbackFlowInput : Type 0 where
  pub event : DeliveryCallbackEvent
  pub contact : Contact

pub record CallbackFlowResult : Type 0 where
  pub message : Message
  pub suppression : SuppressedAddress
  pub suppressed : Bool

module _ {S : Type 0} where
  unfoldable pub apply_callback : CallbackService S → DeliveryCallbackEvent → Exec S Message
  apply_callback service event = do
    found ← service.find_by_provider_message_id event.provider_message_id
    elim found [
      | none ↦ fail provider_message_not_found
      | some message ↦ service.record_status message event.status event.occurred_at
    ]

  unfoldable pub suppress :
      (SuppressedAddress → Exec S SuppressedAddress)
      → Ambient S
      → SuppressionInput
      → Exec S (SuppressedAddress × Bool)
  unfolding suppression_record new_suppression_id
  suppress save ambient input = do
    hex ← ambient.random_hex
    saved ← save (suppression_record (new_suppression_id hex) input)
    pure (saved, true)

  -- SuppressionService.Apply
  unfoldable pub apply_suppression :
      (SuppressedAddress → Exec S SuppressedAddress)
      → Ambient S
      → SuppressionInput
      → Exec S (SuppressedAddress × Bool)
  unfolding suppress
  apply_suppression save ambient input =
      if input.status == delivery_state_hard_bounce || input.status == delivery_state_complaint
      then suppress save ambient input
      else pure (zero_suppression, false)

  -- CallbackFlow.Apply
  unfoldable pub apply :
      CallbackService S
      → (SuppressedAddress → Exec S SuppressedAddress)
      → Ambient S
      → CallbackFlowInput
      → Exec S CallbackFlowResult
  unfolding apply_callback apply_suppression
  apply service save ambient input = do
    message ← apply_callback service input.event
    changed ← apply_suppression save ambient (record {
      message = message;
      contact = input.contact;
      status = input.event.status;
      occurred_at = input.event.occurred_at;
    })
    pure (record { message = message; suppression = changed.0; suppressed = changed.1 })
