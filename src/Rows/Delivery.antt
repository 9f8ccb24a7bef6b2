-- ===== src/Rows/Delivery.antt =====
-- internal/store/models.go and convert.go: the rows of suppressions, of provider configurations and
-- of webhook deliveries, whose headers are JSON in a row.
use agent_layer.Prelude.{String, Bool, [], ◌∷◌}
use agent_layer.Prelude.Int.{ℤ}
use agent_layer.Prelude.Dict.{Dict}
use agent_layer.Prelude.Exec.{Result, ok, err}
use agent_layer.Domain.{Time, Bytes, SuppressedAddress, WebhookDelivery}

-- domain.ProviderConfig
pub record ProviderConfig : Type 0 where
  pub id : String
  pub organization_id : String
  pub provider_type : String
  pub is_default : Bool
  pub created_at : Time
  pub updated_at : Time

pub record SuppressedAddressModel : Type 0 where
  pub id : String
  pub organization_id : String
  pub email_address : String
  pub reason : String
  pub source : String
  pub created_at : Time
  pub updated_at : Time

pub record ProviderConfigModel : Type 0 where
  pub id : String
  pub organization_id : String
  pub provider_type : String
  pub is_default : Bool
  pub config_json : Bytes
  pub created_at : Time
  pub updated_at : Time

pub record WebhookDeliveryModel : Type 0 where
  pub id : String
  pub organization_id : String
  pub agent_id : String
  pub event_type : String
  pub event_id : String
  pub request_url : String
  pub request_payload : Bytes
  pub request_headers : Bytes
  pub status : String
  pub attempt_count : ℤ
  pub last_attempt_at : Time
  pub next_attempt_at : Time
  pub response_code : ℤ
  pub response_body : Bytes
  pub created_at : Time
  pub updated_at : Time

unfoldable pub suppressed_address_to_model : SuppressedAddress → SuppressedAddressModel
suppressed_address_to_model suppressed = record {
  id = suppressed.id;
  organization_id = suppressed.organization_id;
  email_address = suppressed.email_address;
  reason = suppressed.reason;
  source = suppressed.source;
  created_at = suppressed.created_at;
  updated_at = suppressed.updated_at;
}

unfoldable pub suppressed_address_from_model : SuppressedAddressModel → SuppressedAddress
suppressed_address_from_model row = record {
  id = row.id;
  organization_id = row.organization_id;
  email_address = row.email_address;
  reason = row.reason;
  source = row.source;
  created_at = row.created_at;
  updated_at = row.updated_at;
}

unfoldable pub provider_config_to_model : ProviderConfig → Bytes → ProviderConfigModel
provider_config_to_model config config_json = record {
  id = config.id;
  organization_id = config.organization_id;
  provider_type = config.provider_type;
  is_default = config.is_default;
  config_json = config_json;
  created_at = config.created_at;
  updated_at = config.updated_at;
}

unfoldable pub provider_config_from_model : ProviderConfigModel → ProviderConfig
provider_config_from_model row = record {
  id = row.id;
  organization_id = row.organization_id;
  provider_type = row.provider_type;
  is_default = row.is_default;
  created_at = row.created_at;
  updated_at = row.updated_at;
}

-- encoding/json on a map of strings. A map that is nil is an empty one here.
pub record HeaderJson : Type 0 where
  pub marshal : Dict String → Result Bytes
  pub unmarshal : Bytes → Result (Dict String)

module _ (json : HeaderJson) where
  abbrev pub delivery_row : WebhookDelivery → Bytes → WebhookDeliveryModel
  delivery_row delivery headers = record {
    id = delivery.id;
    organization_id = delivery.organization_id;
    agent_id = delivery.agent_id;
    event_type = delivery.event_type;
    event_id = delivery.event_id;
    request_url = delivery.request_url;
    request_payload = delivery.request_payload;
    request_headers = headers;
    status = delivery.status;
    attempt_count = delivery.attempt_count;
    last_attempt_at = delivery.last_attempt_at;
    next_attempt_at = delivery.next_attempt_at;
    response_code = delivery.response_code;
    response_body = delivery.response_body;
    created_at = delivery.created_at;
    updated_at = delivery.updated_at;
  }

  unfoldable pub webhook_delivery_to_model : WebhookDelivery → Result WebhookDeliveryModel
  webhook_delivery_to_model delivery = elim (json.marshal delivery.request_headers) [
    | err e ↦ err e
    | ok headers ↦ ok (delivery_row delivery headers)
  ]

  abbrev pub row_delivery : WebhookDeliveryModel → Dict String → WebhookDelivery
  row_delivery row headers = record {
    id = row.id;
    organization_id = row.organization_id;
    agent_id = row.agent_id;
    event_type = row.event_type;
    event_id = row.event_id;
    request_url = row.request_url;
    request_payload = row.request_payload;
    request_headers = headers;
    status = row.status;
    attempt_count = row.attempt_count;
    response_code = row.response_code;
    response_body = row.response_body;
    last_attempt_at = row.last_attempt_at;
    next_attempt_at = row.next_attempt_at;
    created_at = row.created_at;
    updated_at = row.updated_at;
  }

  -- The headers of a row; an empty column stands for none.
  unfoldable pub row_headers : Bytes → Result (Dict String)
  row_headers [] = ok []
  row_headers (b ∷ bytes) = json.unmarshal (b ∷ bytes)

  unfoldable pub webhook_delivery_from_model : WebhookDeliveryModel → Result WebhookDelivery
  webhook_delivery_from_model row = elim (row_headers row.request_headers) [
    | err e ↦ err e
    | ok headers ↦ ok (row_delivery row headers)
  ]
