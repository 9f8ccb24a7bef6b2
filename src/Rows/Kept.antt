-- ===== src/Rows/Kept.antt =====
-- internal/store/convert.go: what comes back of the records whose rows are of another shape.
use agent_layer.Prelude.{String, [], ◌∷◌, ◌≡◌, ◌≢◌, refl}
use agent_layer.Prelude.Dict
use agent_layer.Prelude.Dict.{Dict}
use agent_layer.Prelude.Exec.{Result, ok, err}
use agent_layer.Domain.{Bytes, ContactMemoryEntry, WebhookDelivery}
use agent_layer.Inbound.Receipt.{DurableReceiptRequest}
use agent_layer.Rows.Parties.{
  ContactMemoryModel, contact_memory_to_model, contact_memory_from_model,
}
use agent_layer.Rows.Mail.{
  InboundReceiptModel, inbound_receipt_to_model, inbound_receipt_from_model,
}
use agent_layer.Rows.Delivery.{
  ProviderConfig, ProviderConfigModel, WebhookDeliveryModel, HeaderJson, provider_config_to_model,
  provider_config_from_model, webhook_delivery_to_model, webhook_delivery_from_model, row_headers,
}

pub record Kept : Type 0 where
  pub receipt :
      (r : DurableReceiptRequest) → inbound_receipt_from_model (inbound_receipt_to_model r) ≡ r
  pub receipt_row :
      (m : InboundReceiptModel)
      → inbound_receipt_to_model (inbound_receipt_from_model m)
        ≡ record m { created_at = m.received_at }
  pub memory :
      (e : ContactMemoryEntry) (organization_id : String)
      → contact_memory_from_model (contact_memory_to_model e organization_id) ≡ e
  pub memory_row :
      (m : ContactMemoryModel)
      → contact_memory_to_model (contact_memory_from_model m) m.organization_id ≡ m
  pub config :
      (c : ProviderConfig) (json : Bytes)
      → provider_config_from_model (provider_config_to_model c json) ≡ c
  pub config_row :
      (m : ProviderConfigModel)
      → provider_config_to_model (provider_config_from_model m) m.config_json ≡ m

-- A receipt, a note on a contact and a provider configuration come back from their rows as they were.
-- A row comes back from the record if the organization, or the JSON, that the record lacks is given
-- again; the row of a receipt comes back with the time of receipt as its time of creation.
other-Kept : Kept
unfolding inbound_receipt_to_model inbound_receipt_from_model contact_memory_to_model
    contact_memory_from_model provider_config_to_model provider_config_from_model
other-Kept = record {
  receipt = λ r. refl;
  receipt_row = λ m. refl;
  memory = λ e o. refl;
  memory_row = λ m. refl;
  config = λ c j. refl;
  config_row = λ m. refl;
}

-- What the code relies on in encoding/json: what Marshal returns for a map is not empty, and Unmarshal
-- reads from it a map with the same value, or none, at every key.
pub record IsJson (json : HeaderJson) : Type 0 where
  pub filled : (h : Dict String) (b : Bytes) → json.marshal h ≡ ok b → b ≢ []
  pub read :
      (h : Dict String) (b : Bytes)
      → json.marshal h ≡ ok b
      → (h' : Dict String) × (json.unmarshal b ≡ ok h')
        × ((k : String) → Dict.get h' k ≡ Dict.get h k)

-- The outcome of storing a delivery in a row and reading it back.
abbrev pub ReadsBack : HeaderJson → WebhookDelivery → Result WebhookDeliveryModel → Type 0
ReadsBack json d (err e) = json.marshal d.request_headers ≡ err e
ReadsBack json d (ok row) =
    (h : Dict String) × (webhook_delivery_from_model json row
      ≡ ok (record d { request_headers = h }))
    × ((k : String) → Dict.get h k ≡ Dict.get d.request_headers k)

-- Converting a webhook delivery to a row fails exactly as encoding its headers does; if it returns a
-- row, the delivery read from the row has all fields of the first one, and headers with the same value
-- at every key. The package encoding/json reads what it writes.
pub webhook_delivery-ReadsBack :
    (json : HeaderJson) (d : WebhookDelivery)
    → IsJson json
    → ReadsBack json d (webhook_delivery_to_model json d)
unfolding webhook_delivery_to_model webhook_delivery_from_model row_headers
webhook_delivery-ReadsBack json d j = by_result (json.marshal d.request_headers) refl
  where
    by_result :
        (r : Result Bytes)
        → json.marshal d.request_headers ≡ r
        → ReadsBack json d (webhook_delivery_to_model json d)
    by_result (err e) p = rw (webhook_delivery_to_model, p) p
    by_result (ok []) p = absurd (j.filled d.request_headers [] p refl)
    by_result (ok (b ∷ bytes)) p =
        let (h, q, same) = j.read d.request_headers (b ∷ bytes) p in
        rw (webhook_delivery_to_model, p)
          (h, rw (webhook_delivery_from_model, row_headers, q) refl, same)
