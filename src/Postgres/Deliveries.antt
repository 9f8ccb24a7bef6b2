-- ===== src/Postgres/Deliveries.antt =====
-- internal/store/postgres/webhook_deliveries.go. The times of attempts are written as NULL where they
-- are zero, and scanned into a time.Time.
use agent_layer.Prelude.{String, List, [], ◌∷◌}
use agent_layer.Prelude.Int.{ℤ, pos}
use agent_layer.Prelude.Exec.{Exec, Result, ok, err}
use agent_layer.Domain.{WebhookDelivery}
use agent_layer.Rows.Delivery.{
  WebhookDeliveryModel, HeaderJson, webhook_delivery_to_model, webhook_delivery_from_model,
}
use agent_layer.Postgres.Sql.{Value, text, number, time, bytes, Insert, Select, Limit, Query, Db}
use agent_layer.Postgres.Scans.{
  Scan, ◌>>=◌, done, string_dest, int_dest, bytes_dest, time_dest, nullable_time,
}
use agent_layer.Postgres.Calls.{query_row, query_all, required, saved, limit_or}

abbrev pub delivery_columns : List String
delivery_columns =
    "id" ∷ "organization_id" ∷ "agent_id" ∷ "event_type" ∷ "event_id" ∷ "request_url"
    ∷ "request_payload" ∷ "request_headers" ∷ "status" ∷ "attempt_count" ∷ "last_attempt_at"
    ∷ "next_attempt_at" ∷ "response_code" ∷ "response_body" ∷ "created_at" ∷ "updated_at" ∷ []

abbrev pub insert_delivery : Insert
insert_delivery = record {
  into = "webhook_deliveries";
  columns = delivery_columns;
  conflict = "id" ∷ [];
  updated =
      "organization_id" ∷ "agent_id" ∷ "event_type" ∷ "event_id" ∷ "request_url" ∷ "request_payload"
      ∷ "request_headers" ∷ "status" ∷ "attempt_count" ∷ "last_attempt_at" ∷ "next_attempt_at"
      ∷ "response_code" ∷ "response_body" ∷ "updated_at" ∷ [];
}

abbrev pub delivery_args : WebhookDeliveryModel → List Value
delivery_args row =
    text row.id
    ∷ text row.organization_id
    ∷ text row.agent_id
    ∷ text row.event_type
    ∷ text row.event_id
    ∷ text row.request_url
    ∷ bytes row.request_payload
    ∷ bytes row.request_headers
    ∷ text row.status
    ∷ number row.attempt_count
    ∷ nullable_time row.last_attempt_at
    ∷ nullable_time row.next_attempt_at
    ∷ number row.response_code
    ∷ bytes row.response_body
    ∷ time row.created_at
    ∷ time row.updated_at
    ∷ []

abbrev pub delivery_by_id : Select
delivery_by_id = record {
  columns = delivery_columns;
  from = "webhook_deliveries";
  equals = "id" ∷ [];
  descending = [];
  limit = Limit.unlimited;
}

abbrev pub deliveries : Select
deliveries = record {
  columns = delivery_columns;
  from = "webhook_deliveries";
  equals = [];
  descending = "updated_at" ∷ "id" ∷ [];
  limit = Limit.by_argument;
}

module _ {S : Type 0} (headers : HeaderJson) (db : Db S) where
  abbrev pub scan_delivery : Scan WebhookDeliveryModel
  scan_delivery = do
    id ← string_dest db
    organization_id ← string_dest db
    agent_id ← string_dest db
    event_type ← string_dest db
    event_id ← string_dest db
    request_url ← string_dest db
    request_payload ← bytes_dest db
    request_headers ← bytes_dest db
    status ← string_dest db
    attempt_count ← int_dest db
    last_attempt_at ← time_dest
    next_attempt_at ← time_dest
    response_code ← int_dest db
    response_body ← bytes_dest db
    created_at ← time_dest
    updated_at ← time_dest
    done (record {
      id = id;
      organization_id = organization_id;
      agent_id = agent_id;
      event_type = event_type;
      event_id = event_id;
      request_url = request_url;
      request_payload = request_payload;
      request_headers = request_headers;
      status = status;
      attempt_count = attempt_count;
      last_attempt_at = last_attempt_at;
      next_attempt_at = next_attempt_at;
      response_code = response_code;
      response_body = response_body;
      created_at = created_at;
      updated_at = updated_at;
    })

  abbrev pub exec_row : WebhookDelivery → Result WebhookDeliveryModel → Exec S WebhookDelivery
  exec_row delivery (err e) s = (err e, s)
  exec_row delivery (ok row) s = saved (db.exec insert_delivery (delivery_args row)) delivery s

  unfoldable pub save_webhook_delivery : WebhookDelivery → Exec S WebhookDelivery
  unfolding webhook_delivery_to_model
  save_webhook_delivery delivery = exec_row delivery (webhook_delivery_to_model headers delivery)

  unfoldable pub get_webhook_delivery_by_id : String → Exec S WebhookDelivery
  unfolding webhook_delivery_from_model
  get_webhook_delivery_by_id delivery_id =
      required (webhook_delivery_from_model headers)
        (query_row db scan_delivery (Query.select delivery_by_id) (text delivery_id ∷ []))

  unfoldable pub list_webhook_deliveries : ℤ → Exec S (List WebhookDelivery)
  unfolding webhook_delivery_from_model
  list_webhook_deliveries limit =
      query_all scan_delivery (webhook_delivery_from_model headers) db deliveries
        (number (limit_or (pos 20) limit) ∷ [])
