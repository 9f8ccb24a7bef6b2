-- ===== src/Postgres/Receipts.antt =====
-- internal/store/postgres/inbound_receipts.go.
use agent_layer.Prelude.{String, List, [], ◌∷◌}
use agent_layer.Prelude.Int.{ℤ, pos}
use agent_layer.Prelude.Exec.{Exec, Result, ok}
use agent_layer.Inbound.Receipt.{DurableReceiptRequest}
use agent_layer.Rows.Mail.{
  InboundReceiptModel, inbound_receipt_to_model, inbound_receipt_from_model,
}
use agent_layer.Postgres.Sql.{
  Value, text, number, time, Insert, Select, Limit, Query, Db, ArrayJson,
}
use agent_layer.Postgres.Scans.{
  Scan, ◌>>=◌, done, next, string_dest, time_dest, array_value, array_scan,
}
use agent_layer.Postgres.Calls.{with_value, exec_context, query_row, query_all, required, limit_or}

abbrev pub receipt_columns : List String
receipt_columns =
    "raw_message_object_key" ∷ "smtp_transaction_id" ∷ "organization_id" ∷ "agent_id" ∷ "inbox_id"
    ∷ "envelope_sender" ∷ "envelope_recipients" ∷ "received_at" ∷ "created_at" ∷ []

abbrev pub insert_receipt : Insert
insert_receipt = record {
  into = "inbound_receipts";
  columns = receipt_columns;
  conflict = "raw_message_object_key" ∷ [];
  updated =
      "smtp_transaction_id" ∷ "organization_id" ∷ "agent_id" ∷ "inbox_id" ∷ "envelope_sender"
      ∷ "envelope_recipients" ∷ "received_at" ∷ [];
}

abbrev pub receipt_values : InboundReceiptModel → Value → List Value
receipt_values row v =
    text row.raw_message_object_key
    ∷ text row.smtp_transaction_id
    ∷ text row.organization_id
    ∷ text row.agent_id
    ∷ text row.inbox_id
    ∷ text row.envelope_sender
    ∷ v
    ∷ time row.received_at
    ∷ time row.created_at
    ∷ []

abbrev pub receipt_args : ArrayJson → InboundReceiptModel → Result (List Value)
receipt_args json row = with_value (array_value json row.envelope_recipients) (receipt_values row)

abbrev pub receipt_by_object_key : Select
receipt_by_object_key = record {
  columns = receipt_columns;
  from = "inbound_receipts";
  equals = "raw_message_object_key" ∷ [];
  descending = [];
  limit = Limit.unlimited;
}

abbrev pub receipts : Select
receipts = record {
  columns = receipt_columns;
  from = "inbound_receipts";
  equals = [];
  descending = "received_at" ∷ "raw_message_object_key" ∷ [];
  limit = Limit.by_argument;
}

module _ {S : Type 0} (json : ArrayJson) (db : Db S) where
  abbrev pub scan_receipt : Scan InboundReceiptModel
  scan_receipt = do
    raw_message_object_key ← string_dest db
    smtp_transaction_id ← string_dest db
    organization_id ← string_dest db
    agent_id ← string_dest db
    inbox_id ← string_dest db
    envelope_sender ← string_dest db
    envelope_recipients ← next (array_scan json)
    received_at ← time_dest
    created_at ← time_dest
    done (record {
      raw_message_object_key = raw_message_object_key;
      smtp_transaction_id = smtp_transaction_id;
      organization_id = organization_id;
      agent_id = agent_id;
      inbox_id = inbox_id;
      envelope_sender = envelope_sender;
      envelope_recipients = envelope_recipients;
      received_at = received_at;
      created_at = created_at;
    })

  unfoldable pub save_inbound_receipt : DurableReceiptRequest → Exec S (Unit {0})
  unfolding inbound_receipt_to_model
  save_inbound_receipt receipt =
      exec_context db insert_receipt (receipt_args json (inbound_receipt_to_model receipt))

  unfoldable pub get_inbound_receipt_by_object_key : String → Exec S DurableReceiptRequest
  unfolding inbound_receipt_from_model
  get_inbound_receipt_by_object_key object_key =
      required (λ row. ok (inbound_receipt_from_model row))
        (query_row db scan_receipt (Query.select receipt_by_object_key) (text object_key ∷ []))

  unfoldable pub list_inbound_receipts : ℤ → Exec S (List DurableReceiptRequest)
  unfolding inbound_receipt_from_model
  list_inbound_receipts limit =
      query_all scan_receipt (λ row. ok (inbound_receipt_from_model row)) db receipts
        (number (limit_or (pos 20) limit) ∷ [])
