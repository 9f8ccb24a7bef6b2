-- ===== src/Postgres/Messages.antt =====
-- internal/store/postgres/messages.go, and `ListByThreadID` and `scanMessage` of read.go.
use agent_layer.Prelude.{String, Option, List, [], ◌∷◌}
use agent_layer.Prelude.Int.{ℤ, pos}
use agent_layer.Prelude.Exec.{Exec, Result, ok}
use agent_layer.Domain.{Time, Thread, Message}
use agent_layer.Rows.Mail.{MessageModel, message_to_model, message_from_model}
use agent_layer.Postgres.Sql.{
  Value, text, number, time, Insert, Select, Limit, Query, Db, ArrayJson,
}
use agent_layer.Postgres.Scans.{
  Scan, ◌>>=◌, done, next, string_dest, time_dest, null_time_dest, nullable_time, array_value,
  array_scan,
}
use agent_layer.Postgres.Threads
use agent_layer.Postgres.Calls.{
  with_value, exec_context, query_row, query_all, required, optional, saved, followed, limit_or,
}

abbrev pub message_columns : List String
message_columns =
    "id" ∷ "organization_id" ∷ "thread_id" ∷ "inbox_id" ∷ "contact_id" ∷ "direction" ∷ "subject"
    ∷ "subject_normalized" ∷ "message_id_header" ∷ "in_reply_to" ∷ "references_headers"
    ∷ "text_body" ∷ "html_body" ∷ "raw_mime_object_key" ∷ "provider_message_id" ∷ "delivery_state"
    ∷ "sent_at" ∷ "delivered_at" ∷ "bounced_at" ∷ "created_at" ∷ []

abbrev pub insert_message : Insert
insert_message = record {
  into = "messages";
  columns = message_columns;
  conflict = [];
  updated = [];
}

abbrev pub message_values : MessageModel → Value → List Value
message_values row v =
    text row.id
    ∷ text row.organization_id
    ∷ text row.thread_id
    ∷ text row.inbox_id
    ∷ text row.contact_id
    ∷ text row.direction
    ∷ text row.subject
    ∷ text row.subject_normalized
    ∷ text row.message_id_header
    ∷ text row.in_reply_to
    ∷ v
    ∷ text row.text_body
    ∷ text row.html_body
    ∷ text row.raw_mime_object_key
    ∷ text row.provider_message_id
    ∷ text row.delivery_state
    ∷ nullable_time row.sent_at
    ∷ nullable_time row.delivered_at
    ∷ nullable_time row.bounced_at
    ∷ time row.created_at
    ∷ []

abbrev pub message_args : ArrayJson → MessageModel → Result (List Value)
message_args json row = with_value (array_value json row.references) (message_values row)

abbrev pub upsert_message : Insert
upsert_message = record insert_message {
  conflict = "id" ∷ [];
  updated =
      "organization_id" ∷ "thread_id" ∷ "inbox_id" ∷ "contact_id" ∷ "direction" ∷ "subject"
      ∷ "subject_normalized" ∷ "message_id_header" ∷ "in_reply_to" ∷ "references_headers"
      ∷ "text_body" ∷ "html_body" ∷ "raw_mime_object_key" ∷ "provider_message_id" ∷ "delivery_state"
      ∷ "sent_at" ∷ "delivered_at" ∷ "bounced_at" ∷ [];
}

abbrev pub insert_submission : Insert
insert_submission = record {
  into = "reply_submissions";
  columns = "submission_key" ∷ "message_id" ∷ "created_at" ∷ [];
  conflict = "submission_key" ∷ [];
  updated = "message_id" ∷ [];
}

abbrev pub message_by_id : Select
message_by_id = record {
  columns = message_columns;
  from = "messages";
  equals = "id" ∷ [];
  descending = [];
  limit = Limit.unlimited;
}

abbrev pub thread_id_by_header : Select
thread_id_by_header = record {
  columns = "thread_id" ∷ [];
  from = "messages";
  equals = "message_id_header" ∷ [];
  descending = [];
  limit = Limit.one;
}

abbrev pub message_by_inbox_and_header : Select
message_by_inbox_and_header = record {
  columns = message_columns;
  from = "messages";
  equals = "inbox_id" ∷ "message_id_header" ∷ [];
  descending = [];
  limit = Limit.one;
}

abbrev pub message_by_provider_id : Select
message_by_provider_id = record {
  columns = message_columns;
  from = "messages";
  equals = "provider_message_id" ∷ [];
  descending = [];
  limit = Limit.one;
}

abbrev pub submission_by_key : Select
submission_by_key = record {
  columns = "message_id" ∷ [];
  from = "reply_submissions";
  equals = "submission_key" ∷ [];
  descending = [];
  limit = Limit.unlimited;
}

abbrev pub messages_by_thread_id : Select
messages_by_thread_id = record {
  columns = message_columns;
  from = "messages";
  equals = "thread_id" ∷ [];
  descending = "created_at" ∷ "id" ∷ [];
  limit = Limit.by_argument;
}

module _ {S : Type 0} (json : ArrayJson) (db : Db S) where
  abbrev pub scan_message : Scan MessageModel
  scan_message = do
    id ← string_dest db
    organization_id ← string_dest db
    thread_id ← string_dest db
    inbox_id ← string_dest db
    contact_id ← string_dest db
    direction ← string_dest db
    subject ← string_dest db
    subject_normalized ← string_dest db
    message_id_header ← string_dest db
    in_reply_to ← string_dest db
    references ← next (array_scan json)
    text_body ← string_dest db
    html_body ← string_dest db
    raw_mime_object_key ← string_dest db
    provider_message_id ← string_dest db
    delivery_state ← string_dest db
    sent_at ← null_time_dest
    delivered_at ← null_time_dest
    bounced_at ← null_time_dest
    created_at ← time_dest
    done (record {
      id = id;
      organization_id = organization_id;
      thread_id = thread_id;
      inbox_id = inbox_id;
      contact_id = contact_id;
      direction = direction;
      subject = subject;
      subject_normalized = subject_normalized;
      message_id_header = message_id_header;
      in_reply_to = in_reply_to;
      references = references;
      text_body = text_body;
      html_body = html_body;
      raw_mime_object_key = raw_mime_object_key;
      provider_message_id = provider_message_id;
      delivery_state = delivery_state;
      sent_at = sent_at;
      delivered_at = delivered_at;
      bounced_at = bounced_at;
      created_at = created_at;
    })

  unfoldable pub create : Message → Exec S Message
  unfolding message_to_model
  create message =
      saved (exec_context db insert_message (message_args json (message_to_model message))) message

  unfoldable pub save : Message → Exec S Message
  unfolding message_to_model
  save message =
      saved (exec_context db upsert_message (message_args json (message_to_model message))) message

  unfoldable pub get_message_by_id : String → Exec S Message
  unfolding message_from_model
  get_message_by_id message_id =
      required (λ row. ok (message_from_model row))
        (query_row db scan_message (Query.select message_by_id) (text message_id ∷ []))

  unfoldable pub find_by_message_id : String → Exec S (Option Thread)
  unfolding Threads.get_by_id
  find_by_message_id message_id_header = followed (Threads.get_by_id db) (
      query_row db (string_dest db) (Query.select thread_id_by_header)
        (text message_id_header ∷ []))

  unfoldable pub find_inbound_by_header : String → String → Exec S (Option Message)
  unfolding message_from_model
  find_inbound_by_header inbox_id message_id_header = optional message_from_model (
      query_row db scan_message (Query.select message_by_inbox_and_header)
        (text inbox_id ∷ text message_id_header ∷ []))

  unfoldable pub find_by_provider_message_id : String → Exec S (Option Message)
  unfolding message_from_model
  find_by_provider_message_id provider_message_id = optional message_from_model (
      query_row db scan_message (Query.select message_by_provider_id)
        (text provider_message_id ∷ []))

  unfoldable pub save_reply_submission : String → String → Time → Exec S (Unit {0})
  save_reply_submission submission_key message_id created_at =
      db.exec insert_submission (text submission_key ∷ text message_id ∷ time created_at ∷ [])

  unfoldable pub find_reply_by_submission_key : String → Exec S (Option Message)
  unfolding get_message_by_id
  find_reply_by_submission_key submission_key =
      followed get_message_by_id
        (query_row db (string_dest db) (Query.select submission_by_key) (text submission_key ∷ []))

  unfoldable pub list_by_thread_id : String → ℤ → Exec S (List Message)
  unfolding message_from_model
  list_by_thread_id thread_id limit =
      query_all scan_message (λ row. ok (message_from_model row)) db messages_by_thread_id
        (text thread_id ∷ number (limit_or (pos 20) limit) ∷ [])
