-- ===== src/Postgres/Contacts.antt =====
-- internal/store/postgres/contacts.go and contact_memory.go.
use agent_layer.Prelude.{String, Option, List, [], ◌∷◌}
use agent_layer.Prelude.Int.{ℤ, pos}
use agent_layer.Prelude.Exec.{Exec, Result, ok}
use agent_layer.Domain.{Contact, ContactMemoryEntry}
use agent_layer.Rows.Parties.{
  ContactModel, ContactMemoryModel, contact_to_model, contact_from_model, contact_memory_to_model,
  contact_memory_from_model,
}
use agent_layer.Postgres.Sql.{
  Value, text, number, time, Insert, Select, Limit, Query, Db, ArrayJson,
}
use agent_layer.Postgres.Scans.{
  Scan, ◌>>=◌, done, next, string_dest, time_dest, array_value, array_scan,
}
use agent_layer.Postgres.Calls.{
  with_value, exec_context, query_row, query_all, required, optional, saved, limit_or,
}

abbrev pub contact_columns : List String
contact_columns =
    "id" ∷ "organization_id" ∷ "email_address" ∷ "display_name" ∷ "last_seen_at" ∷ "created_at"
    ∷ "updated_at" ∷ []

abbrev pub insert_contact : Insert
insert_contact = record {
  into = "contacts";
  columns = contact_columns;
  conflict = "organization_id" ∷ "email_address" ∷ [];
  updated = "id" ∷ "display_name" ∷ "last_seen_at" ∷ "updated_at" ∷ [];
}

abbrev pub contact_args : ContactModel → List Value
contact_args row =
    text row.id
    ∷ text row.organization_id
    ∷ text row.email_address
    ∷ text row.display_name
    ∷ time row.last_seen_at
    ∷ time row.created_at
    ∷ time row.updated_at
    ∷ []

abbrev pub memory_columns : List String
memory_columns =
    "id" ∷ "organization_id" ∷ "contact_id" ∷ "thread_id" ∷ "note" ∷ "tags" ∷ "created_at" ∷ []

abbrev pub insert_memory : Insert
insert_memory = record {
  into = "contact_memory";
  columns = memory_columns;
  conflict = [];
  updated = [];
}

abbrev pub memory_values : ContactMemoryModel → Value → List Value
memory_values row v =
    text row.id
    ∷ text row.organization_id
    ∷ text row.contact_id
    ∷ text row.thread_id
    ∷ text row.note
    ∷ v
    ∷ time row.created_at
    ∷ []

abbrev pub memory_args : ArrayJson → ContactMemoryModel → Result (List Value)
memory_args json row = with_value (array_value json row.tags) (memory_values row)

abbrev pub contact_by_email : Select
contact_by_email = record {
  columns = contact_columns;
  from = "contacts";
  equals = "organization_id" ∷ "email_address" ∷ [];
  descending = [];
  limit = Limit.unlimited;
}

abbrev pub contact_by_id : Select
contact_by_id = record {
  columns = contact_columns;
  from = "contacts";
  equals = "id" ∷ [];
  descending = [];
  limit = Limit.unlimited;
}

abbrev pub memory_by_contact_id : Select
memory_by_contact_id = record {
  columns = memory_columns;
  from = "contact_memory";
  equals = "contact_id" ∷ [];
  descending = "created_at" ∷ "id" ∷ [];
  limit = Limit.by_argument;
}

module _ {S : Type 0} (db : Db S) where
  abbrev pub scan_contact : Scan ContactModel
  scan_contact = do
    id ← string_dest db
    organization_id ← string_dest db
    email_address ← string_dest db
    display_name ← string_dest db
    last_seen_at ← time_dest
    created_at ← time_dest
    updated_at ← time_dest
    done (record {
      id = id;
      organization_id = organization_id;
      email_address = email_address;
      display_name = display_name;
      last_seen_at = last_seen_at;
      created_at = created_at;
      updated_at = updated_at;
    })

  unfoldable pub find_by_email : String → String → Exec S (Option Contact)
  unfolding contact_from_model
  find_by_email organization_id email_address = optional contact_from_model (
      query_row db scan_contact (Query.select contact_by_email)
        (text organization_id ∷ text email_address ∷ []))

  unfoldable pub upsert_by_email : Contact → Exec S Contact
  unfolding contact_to_model
  upsert_by_email contact =
      saved (db.exec insert_contact (contact_args (contact_to_model contact))) contact

  unfoldable pub get_contact_by_id : String → Exec S Contact
  unfolding contact_from_model
  get_contact_by_id contact_id =
      required (λ row. ok (contact_from_model row))
        (query_row db scan_contact (Query.select contact_by_id) (text contact_id ∷ []))

module _ {S : Type 0} (json : ArrayJson) (db : Db S) where
  abbrev pub scan_memory : Scan ContactMemoryModel
  scan_memory = do
    id ← string_dest db
    organization_id ← string_dest db
    contact_id ← string_dest db
    thread_id ← string_dest db
    note ← string_dest db
    tags ← next (array_scan json)
    created_at ← time_dest
    done (record {
      id = id;
      organization_id = organization_id;
      contact_id = contact_id;
      thread_id = thread_id;
      note = note;
      tags = tags;
      created_at = created_at;
    })

  unfoldable pub create_memory : ContactMemoryEntry → String → Exec S ContactMemoryEntry
  unfolding contact_memory_to_model
  create_memory entry organization_id =
      saved
        (exec_context db insert_memory
          (memory_args json (contact_memory_to_model entry organization_id)))
        entry

  unfoldable pub list_memory_by_contact_id : String → ℤ → Exec S (List ContactMemoryEntry)
  unfolding contact_memory_from_model
  list_memory_by_contact_id contact_id limit =
      query_all scan_memory (λ row. ok (contact_memory_from_model row)) db memory_by_contact_id
        (text contact_id ∷ number (limit_or (pos 10) limit) ∷ [])
