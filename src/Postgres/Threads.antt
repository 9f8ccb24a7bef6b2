-- ===== src/Postgres/Threads.antt =====
-- internal/store/postgres/threads.go.
use agent_layer.Prelude.{String, Option, List, [], ◌∷◌}
use agent_layer.Prelude.Exec.{Exec, ok}
use agent_layer.Domain.{Thread}
use agent_layer.Rows.Mail.{ThreadModel, thread_to_model, thread_from_model}
use agent_layer.Postgres.Sql.{Value, text, time, Insert, Select, Limit, Query, Db}
use agent_layer.Postgres.Scans.{Scan, ◌>>=◌, done, string_dest, time_dest}
use agent_layer.Postgres.Calls.{query_row, required, optional, saved}

abbrev pub thread_columns : List String
thread_columns =
    "id" ∷ "organization_id" ∷ "agent_id" ∷ "inbox_id" ∷ "contact_id" ∷ "subject_normalized"
    ∷ "state" ∷ "last_inbound_id" ∷ "last_outbound_id" ∷ "last_activity_at" ∷ "created_at"
    ∷ "updated_at" ∷ []

abbrev pub insert_thread : Insert
insert_thread = record {
  into = "threads";
  columns = thread_columns;
  conflict = "id" ∷ [];
  updated =
      "organization_id" ∷ "agent_id" ∷ "inbox_id" ∷ "contact_id" ∷ "subject_normalized" ∷ "state"
      ∷ "last_inbound_id" ∷ "last_outbound_id" ∷ "last_activity_at" ∷ "updated_at" ∷ [];
}

abbrev pub thread_args : ThreadModel → List Value
thread_args row =
    text row.id
    ∷ text row.organization_id
    ∷ text row.agent_id
    ∷ text row.inbox_id
    ∷ text row.contact_id
    ∷ text row.subject_normalized
    ∷ text row.state
    ∷ text row.last_inbound_id
    ∷ text row.last_outbound_id
    ∷ time row.last_activity_at
    ∷ time row.created_at
    ∷ time row.updated_at
    ∷ []

abbrev pub thread_by_id : Select
thread_by_id = record {
  columns = thread_columns;
  from = "threads";
  equals = "id" ∷ [];
  descending = [];
  limit = Limit.unlimited;
}

abbrev pub thread_by_subject : Select
thread_by_subject = record {
  columns = thread_columns;
  from = "threads";
  equals = "organization_id" ∷ "inbox_id" ∷ "contact_id" ∷ "subject_normalized" ∷ [];
  descending = "last_activity_at" ∷ "id" ∷ [];
  limit = Limit.one;
}

module _ {S : Type 0} (db : Db S) where
  abbrev pub scan_thread : Scan ThreadModel
  scan_thread = do
    id ← string_dest db
    organization_id ← string_dest db
    agent_id ← string_dest db
    inbox_id ← string_dest db
    contact_id ← string_dest db
    subject_normalized ← string_dest db
    state ← string_dest db
    last_inbound_id ← string_dest db
    last_outbound_id ← string_dest db
    last_activity_at ← time_dest
    created_at ← time_dest
    updated_at ← time_dest
    done (record {
      id = id;
      organization_id = organization_id;
      agent_id = agent_id;
      inbox_id = inbox_id;
      contact_id = contact_id;
      subject_normalized = subject_normalized;
      state = state;
      last_inbound_id = last_inbound_id;
      last_outbound_id = last_outbound_id;
      last_activity_at = last_activity_at;
      created_at = created_at;
      updated_at = updated_at;
    })

  unfoldable pub save : Thread → Exec S Thread
  unfolding thread_to_model
  save thread = saved (db.exec insert_thread (thread_args (thread_to_model thread))) thread

  unfoldable pub get_by_id : String → Exec S Thread
  unfolding thread_from_model
  get_by_id thread_id =
      required (λ row. ok (thread_from_model row))
        (query_row db scan_thread (Query.select thread_by_id) (text thread_id ∷ []))

  unfoldable pub find_most_recent_by_subject :
      String → String → String → String → Exec S (Option Thread)
  unfolding thread_from_model
  find_most_recent_by_subject organization_id inbox_id contact_id subject_normalized =
      optional thread_from_model (
        query_row db scan_thread (Query.select thread_by_subject)
          (text organization_id ∷ text inbox_id ∷ text contact_id ∷ text subject_normalized ∷ []))
