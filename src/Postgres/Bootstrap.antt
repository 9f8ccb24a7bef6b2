-- ===== src/Postgres/Bootstrap.antt =====
-- internal/store/postgres/bootstrap.go.
use agent_layer.Prelude.{String, Option, List, [], ◌∷◌}
use agent_layer.Prelude.Exec.{Exec, ok}
use agent_layer.Domain.{Organization, Agent, Inbox}
use agent_layer.Rows.Parties.{
  OrganizationModel, AgentModel, InboxModel, organization_to_model, organization_from_model,
  agent_to_model, agent_from_model, inbox_to_model, inbox_from_model,
}
use agent_layer.Postgres.Sql.{Value, text, time, Insert, Select, Limit, Query, Db}
use agent_layer.Postgres.Scans.{Scan, ◌>>=◌, done, string_dest, time_dest}
use agent_layer.Postgres.Calls.{query_row, required, optional, saved}

abbrev pub organization_columns : List String
organization_columns = "id" ∷ "name" ∷ "created_at" ∷ "updated_at" ∷ []

abbrev pub insert_organization : Insert
insert_organization = record {
  into = "organizations";
  columns = organization_columns;
  conflict = "id" ∷ [];
  updated = "name" ∷ "updated_at" ∷ [];
}

abbrev pub organization_args : OrganizationModel → List Value
organization_args row = text row.id ∷ text row.name ∷ time row.created_at ∷ time row.updated_at ∷ []

abbrev pub agent_columns : List String
agent_columns =
    "id" ∷ "organization_id" ∷ "name" ∷ "status" ∷ "webhook_url" ∷ "webhook_secret" ∷ "created_at"
    ∷ "updated_at" ∷ []

abbrev pub insert_agent : Insert
insert_agent = record {
  into = "agents";
  columns = agent_columns;
  conflict = "id" ∷ [];
  updated =
      "organization_id" ∷ "name" ∷ "status" ∷ "webhook_url" ∷ "webhook_secret" ∷ "updated_at" ∷ [];
}

abbrev pub agent_args : AgentModel → List Value
agent_args row =
    text row.id
    ∷ text row.organization_id
    ∷ text row.name
    ∷ text row.status
    ∷ text row.webhook_url
    ∷ text row.webhook_secret
    ∷ time row.created_at
    ∷ time row.updated_at
    ∷ []

abbrev pub inbox_columns : List String
inbox_columns =
    "id" ∷ "organization_id" ∷ "agent_id" ∷ "email_address" ∷ "domain" ∷ "display_name"
    ∷ "outbound_identity" ∷ "created_at" ∷ "updated_at" ∷ []

abbrev pub insert_inbox : Insert
insert_inbox = record {
  into = "inboxes";
  columns = inbox_columns;
  conflict = "id" ∷ [];
  updated =
      "organization_id" ∷ "agent_id" ∷ "email_address" ∷ "domain" ∷ "display_name"
      ∷ "outbound_identity" ∷ "updated_at" ∷ [];
}

abbrev pub inbox_args : InboxModel → List Value
inbox_args row =
    text row.id
    ∷ text row.organization_id
    ∷ text row.agent_id
    ∷ text row.email_address
    ∷ text row.domain
    ∷ text row.display_name
    ∷ text row.outbound_identity
    ∷ time row.created_at
    ∷ time row.updated_at
    ∷ []

abbrev pub organization_by_id : Select
organization_by_id = record {
  columns = organization_columns;
  from = "organizations";
  equals = "id" ∷ [];
  descending = [];
  limit = Limit.unlimited;
}

abbrev pub agent_by_id : Select
agent_by_id = record {
  columns = agent_columns;
  from = "agents";
  equals = "id" ∷ [];
  descending = [];
  limit = Limit.unlimited;
}

abbrev pub inbox_by_id : Select
inbox_by_id = record {
  columns = inbox_columns;
  from = "inboxes";
  equals = "id" ∷ [];
  descending = [];
  limit = Limit.unlimited;
}

abbrev pub inbox_by_email_address : Select
inbox_by_email_address = record {
  columns = inbox_columns;
  from = "inboxes";
  equals = "email_address" ∷ [];
  descending = [];
  limit = Limit.unlimited;
}

module _ {S : Type 0} (db : Db S) where
  abbrev pub scan_organization : Scan OrganizationModel
  scan_organization = do
    id ← string_dest db
    name ← string_dest db
    created_at ← time_dest
    updated_at ← time_dest
    done (record { id = id; name = name; created_at = created_at; updated_at = updated_at })

  abbrev pub scan_agent : Scan AgentModel
  scan_agent = do
    id ← string_dest db
    organization_id ← string_dest db
    name ← string_dest db
    status ← string_dest db
    webhook_url ← string_dest db
    webhook_secret ← string_dest db
    created_at ← time_dest
    updated_at ← time_dest
    done (record {
      id = id;
      organization_id = organization_id;
      name = name;
      status = status;
      webhook_url = webhook_url;
      webhook_secret = webhook_secret;
      created_at = created_at;
      updated_at = updated_at;
    })

  abbrev pub scan_inbox : Scan InboxModel
  scan_inbox = do
    id ← string_dest db
    organization_id ← string_dest db
    agent_id ← string_dest db
    email_address ← string_dest db
    domain ← string_dest db
    display_name ← string_dest db
    outbound_identity ← string_dest db
    created_at ← time_dest
    updated_at ← time_dest
    done (record {
      id = id;
      organization_id = organization_id;
      agent_id = agent_id;
      email_address = email_address;
      domain = domain;
      display_name = display_name;
      outbound_identity = outbound_identity;
      created_at = created_at;
      updated_at = updated_at;
    })

  unfoldable pub save_organization : Organization → Exec S Organization
  unfolding organization_to_model
  save_organization organization =
      saved (db.exec insert_organization (organization_args (organization_to_model organization)))
        organization

  unfoldable pub get_organization_by_id : String → Exec S Organization
  unfolding organization_from_model
  get_organization_by_id organization_id =
      required (λ row. ok (organization_from_model row))
        (query_row db scan_organization (Query.select organization_by_id)
          (text organization_id ∷ []))

  unfoldable pub save_agent : Agent → Exec S Agent
  unfolding agent_to_model
  save_agent agent = saved (db.exec insert_agent (agent_args (agent_to_model agent))) agent

  unfoldable pub get_agent_by_id : String → Exec S Agent
  unfolding agent_from_model
  get_agent_by_id agent_id =
      required (λ row. ok (agent_from_model row))
        (query_row db scan_agent (Query.select agent_by_id) (text agent_id ∷ []))

  unfoldable pub save_inbox : Inbox → Exec S Inbox
  unfolding inbox_to_model
  save_inbox inbox = saved (db.exec insert_inbox (inbox_args (inbox_to_model inbox))) inbox

  unfoldable pub get_inbox_by_id : String → Exec S Inbox
  unfolding inbox_from_model
  get_inbox_by_id inbox_id =
      required (λ row. ok (inbox_from_model row))
        (query_row db scan_inbox (Query.select inbox_by_id) (text inbox_id ∷ []))

  unfoldable pub find_by_email_address : String → Exec S (Option Inbox)
  unfolding inbox_from_model
  find_by_email_address email_address =
      optional inbox_from_model
        (query_row db scan_inbox (Query.select inbox_by_email_address) (text email_address ∷ []))
