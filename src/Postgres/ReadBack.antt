-- ===== src/Postgres/ReadBack.antt =====
-- What is saved through internal/store/postgres is what is read afterwards: bootstrap.go, contacts.go
-- and threads.go.
use agent_layer.Prelude.{String, some, List, [], ◌∷◌, ◌≡◌}
use agent_layer.Prelude.Exec.{Result, ok}
use agent_layer.Domain.{Time, Organization, Agent, Inbox, Contact, Thread}
use agent_layer.Rows.Parties.{
  organization_to_model, agent_to_model, inbox_to_model, contact_to_model,
}
use agent_layer.Rows.Mail.{thread_to_model}
use agent_layer.Postgres.Sql.{Value, text, Insert, Query, Db}
use agent_layer.Postgres.Tables.{Row, row_of, IsSql}
use agent_layer.Postgres.Stored.{Answers, IsCreated}
use agent_layer.Postgres.Bootstrap
use agent_layer.Postgres.Bootstrap.{
  insert_organization, organization_args, organization_by_id, insert_agent, agent_args, agent_by_id,
  insert_inbox, inbox_args, inbox_by_id,
}
use agent_layer.Postgres.Contacts
use agent_layer.Postgres.Contacts.{insert_contact, contact_args, contact_by_email}
use agent_layer.Postgres.Threads
use agent_layer.Postgres.Threads.{insert_thread, thread_args, thread_by_id}

module _ {S : Type 0} (Has : S → String → Row → Type 0) (db : Db S) (sql : IsSql Has db) where
  -- A time as the database keeps it, to the microsecond.
  abbrev pub micro : Time → Time
  micro = sql.storage.rounded

  -- The read that follows returns what was saved, with its own time of creation, or that of the row
  -- that the save updated.
  abbrev pub ReadsAs : {B : Type 0} → Insert → List Value → S → Result B → (Time → B) → Type 0
  ReadsAs statement args s result f =
      (c : Time) × IsCreated Has statement (row_of sql.storage statement.columns args) s c
      × (result ≡ ok (f c))

  -- For each pair of a save that returns and a read by its key that the database answers.
  pub record SavesReadBack : Type 0 where
    pub organization :
        (o o' : Organization) (s s' : S)
        → Bootstrap.save_organization db o s ≡ (ok o', s')
        → Answers db (Query.select organization_by_id) (text o.id ∷ []) s'
        → (o' ≡ o)
          × ReadsAs insert_organization
              (organization_args (organization_to_model o))
              s
              (Bootstrap.get_organization_by_id db o.id s').0
              (λ c. record o { updated_at = micro o.updated_at; created_at = c })
    pub agent :
        (a a' : Agent) (s s' : S)
        → Bootstrap.save_agent db a s ≡ (ok a', s')
        → Answers db (Query.select agent_by_id) (text a.id ∷ []) s'
        → (a' ≡ a)
          × ReadsAs insert_agent
              (agent_args (agent_to_model a))
              s
              (Bootstrap.get_agent_by_id db a.id s').0
              (λ c. record a { updated_at = micro a.updated_at; created_at = c })
    pub inbox :
        (i i' : Inbox) (s s' : S)
        → Bootstrap.save_inbox db i s ≡ (ok i', s')
        → Answers db (Query.select inbox_by_id) (text i.id ∷ []) s'
        → (i' ≡ i)
          × ReadsAs insert_inbox
              (inbox_args (inbox_to_model i))
              s
              (Bootstrap.get_inbox_by_id db i.id s').0
              (λ c. record i { updated_at = micro i.updated_at; created_at = c })
    pub thread :
        (t t' : Thread) (s s' : S)
        → Threads.save db t s ≡ (ok t', s')
        → Answers db (Query.select thread_by_id) (text t.id ∷ []) s'
        → (t' ≡ t)
          × ReadsAs insert_thread
              (thread_args (thread_to_model t))
              s
              (Threads.get_by_id db t.id s').0
              (λ c. record t {
                last_activity_at = micro t.last_activity_at;
                updated_at = micro t.updated_at;
                created_at = c;
              })
    pub contact :
        (x x' : Contact) (s s' : S)
        → Contacts.upsert_by_email db x s ≡ (ok x', s')
        → Answers db
            (Query.select contact_by_email)
            (text x.organization_id ∷ text x.email_address ∷ [])
            s'
        → (x' ≡ x)
          × ReadsAs insert_contact
              (contact_args (contact_to_model x))
              s
              (Contacts.find_by_email db x.organization_id x.email_address s').0
              (λ c. some (record x {
                last_seen_at = micro x.last_seen_at;
                updated_at = micro x.updated_at;
                created_at = c;
              }))
