-- ===== src/Runtime/Store.antt =====
-- cmd/agentlayer/runtime_store.go: the store of the process as an interface, and the one that puts the
-- stores of internal/store/postgres and a store for raw messages behind it. A method that only hands
-- its call on is the field's value.
use agent_layer.Prelude.{String, Bool, Option, List}
use agent_layer.Prelude.Int.{ℤ}
use agent_layer.Prelude.Exec.{Exec, ◌>>=◌}
use agent_layer.Domain.{
  Time, Bytes, Organization, Agent, Inbox, Contact, Thread, Message, ContactMemoryEntry,
  SuppressedAddress, WebhookDelivery, zero_time, agent_status_active,
}
use agent_layer.Inbound.Receipt.{DurableReceiptRequest}
use agent_layer.Rows.Delivery.{HeaderJson}
use agent_layer.Postgres.Sql.{Db, ArrayJson}
use agent_layer.Postgres.Bootstrap
use agent_layer.Postgres.Contacts
use agent_layer.Postgres.Threads
use agent_layer.Postgres.Messages
use agent_layer.Postgres.Receipts
use agent_layer.Postgres.Suppressions
use agent_layer.Postgres.Deliveries

-- appStore
pub record AppStore (S : Type 0) : Type 0 where
  pub save_organization : Organization → Exec S Organization
  pub get_organization_by_id : String → Exec S Organization
  pub save_agent : Agent → Exec S Agent
  pub get_agent_by_id : String → Exec S Agent
  pub save_inbox : Inbox → Exec S Inbox
  pub get_inbox_by_id : String → Exec S Inbox
  pub find_by_email_address : String → Exec S (Option Inbox)
  pub put : String → Bytes → Exec S (Unit {0})
  pub get : String → Exec S Bytes
  pub save_inbound_receipt : DurableReceiptRequest → Exec S (Unit {0})
  pub get_inbound_receipt_by_object_key : String → Exec S DurableReceiptRequest
  pub list_inbound_receipts : ℤ → Exec S (List DurableReceiptRequest)
  pub find_by_email : String → String → Exec S (Option Contact)
  pub upsert_by_email : Contact → Exec S Contact
  pub get_contact_by_id : String → Exec S Contact
  pub get_by_id : String → Exec S Thread
  pub save : Thread → Exec S Thread
  pub find_by_message_id : String → Exec S (Option Thread)
  pub find_most_recent_by_subject : String → String → String → String → Exec S (Option Thread)
  pub create : Message → Exec S Message
  pub save_message : Message → Exec S Message
  pub list_by_thread_id : String → ℤ → Exec S (List Message)
  pub find_by_provider_message_id : String → Exec S (Option Message)
  pub find_inbound_by_header : String → String → Exec S (Option Message)
  pub find_reply_by_submission_key : String → Exec S (Option Message)
  pub get_message_by_id : String → Exec S Message
  pub save_reply_submission : String → String → Exec S (Unit {0})
  pub create_memory : ContactMemoryEntry → Exec S ContactMemoryEntry
  pub list_memory_by_contact_id : String → ℤ → Exec S (List ContactMemoryEntry)
  pub save_suppression : SuppressedAddress → Exec S SuppressedAddress
  pub is_suppressed : String → String → Exec S Bool
  pub get_suppression_by_id : String → Exec S SuppressedAddress
  pub list_suppressions : ℤ → Exec S (List SuppressedAddress)
  pub save_webhook_delivery : WebhookDelivery → Exec S WebhookDelivery
  pub get_webhook_delivery_by_id : String → Exec S WebhookDelivery
  pub list_webhook_deliveries : ℤ → Exec S (List WebhookDelivery)

-- A store for raw messages: internal/store/blobfs or blobs3.
pub record RawStore (S : Type 0) : Type 0 where
  pub put : String → Bytes → Exec S (Unit {0})
  pub get : String → Exec S Bytes

module _ {S : Type 0} (json : ArrayJson) (headers : HeaderJson) (db : Db S) where
  -- The organization is that of the contact.
  unfoldable pub create_memory : ContactMemoryEntry → Exec S ContactMemoryEntry
  unfolding Contacts.get_contact_by_id Contacts.create_memory
  create_memory entry = do
    contact ← Contacts.get_contact_by_id db entry.contact_id
    Contacts.create_memory json db entry contact.organization_id

  -- `clock` is time.Now.
  unfoldable pub save_reply_submission : Exec S Time → String → String → Exec S (Unit {0})
  unfolding Messages.save_reply_submission
  save_reply_submission clock submission_key message_id = do
    now ← clock
    Messages.save_reply_submission json db submission_key message_id now

  -- newPostgresRuntimeStore, with its methods.
  unfoldable pub new_postgres_runtime_store : RawStore S → Exec S Time → AppStore S
  new_postgres_runtime_store raw clock = record {
    save_organization = Bootstrap.save_organization db;
    get_organization_by_id = Bootstrap.get_organization_by_id db;
    save_agent = Bootstrap.save_agent db;
    get_agent_by_id = Bootstrap.get_agent_by_id db;
    save_inbox = Bootstrap.save_inbox db;
    get_inbox_by_id = Bootstrap.get_inbox_by_id db;
    find_by_email_address = Bootstrap.find_by_email_address db;
    put = raw.put;
    get = raw.get;
    save_inbound_receipt = Receipts.save_inbound_receipt json db;
    get_inbound_receipt_by_object_key = Receipts.get_inbound_receipt_by_object_key json db;
    list_inbound_receipts = Receipts.list_inbound_receipts json db;
    find_by_email = Contacts.find_by_email db;
    upsert_by_email = Contacts.upsert_by_email db;
    get_contact_by_id = Contacts.get_contact_by_id db;
    get_by_id = Threads.get_by_id db;
    save = Threads.save db;
    find_by_message_id = Messages.find_by_message_id json db;
    find_most_recent_by_subject = Threads.find_most_recent_by_subject db;
    create = Messages.create json db;
    save_message = Messages.save json db;
    list_by_thread_id = Messages.list_by_thread_id json db;
    find_by_provider_message_id = Messages.find_by_provider_message_id json db;
    find_inbound_by_header = Messages.find_inbound_by_header json db;
    find_reply_by_submission_key = Messages.find_reply_by_submission_key json db;
    get_message_by_id = Messages.get_message_by_id json db;
    save_reply_submission = save_reply_submission clock;
    create_memory = create_memory;
    list_memory_by_contact_id = Contacts.list_memory_by_contact_id json db;
    save_suppression = Suppressions.save db;
    is_suppressed = Suppressions.is_suppressed db;
    get_suppression_by_id = Suppressions.get_by_id db;
    list_suppressions = Suppressions.list db;
    save_webhook_delivery = Deliveries.save_webhook_delivery headers db;
    get_webhook_delivery_by_id = Deliveries.get_webhook_delivery_by_id headers db;
    list_webhook_deliveries = Deliveries.list_webhook_deliveries headers db;
  }

abbrev pub seed_organization : Organization
seed_organization = record {
  id = "org-local";
  name = "AgentLayer Local";
  created_at = zero_time;
  updated_at = zero_time;
}

abbrev pub seed_agent : Agent
seed_agent = record {
  id = "agent-local";
  organization_id = "org-local";
  name = "Local Agent";
  status = agent_status_active;
  webhook_url = "";
  webhook_secret = "";
  created_at = zero_time;
  updated_at = zero_time;
}

abbrev pub seed_inbox : Inbox
seed_inbox = record {
  id = "inbox-local";
  organization_id = "org-local";
  agent_id = "agent-local";
  email_address = "agent@localhost";
  domain = "localhost";
  display_name = "AgentLayer Local";
  outbound_identity = "";
  created_at = zero_time;
  updated_at = zero_time;
}

-- seedLocalRuntime: errors are ignored.
module _ {S : Type 0} (store : AppStore S) where
  unfoldable pub seed_local_runtime : S → S
  seed_local_runtime s =
      let s₁ = (store.save_organization seed_organization s).1 in
      let s₂ = (store.save_agent seed_agent s₁).1 in (store.save_inbox seed_inbox s₂).1
