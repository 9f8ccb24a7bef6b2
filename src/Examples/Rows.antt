-- ===== src/Examples/Rows.antt =====
-- Records that are saved in a database and read again.
use agent_layer.Prelude.{true, some, List, [], ◌∷◌, ◌≡◌, length, ◌<◌, refl}
use agent_layer.Prelude.Int.{pos, pos_part}
use agent_layer.Prelude.Exec.{Exec, ok, err, failure}
use agent_layer.Domain.{
  Agent, Time, Contact, Thread, SuppressedAddress, WebhookDelivery, Time, zero_thread,
  zero_delivery,
}
use agent_layer.Rows.Delivery.{HeaderJson}
use agent_layer.Postgres.Sql.{ArrayJson}
use agent_layer.Postgres.Calls.{limit_or}
use agent_layer.Postgres.Unreadable.{null_time_error, save-Unreadable}
use agent_layer.Postgres.Lookups.{LookupsFit, lookups-Fit, is_suppressed-save}
use agent_layer.Postgres.Bootstrap
use agent_layer.Runtime.Store.{
  AppStore, RawStore, new_postgres_runtime_store, seed_local_runtime, seed_organization, seed_agent,
}
use agent_layer.Runtime.Seeding.{seed-Forgets}
use agent_layer.Postgres.Contacts
use agent_layer.Postgres.Threads
use agent_layer.Postgres.Suppressions
use agent_layer.Postgres.Deliveries
use agent_layer.Examples.Database.{Tables, Has, database, inserted}
use agent_layer.Examples.Database
use agent_layer.Examples.Database.Laws.{database-IsSql}

abbrev no_rows : Tables
no_rows name = []

abbrev headers : HeaderJson
headers = record { marshal = λ h. ok (1 ∷ []); unmarshal = λ b. ok [] }

abbrev arrays : ArrayJson
arrays = record {
  marshal = λ l. err (failure "unknown");
  unmarshal = λ b. ok [];
  bytes_of = λ s. [];
}

abbrev delivery : WebhookDelivery
delivery = record zero_delivery { id = "d1"; status = "succeeded"; last_attempt_at = pos 5 }

abbrev with_delivery : Tables
with_delivery = (Deliveries.save_webhook_delivery headers database delivery no_rows).1

delivery_saved :
    Deliveries.save_webhook_delivery headers database delivery no_rows
    ≡ (ok delivery, with_delivery)
unfolding Deliveries.save_webhook_delivery
delivery_saved = refl

save-Unreadable_example :
    ((Deliveries.get_webhook_delivery_by_id headers database "d1" with_delivery).0
      ≡ err null_time_error)
    × ((ds : List WebhookDelivery)
        → (Deliveries.list_webhook_deliveries headers database (pos 0) with_delivery).0 ≡ ok ds
        → ¬ (length ds < pos_part (limit_or (pos 20) (pos 0))))
save-Unreadable_example =
    save-Unreadable Has headers database database-IsSql delivery delivery no_rows with_delivery
      (pos 0) refl delivery_saved (_, refl, refl)

abbrev contact : Contact
contact = record {
  id = "c1";
  organization_id = "o1";
  email_address = "a@b";
  display_name = "";
  last_seen_at = pos 5000;
  created_at = pos 5000;
  updated_at = pos 5000;
}

abbrev with_contact : Tables
with_contact = (Contacts.upsert_by_email database contact no_rows).1

contact_found : (Contacts.find_by_email database "o1" "a@b" with_contact).0 ≡ ok (some contact)
unfolding Contacts.find_by_email Contacts.upsert_by_email inserted Database.keep Database.clash
contact_found = refl

lookups-Fit_example : LookupsFit database
lookups-Fit_example = lookups-Fit Has database database-IsSql

abbrev suppression : SuppressedAddress
suppression = record {
  id = "s1";
  organization_id = "o1";
  email_address = "a@b";
  reason = "complaint";
  source = "provider";
  created_at = pos 5;
  updated_at = pos 5;
}

abbrev with_suppression : Tables
with_suppression = (Suppressions.save database suppression no_rows).1

suppression_saved :
    Suppressions.save database suppression no_rows ≡ (ok suppression, with_suppression)
unfolding Suppressions.save
suppression_saved = refl

is_suppressed-save_example :
    (Suppressions.is_suppressed database "o1" "a@b" with_suppression).0 ≡ ok true
is_suppressed-save_example =
    is_suppressed-save Has database database-IsSql suppression suppression no_rows with_suppression
      suppression_saved (_, refl, refl)

abbrev thread : Thread
thread = record zero_thread {
  id = "t1";
  organization_id = "o1";
  inbox_id = "i1";
  contact_id = "c1";
  subject_normalized = "hello";
}

abbrev with_thread : Tables
with_thread = (Threads.save database thread no_rows).1

thread_found :
    (Threads.find_most_recent_by_subject database "o1" "i1" "c1" "hello" with_thread).0
    ≡ ok (some thread)
unfolding Threads.find_most_recent_by_subject Threads.save inserted Database.keep Database.clash
thread_found = refl

abbrev raw : RawStore Tables
raw = record { put = λ key content s. (ok tt, s); get = λ key s. (err (failure "none"), s) }

abbrev clock : Exec Tables Time
clock s = (ok (pos 9), s)

abbrev store : AppStore Tables
store = new_postgres_runtime_store arrays headers database raw clock

-- An installation that a bootstrap had set up.
abbrev set_up : Tables
set_up =
    (Bootstrap.save_agent database
      (record seed_agent { webhook_url = "http://localhost"; webhook_secret = "x" }) no_rows).1

agent_set_up :
    (Bootstrap.get_agent_by_id database "agent-local" set_up).0
    ≡ ok (record seed_agent { webhook_url = "http://localhost"; webhook_secret = "x" })
unfolding Bootstrap.save_agent Bootstrap.get_agent_by_id inserted Database.keep Database.clash
agent_set_up = refl

seeded : store.save_agent seed_agent (store.save_organization seed_organization set_up).1 ≡ (
  ok seed_agent,
  (store.save_agent seed_agent (store.save_organization seed_organization set_up).1).1,
)
unfolding new_postgres_runtime_store Bootstrap.save_agent
seeded = refl

seed-Forgets_example :
    (b : Agent) × ((store.get_agent_by_id "agent-local" (seed_local_runtime store set_up)).0 ≡ ok b)
    × (b.webhook_url ≡ "")
    × (b.webhook_secret ≡ "")
unfolding new_postgres_runtime_store Bootstrap.get_agent_by_id
seed-Forgets_example =
    seed-Forgets Has arrays headers database database-IsSql raw clock set_up
      (store.save_agent seed_agent (store.save_organization seed_organization set_up).1).1
      seed_agent seeded (_, refl, refl)
