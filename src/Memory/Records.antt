-- ===== src/Memory/Records.antt =====
-- The methods of internal/store/memory/store.go on organizations, agents, inboxes, raw messages,
-- receipts, contacts, threads, memory, suppressions and deliveries that save or read one record.
use agent_layer.Prelude.{String, ◌==◌, Option, none, some, [], ◌∷◌, ◌++◌, if◌then◌else◌}
use agent_layer.Prelude.Exec.{Exec, ok}
use agent_layer.Prelude.Dict
use agent_layer.Domain.{
  Bytes, Organization, Agent, Inbox, Contact, Thread, ContactMemoryEntry, SuppressedAddress,
  WebhookDelivery,
}
use agent_layer.Inbound.Receipt.{DurableReceiptRequest}
use agent_layer.Memory.State.{Store, found_or, or_nil}

unfoldable pub save_organization : Organization → Exec Store Organization
save_organization organization s = (
  ok organization,
  record s { organizations_by_id = Dict.put s.organizations_by_id organization.id organization },
)

unfoldable pub get_organization_by_id : String → Exec Store Organization
get_organization_by_id id s = (found_or "organization" (Dict.get s.organizations_by_id id), s)

unfoldable pub save_agent : Agent → Exec Store Agent
save_agent agent s = (ok agent, record s { agents_by_id = Dict.put s.agents_by_id agent.id agent })

unfoldable pub get_agent_by_id : String → Exec Store Agent
get_agent_by_id id s = (found_or "agent" (Dict.get s.agents_by_id id), s)

-- SeedInbox does the same and returns nothing.
unfoldable pub save_inbox : Inbox → Exec Store Inbox
save_inbox inbox s = (
  ok inbox,
  record s {
    inboxes_by_id = Dict.put s.inboxes_by_id inbox.id inbox;
    inboxes_by_email = Dict.put s.inboxes_by_email inbox.email_address inbox;
  },
)

unfoldable pub get_inbox_by_id : String → Exec Store Inbox
get_inbox_by_id id s = (found_or "inbox" (Dict.get s.inboxes_by_id id), s)

unfoldable pub find_by_email_address : String → Exec Store (Option Inbox)
find_by_email_address email_address s = (ok (Dict.get s.inboxes_by_email email_address), s)

unfoldable pub put_raw : String → Bytes → Exec Store Unit
put_raw object_key content s =
    (ok tt, record s { raw_messages = Dict.put s.raw_messages object_key content })

unfoldable pub get_raw : String → Exec Store Bytes
get_raw object_key s = (found_or "raw message" (Dict.get s.raw_messages object_key), s)

unfoldable pub save_inbound_receipt : DurableReceiptRequest → Exec Store Unit
save_inbound_receipt receipt s = (
  ok tt,
  record s {
    inbound_receipts_by_key =
        Dict.put s.inbound_receipts_by_key receipt.raw_message_object_key receipt;
  },
)

unfoldable pub get_inbound_receipt_by_object_key : String → Exec Store DurableReceiptRequest
get_inbound_receipt_by_object_key object_key s =
    (found_or "inbound receipt" (Dict.get s.inbound_receipts_by_key object_key), s)

-- The organization is not part of the key.
unfoldable pub find_by_email : String → String → Exec Store (Option Contact)
find_by_email organization_id email_address s = (ok (Dict.get s.contacts_by_email email_address), s)

unfoldable pub upsert_by_email : Contact → Exec Store Contact
upsert_by_email contact s = (
  ok contact,
  record s {
    contacts_by_id = Dict.put s.contacts_by_id contact.id contact;
    contacts_by_email = Dict.put s.contacts_by_email contact.email_address contact;
  },
)

unfoldable pub get_contact_by_id : String → Exec Store Contact
get_contact_by_id id s = (found_or "contact" (Dict.get s.contacts_by_id id), s)

unfoldable pub get_thread_by_id : String → Exec Store Thread
get_thread_by_id id s = (found_or "thread" (Dict.get s.threads_by_id id), s)

abbrev pub default_to : String → String → String
default_to value fallback = if value == "" then fallback else value

-- What a partial update of a thread takes over from the thread that is stored.
unfoldable pub merge_thread : Option Thread → Thread → Thread
merge_thread none thread = thread
merge_thread (some existing) thread = record thread {
  organization_id = default_to thread.organization_id existing.organization_id;
  agent_id = default_to thread.agent_id existing.agent_id;
  inbox_id = default_to thread.inbox_id existing.inbox_id;
  contact_id = default_to thread.contact_id existing.contact_id;
  subject_normalized = default_to thread.subject_normalized existing.subject_normalized;
  state = default_to thread.state existing.state;
}

-- Save
unfoldable pub save_thread : Thread → Exec Store Thread
unfolding merge_thread
save_thread thread s =
    let merged = merge_thread (Dict.get s.threads_by_id thread.id) thread in
    (ok merged, record s { threads_by_id = Dict.put s.threads_by_id thread.id merged })

unfoldable pub create_memory : ContactMemoryEntry → Exec Store ContactMemoryEntry
create_memory entry s = (
  ok entry,
  record s {
    memories_by_id = Dict.put s.memories_by_id entry.id entry;
    memories_by_contact_id =
        if entry.contact_id == ""
        then s.memories_by_contact_id
        else Dict.put s.memories_by_contact_id entry.contact_id
            (or_nil (Dict.get s.memories_by_contact_id entry.contact_id) ++ entry.id ∷ []);
  },
)

unfoldable pub save_suppression : SuppressedAddress → Exec Store SuppressedAddress
save_suppression suppression s = (
  ok suppression,
  record s { suppressions_by_id = Dict.put s.suppressions_by_id suppression.id suppression },
)

unfoldable pub get_suppression_by_id : String → Exec Store SuppressedAddress
get_suppression_by_id id s = (found_or "suppression" (Dict.get s.suppressions_by_id id), s)

unfoldable pub save_webhook_delivery : WebhookDelivery → Exec Store WebhookDelivery
save_webhook_delivery delivery s = (
  ok delivery,
  record s { webhook_deliveries_by_id = Dict.put s.webhook_deliveries_by_id delivery.id delivery },
)

unfoldable pub get_webhook_delivery_by_id : String → Exec Store WebhookDelivery
get_webhook_delivery_by_id id s =
    (found_or "webhook delivery" (Dict.get s.webhook_deliveries_by_id id), s)
