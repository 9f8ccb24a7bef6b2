-- ===== src/Memory/State.antt =====
-- The maps of internal/store/memory/store.go, and reading one of them by key.
use agent_layer.Prelude.{String, Option, none, some, List, []}
use agent_layer.Prelude.Exec.{Result, ok, err, not_found}
use agent_layer.Prelude.Dict.{Dict}
use agent_layer.Domain.{
  Bytes, Organization, Agent, Inbox, Contact, Thread, Message, ContactMemoryEntry,
  SuppressedAddress, WebhookDelivery,
}
use agent_layer.Inbound.Receipt.{DurableReceiptRequest}

pub record Store : Type 0 where
  pub organizations_by_id : Dict Organization
  pub agents_by_id : Dict Agent
  pub raw_messages : Dict Bytes
  pub inboxes_by_id : Dict Inbox
  pub inboxes_by_email : Dict Inbox
  pub inbound_receipts_by_key : Dict DurableReceiptRequest
  pub contacts_by_id : Dict Contact
  pub contacts_by_email : Dict Contact
  pub threads_by_id : Dict Thread
  pub messages_by_id : Dict Message
  pub messages_by_inbound_key : Dict String
  pub messages_by_provider_id : Dict Message
  pub messages_by_thread_id : Dict (List String)
  pub reply_submissions_by_key : Dict String
  pub memories_by_id : Dict ContactMemoryEntry
  pub memories_by_contact_id : Dict (List String)
  pub suppressions_by_id : Dict SuppressedAddress
  pub webhook_deliveries_by_id : Dict WebhookDelivery

-- NewStore
abbrev pub new_store : Store
new_store = record {
  organizations_by_id = [];
  agents_by_id = [];
  raw_messages = [];
  inboxes_by_id = [];
  inboxes_by_email = [];
  inbound_receipts_by_key = [];
  contacts_by_id = [];
  contacts_by_email = [];
  threads_by_id = [];
  messages_by_id = [];
  messages_by_inbound_key = [];
  messages_by_provider_id = [];
  messages_by_thread_id = [];
  reply_submissions_by_key = [];
  memories_by_id = [];
  memories_by_contact_id = [];
  suppressions_by_id = [];
  webhook_deliveries_by_id = [];
}

-- `value, ok := m[key]; if !ok { return ErrNotFound }`
abbrev pub found_or : {A : Type 0} → String → Option A → Result A
found_or what none = err (not_found what)
found_or what (some a) = ok a

abbrev pub or_nil : Option (List String) → List String
or_nil none = []
or_nil (some l) = l
