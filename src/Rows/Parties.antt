-- ===== src/Rows/Parties.antt =====
-- internal/store/models.go and convert.go: the rows of organizations, agents, inboxes and contacts,
-- and the notes on a contact. A copy of a slice is the slice, since a list is never written to.
use agent_layer.Prelude.{String, List}
use agent_layer.Domain.{Time, Organization, Agent, Inbox, Contact, ContactMemoryEntry}

pub record OrganizationModel : Type 0 where
  pub id : String
  pub name : String
  pub created_at : Time
  pub updated_at : Time

pub record AgentModel : Type 0 where
  pub id : String
  pub organization_id : String
  pub name : String
  pub status : String
  pub webhook_url : String
  pub webhook_secret : String
  pub created_at : Time
  pub updated_at : Time

pub record InboxModel : Type 0 where
  pub id : String
  pub organization_id : String
  pub agent_id : String
  pub email_address : String
  pub domain : String
  pub display_name : String
  pub outbound_identity : String
  pub created_at : Time
  pub updated_at : Time

pub record ContactModel : Type 0 where
  pub id : String
  pub organization_id : String
  pub email_address : String
  pub display_name : String
  pub last_seen_at : Time
  pub created_at : Time
  pub updated_at : Time

pub record ContactMemoryModel : Type 0 where
  pub id : String
  pub organization_id : String
  pub contact_id : String
  pub thread_id : String
  pub note : String
  pub tags : List String
  pub created_at : Time

unfoldable pub organization_to_model : Organization → OrganizationModel
organization_to_model organization = record {
  id = organization.id;
  name = organization.name;
  created_at = organization.created_at;
  updated_at = organization.updated_at;
}

unfoldable pub organization_from_model : OrganizationModel → Organization
organization_from_model row = record {
  id = row.id;
  name = row.name;
  created_at = row.created_at;
  updated_at = row.updated_at;
}

unfoldable pub agent_to_model : Agent → AgentModel
agent_to_model agent = record {
  id = agent.id;
  organization_id = agent.organization_id;
  name = agent.name;
  status = agent.status;
  webhook_url = agent.webhook_url;
  webhook_secret = agent.webhook_secret;
  created_at = agent.created_at;
  updated_at = agent.updated_at;
}

unfoldable pub agent_from_model : AgentModel → Agent
agent_from_model row = record {
  id = row.id;
  organization_id = row.organization_id;
  name = row.name;
  status = row.status;
  webhook_url = row.webhook_url;
  webhook_secret = row.webhook_secret;
  created_at = row.created_at;
  updated_at = row.updated_at;
}

unfoldable pub inbox_to_model : Inbox → InboxModel
inbox_to_model inbox = record {
  id = inbox.id;
  organization_id = inbox.organization_id;
  agent_id = inbox.agent_id;
  email_address = inbox.email_address;
  domain = inbox.domain;
  display_name = inbox.display_name;
  outbound_identity = inbox.outbound_identity;
  created_at = inbox.created_at;
  updated_at = inbox.updated_at;
}

unfoldable pub inbox_from_model : InboxModel → Inbox
inbox_from_model row = record {
  id = row.id;
  organization_id = row.organization_id;
  agent_id = row.agent_id;
  email_address = row.email_address;
  domain = row.domain;
  display_name = row.display_name;
  outbound_identity = row.outbound_identity;
  created_at = row.created_at;
  updated_at = row.updated_at;
}

unfoldable pub contact_to_model : Contact → ContactModel
contact_to_model contact = record {
  id = contact.id;
  organization_id = contact.organization_id;
  email_address = contact.email_address;
  display_name = contact.display_name;
  last_seen_at = contact.last_seen_at;
  created_at = contact.created_at;
  updated_at = contact.updated_at;
}

unfoldable pub contact_from_model : ContactModel → Contact
contact_from_model row = record {
  id = row.id;
  organization_id = row.organization_id;
  email_address = row.email_address;
  display_name = row.display_name;
  last_seen_at = row.last_seen_at;
  created_at = row.created_at;
  updated_at = row.updated_at;
}

unfoldable pub contact_memory_to_model : ContactMemoryEntry → String → ContactMemoryModel
contact_memory_to_model entry organization_id = record {
  id = entry.id;
  organization_id = organization_id;
  contact_id = entry.contact_id;
  thread_id = entry.thread_id;
  note = entry.note;
  tags = entry.tags;
  created_at = entry.created_at;
}

unfoldable pub contact_memory_from_model : ContactMemoryModel → ContactMemoryEntry
contact_memory_from_model row = record {
  id = row.id;
  contact_id = row.contact_id;
  thread_id = row.thread_id;
  note = row.note;
  tags = row.tags;
  created_at = row.created_at;
}
