-- ===== src/App/Bootstrap.antt =====
-- internal/app/bootstrap_service.go and bootstrap_read_service.go: the organization, the agent and
-- the inbox of a local installation.
use agent_layer.Prelude.{String, ◌==◌, if◌then◌else◌}
use agent_layer.Prelude.Exec.{Exec, pure, ◌>>=◌}
use agent_layer.Domain.{Time, Organization, Agent, Inbox, zero_time, agent_status_active}

pub record BootstrapInput : Type 0 where
  pub organization_name : String
  pub agent_name : String
  pub agent_status : String
  pub webhook_url : String
  pub webhook_secret : String
  pub inbox_address : String
  pub inbox_domain : String
  pub inbox_display_name : String

-- BootstrapResult and BootstrapReadResult
pub record BootstrapResult : Type 0 where
  pub organization : Organization
  pub agent : Agent
  pub inbox : Inbox

pub record Writers (S : Type 0) : Type 0 where
  pub save_organization : Organization → Exec S Organization
  pub save_agent : Agent → Exec S Agent
  pub save_inbox : Inbox → Exec S Inbox

pub record Getters (S : Type 0) : Type 0 where
  pub get_organization_by_id : String → Exec S Organization
  pub get_agent_by_id : String → Exec S Agent
  pub get_inbox_by_id : String → Exec S Inbox

unfoldable pub local_organization : BootstrapInput → Time → Organization
local_organization input now = record {
  id = "org-local";
  name = input.organization_name;
  created_at = zero_time;
  updated_at = now;
}

unfoldable pub local_agent : BootstrapInput → Time → Organization → Agent
local_agent input now organization = record {
  id = "agent-local";
  organization_id = organization.id;
  name = input.agent_name;
  status = if input.agent_status == "" then agent_status_active else input.agent_status;
  webhook_url = input.webhook_url;
  webhook_secret = input.webhook_secret;
  created_at = zero_time;
  updated_at = now;
}

unfoldable pub local_inbox : BootstrapInput → Time → Organization → Agent → Inbox
local_inbox input now organization agent = record {
  id = "inbox-local";
  organization_id = organization.id;
  agent_id = agent.id;
  email_address = input.inbox_address;
  domain = input.inbox_domain;
  display_name = input.inbox_display_name;
  outbound_identity = "";
  created_at = zero_time;
  updated_at = now;
}

module _ {S : Type 0} where
  unfoldable pub bootstrap_local : Writers S → Exec S Time → BootstrapInput → Exec S BootstrapResult
  unfolding local_organization local_agent local_inbox
  bootstrap_local writers clock input = do
    now ← clock
    organization ← writers.save_organization (local_organization input now)
    agent ← writers.save_agent (local_agent input now organization)
    inbox ← writers.save_inbox (local_inbox input now organization agent)
    pure (record { organization = organization; agent = agent; inbox = inbox })

  unfoldable pub get_bootstrap : Getters S → Exec S BootstrapResult
  get_bootstrap getters = do
    organization ← getters.get_organization_by_id "org-local"
    agent ← getters.get_agent_by_id "agent-local"
    inbox ← getters.get_inbox_by_id "inbox-local"
    pure (record { organization = organization; agent = agent; inbox = inbox })
