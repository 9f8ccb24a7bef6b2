-- ===== src/Runtime/Wiring.antt =====
-- The constructors of cmd/agentlayer/main.go for the inbound side and the webhooks: which method of
-- the memory store each service calls.
use agent_layer.Prelude.{String, ◌==◌, none, some, if◌then◌else◌}
use agent_layer.Prelude.Int.{pos}
use agent_layer.Prelude.Exec.{Exec, ◌>>=◌}
use agent_layer.Prelude.Dict
use agent_layer.Domain.{Organization, Agent, Inbox, WebhookDelivery, zero_time, agent_status_active}
use agent_layer.Core.{MessageParser, ContactResolver, ThreadResolver, WebhookDispatchResult}
use agent_layer.Contacts
use agent_layer.Threading
use agent_layer.Inbound.Recorder.{Repositories, process, record_inbound}
use agent_layer.Inbound.Service as InboundService
use agent_layer.Inbound.Service.{HandleResult, DuplicateLookup}
use agent_layer.Memory.State.{Store}
use agent_layer.Memory.Records
use agent_layer.Memory.Messages
use agent_layer.Memory.Listing
use agent_layer.Webhooks.Signing
use agent_layer.Webhooks.Attempts
use agent_layer.Webhooks.Delivery
use agent_layer.Webhooks.Delivery.{DispatchInput, DeliverMessageReceivedInput, DeliveryResult}
use agent_layer.App.InboundRuntime
use agent_layer.App.InboundRuntime.{InboundRuntimeConfig}
use agent_layer.Runtime.World.{Env, World, on_store, ambient, call_endpoint}

module _ (env : Env) where
  abbrev pub thread_lookup : Threading.ThreadLookupRepository World
  thread_lookup = record {
    find_by_message_id = λ h. on_store (Messages.find_by_message_id env.platform h);
    find_most_recent_by_subject =
        λ o i c n. on_store (Listing.find_most_recent_by_subject env.platform o i c n);
  }

  abbrev pub contact_repository : Contacts.Repository World
  contact_repository = record { find_by_email = λ o e. on_store (Records.find_by_email o e) }

  -- parser.New(runtimeStore): the raw message is read, and its content decoded.
  abbrev pub message_parser : MessageParser World
  message_parser = record {
    parse = λ stored. on_store (Records.get_raw stored.receipt.raw_message_object_key) >>= λ raw w.
        (env.decode raw, w);
  }

  abbrev pub contact_resolver : ContactResolver World
  contact_resolver = record { resolve = Contacts.resolve contact_repository (ambient env) }

  -- threading.NewResolver
  abbrev pub thread_resolver : ThreadResolver World
  thread_resolver = record {
    resolve =
        Threading.resolve thread_lookup (ambient env)
          (Threading.new_config (record { dormant_threshold = Threading.thirty_days }));
  }

  abbrev pub inbound_repositories : Repositories World
  inbound_repositories = record {
    upsert_by_email = λ c. on_store (Records.upsert_by_email c);
    save = λ t. on_store (Records.save_thread t);
    create = λ m. on_store (Messages.create_message env.platform m);
  }

  abbrev pub duplicate_lookup : DuplicateLookup World
  duplicate_lookup = record {
    find_inbound_by_header =
        λ inbox_id header. on_store (Messages.find_inbound_by_header env.platform inbox_id header);
    get_by_id = λ id. on_store (Records.get_thread_by_id id);
    get_contact_by_id = λ id. on_store (Records.get_contact_by_id id);
  }

  -- inbound.NewServiceWithDuplicateLookup(newInboundProcessor(), newInboundRecorder(), runtimeStore)
  abbrev pub inbound_base : InboundService.Service World
  inbound_base = record {
    process = process message_parser contact_resolver thread_resolver;
    record_inbound = record_inbound inbound_repositories (ambient env);
    duplicates = some duplicate_lookup;
  }

  unfoldable pub current_organization : Store → Organization
  current_organization s = elim (Dict.get s.organizations_by_id "org-local") [
    | none ↦ record {
      id = "org-local";
      name = "AgentLayer Local";
      created_at = zero_time;
      updated_at = zero_time;
    }
    | some organization ↦ organization
  ]

  unfoldable pub current_agent : Store → Agent
  current_agent s = elim (Dict.get s.agents_by_id "agent-local") [
    | none ↦ record {
      id = "agent-local";
      organization_id = "org-local";
      name = "Local Agent";
      status = agent_status_active;
      webhook_url = env.webhook_url;
      webhook_secret = env.webhook_secret;
      created_at = zero_time;
      updated_at = zero_time;
    }
    | some agent ↦ record agent {
      webhook_url = if agent.webhook_url == "" then env.webhook_url else agent.webhook_url;
      webhook_secret =
          if agent.webhook_secret == "" then env.webhook_secret else agent.webhook_secret;
    }
  ]

  unfoldable pub current_inbox : Store → Inbox
  current_inbox s = elim (Dict.get s.inboxes_by_id "inbox-local") [
    | none ↦ record {
      id = "inbox-local";
      organization_id = "org-local";
      agent_id = "agent-local";
      email_address = "agent@localhost";
      domain = "localhost";
      display_name = "AgentLayer Local";
      outbound_identity = "";
      created_at = zero_time;
      updated_at = zero_time;
    }
    | some inbox ↦ inbox
  ]

  unfoldable pub inbound_config : Store → InboundRuntimeConfig
  unfolding current_organization current_agent current_inbox
  inbound_config s = record {
    organization = current_organization s;
    agent = current_agent s;
    inbox = current_inbox s;
    webhook_url = (current_agent s).webhook_url;
    webhook_secret = (current_agent s).webhook_secret;
    history_limit = pos 20;
    memory_limit = pos 10;
  }

  abbrev pub record_webhook_attempt :
      WebhookDelivery → WebhookDispatchResult → Exec World WebhookDelivery
  record_webhook_attempt = Attempts.record_attempt (λ d. on_store (Records.save_webhook_delivery d))

  abbrev pub dispatch_webhook : DispatchInput → Exec World WebhookDispatchResult
  dispatch_webhook = Delivery.dispatch (call_endpoint env) (ambient env).now

  abbrev pub webhook_service : Delivery.Service World
  webhook_service = record {
    build = Delivery.build env.crypto.format_time env.marshal;
    sign = Signing.sign env.crypto (ambient env).now;
    dispatch = dispatch_webhook;
  }

  -- newInboundService, with what it reads of the store when it is built.
  abbrev pub inbound_runtime : Store → InboundRuntime.Service World
  inbound_runtime built_at = record {
    handle = InboundService.handle_stored_message inbound_base;
    list_by_thread_id = λ id limit. on_store (Listing.list_by_thread_id id limit);
    list_memory_by_contact_id = λ id limit. on_store (Listing.list_memory_by_contact_id id limit);
    webhooks = some (Delivery.deliver_and_record webhook_service record_webhook_attempt);
    ambient = ambient env;
    config = InboundRuntime.with_limits (inbound_config built_at);
  }

  -- newWebhookReplayService
  abbrev pub replay_webhook : String → Exec World DeliveryResult
  replay_webhook =
      Delivery.replay_delivery (λ id. on_store (Records.get_webhook_delivery_by_id id))
        dispatch_webhook record_webhook_attempt
