-- ===== src/Examples/Scene.antt =====
-- A process with an inbox, a contact, a thread and a message, and surroundings that answer simply.
use mathlib.Core.List.Permᴰ
use agent_layer.Prelude.{nat_eq, some, [], ◌∷◌, false, if◌then◌else◌}
use agent_layer.Prelude.Int.{pos}
use agent_layer.Prelude.Exec.{Result, ok, err, failure}
use agent_layer.Prelude.Dict.{values}
use agent_layer.Domain.{
  Organization, Agent, Inbox, Contact, Thread, Message, zero_time, zero_thread, zero_message,
  thread_state_active, agent_status_active,
}
use agent_layer.Core.{ParsedMessage, StoredInboundMessage}
use agent_layer.Platform.{Platform}
use agent_layer.Text.{Unicode}
use agent_layer.Webhooks.Signing.{Crypto}
use agent_layer.Memory.State.{Store, new_store}
use agent_layer.Runtime.World.{Env, World}

abbrev pub platform : Platform
platform = record {
  sha256_hex = λ text. text;
  visit = λ V d. values d;
  visit_perm = λ V d. Permᴰ.refl (values d);
}

abbrev pub unicode : Unicode
unicode = record { lower = λ c. c; is_space = λ c. false }

abbrev pub crypto : Crypto
crypto = record {
  hmac_sha256_hex = λ key message. "5f";
  format_time = λ t. "2026-01-01T00:00:00Z";
  utf8 = λ text. 104 ∷ 105 ∷ [];
}

abbrev pub hello : ParsedMessage
hello = record {
  message_id_header = "<m1@example.com>";
  in_reply_to = "";
  references = [];
  subject = "Hello";
  subject_normalized = "hello";
  text_body = "hi";
  html_body = "";
  from = record { email = "ann@example.com"; display_name = "Ann" };
  reply_to = [];
  to = [];
  cc = [];
  attachments = [];
  raw_headers = [];
}

abbrev pub env : Env
env = record {
  platform = platform;
  unicode = unicode;
  crypto = crypto;
  hex = λ n. if nat_eq n 0 then some "00" else some "01";
  clock = λ n. pos 1000;
  provider = λ n request. ok (record { provider_message_id = "p1"; accepted_at = pos 1001 });
  endpoint = λ n input. err (failure "unreachable");
  decode = λ raw. ok hello;
  marshal = λ payload. ok [];
  webhook_url = "";
  webhook_secret = "";
}

abbrev pub received : StoredInboundMessage
received = record {
  receipt = record {
    smtp_transaction_id = "t1";
    organization_id = "org-local";
    agent_id = "agent-local";
    inbox_id = "inbox-local";
    envelope_sender = "ann@example.com";
    envelope_recipients = "agent@localhost" ∷ [];
    raw_message_object_key = "raw/1";
    received_at = pos 500;
  };
  raw_size_bytes = pos 0;
}

abbrev pub organization : Organization
organization = record {
  id = "org-local";
  name = "Local";
  created_at = zero_time;
  updated_at = zero_time;
}

abbrev pub agent : Agent
agent = record {
  id = "agent-local";
  organization_id = "org-local";
  name = "Agent";
  status = agent_status_active;
  webhook_url = "";
  webhook_secret = "";
  created_at = zero_time;
  updated_at = zero_time;
}

abbrev pub inbox : Inbox
inbox = record {
  id = "inbox-local";
  organization_id = "org-local";
  agent_id = "agent-local";
  email_address = "agent@localhost";
  domain = "localhost";
  display_name = "";
  outbound_identity = "";
  created_at = zero_time;
  updated_at = zero_time;
}

abbrev pub ann : Contact
ann = record {
  id = "contact-1";
  organization_id = "org-local";
  email_address = "ann@example.com";
  display_name = "";
  last_seen_at = pos 500;
  created_at = pos 500;
  updated_at = pos 500;
}

abbrev pub thread : Thread
thread = record zero_thread {
  id = "thread-1";
  organization_id = "org-local";
  inbox_id = "inbox-local";
  contact_id = "contact-1";
  subject_normalized = "hello";
  state = thread_state_active;
  last_activity_at = pos 500;
}

-- A message that was sent to the contact earlier.
abbrev pub earlier : Message
earlier = record zero_message {
  id = "message-1";
  organization_id = "org-local";
  thread_id = "thread-1";
  inbox_id = "inbox-local";
  contact_id = "contact-1";
  message_id_header = "<m0@example.com>";
  subject = "Hello";
  provider_message_id = "p0";
}

abbrev pub store : Store
store = record new_store {
  organizations_by_id = ("org-local", organization) ∷ [];
  agents_by_id = ("agent-local", agent) ∷ [];
  inboxes_by_id = ("inbox-local", inbox) ∷ [];
  raw_messages = ("raw/1", 104 ∷ 105 ∷ []) ∷ [];
  contacts_by_id = ("contact-1", ann) ∷ [];
  contacts_by_email = ("ann@example.com", ann) ∷ [];
  threads_by_id = ("thread-1", thread) ∷ [];
  messages_by_id = ("message-1", earlier) ∷ [];
  messages_by_provider_id = ("p0", earlier) ∷ [];
}

abbrev pub world : World
world = record { store = store; draws = 0; reads = 0; sent = []; posts = [] }

-- The result of a run that returns, and a default otherwise.
abbrev pub result_or {ℓ} : {A : Type ℓ} → A → Result A → A
result_or a (ok b) = b
result_or a (err x) = a
