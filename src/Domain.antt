-- ===== src/Domain.antt =====
-- internal/domain/types.go and errors.go: the records that every component passes round.
-- A Go struct is a record with its fields in order, and a string type with constants is a string
-- with those constants, since the code builds and compares values outside the constants too (the
-- empty state of a partial update). A time is the number of nanoseconds after Go's zero time.
use agent_layer.Prelude.{String, Bool, ◌||◌, ◌==◌, List, [], ℕ}
use agent_layer.Prelude.Int.{ℤ, pos, ltb_ℤ, eqb_ℤ}
use agent_layer.Prelude.Dict.{Dict}

abbrev pub Time : Type 0
Time = ℤ

abbrev pub Bytes : Type 0
Bytes = List ℕ

-- time.Time{}
abbrev pub zero_time : Time
zero_time = pos 0

abbrev pub is_zero : Time → Bool
is_zero t = eqb_ℤ t zero_time

-- t.After(u)
abbrev pub after : Time → Time → Bool
after t u = ltb_ℤ u t

abbrev pub thread_state_active : String
thread_state_active = "ACTIVE"

abbrev pub thread_state_waiting : String
thread_state_waiting = "WAITING"

abbrev pub thread_state_escalated : String
thread_state_escalated = "ESCALATED"

abbrev pub thread_state_resolved : String
thread_state_resolved = "RESOLVED"

abbrev pub thread_state_dormant : String
thread_state_dormant = "DORMANT"

-- ThreadState.IsValid
unfoldable pub thread_state_is_valid : String → Bool
thread_state_is_valid s =
    s == thread_state_active
    || s == thread_state_waiting
    || s == thread_state_escalated
    || s == thread_state_resolved
    || s == thread_state_dormant

abbrev pub message_direction_inbound : String
message_direction_inbound = "inbound"

abbrev pub message_direction_outbound : String
message_direction_outbound = "outbound"

-- MessageDirection.IsValid
unfoldable pub message_direction_is_valid : String → Bool
message_direction_is_valid d = d == message_direction_inbound || d == message_direction_outbound

abbrev pub agent_status_active : String
agent_status_active = "active"

abbrev pub agent_status_paused : String
agent_status_paused = "paused"

abbrev pub agent_status_archived : String
agent_status_archived = "archived"

-- AgentStatus.IsValid
unfoldable pub agent_status_is_valid : String → Bool
agent_status_is_valid s =
    s == agent_status_active || s == agent_status_paused || s == agent_status_archived

pub record Organization : Type 0 where
  pub id : String
  pub name : String
  pub created_at : Time
  pub updated_at : Time

pub record Agent : Type 0 where
  pub id : String
  pub organization_id : String
  pub name : String
  pub status : String
  pub webhook_url : String
  pub webhook_secret : String
  pub created_at : Time
  pub updated_at : Time

pub record Inbox : Type 0 where
  pub id : String
  pub organization_id : String
  pub agent_id : String
  pub email_address : String
  pub domain : String
  pub display_name : String
  pub outbound_identity : String
  pub created_at : Time
  pub updated_at : Time

pub record Contact : Type 0 where
  pub id : String
  pub organization_id : String
  pub email_address : String
  pub display_name : String
  pub last_seen_at : Time
  pub created_at : Time
  pub updated_at : Time

pub record ContactMemoryEntry : Type 0 where
  pub id : String
  pub contact_id : String
  pub thread_id : String
  pub note : String
  pub tags : List String
  pub created_at : Time

pub record Thread : Type 0 where
  pub id : String
  pub organization_id : String
  pub agent_id : String
  pub inbox_id : String
  pub contact_id : String
  pub subject_normalized : String
  pub state : String
  pub last_inbound_id : String
  pub last_outbound_id : String
  pub last_activity_at : Time
  pub created_at : Time
  pub updated_at : Time

pub record Message : Type 0 where
  pub id : String
  pub organization_id : String
  pub thread_id : String
  pub inbox_id : String
  pub contact_id : String
  pub direction : String
  pub subject : String
  pub subject_normalized : String
  pub message_id_header : String
  pub in_reply_to : String
  pub references : List String
  pub text_body : String
  pub html_body : String
  pub raw_mime_object_key : String
  pub delivery_state : String
  pub provider_message_id : String
  pub sent_at : Time
  pub delivered_at : Time
  pub bounced_at : Time
  pub created_at : Time

pub record SuppressedAddress : Type 0 where
  pub id : String
  pub organization_id : String
  pub email_address : String
  pub reason : String
  pub source : String
  pub created_at : Time
  pub updated_at : Time

pub record WebhookDelivery : Type 0 where
  pub id : String
  pub organization_id : String
  pub agent_id : String
  pub event_type : String
  pub event_id : String
  pub request_url : String
  pub request_payload : Bytes
  pub request_headers : Dict String
  pub status : String
  pub attempt_count : ℤ
  pub response_code : ℤ
  pub response_body : Bytes
  pub last_attempt_at : Time
  pub next_attempt_at : Time
  pub created_at : Time
  pub updated_at : Time

-- The zero values of the structs that the code fills only in part.
abbrev pub zero_thread : Thread
zero_thread = record {
  id = "";
  organization_id = "";
  agent_id = "";
  inbox_id = "";
  contact_id = "";
  subject_normalized = "";
  state = "";
  last_inbound_id = "";
  last_outbound_id = "";
  last_activity_at = zero_time;
  created_at = zero_time;
  updated_at = zero_time;
}

abbrev pub zero_message : Message
zero_message = record {
  id = "";
  organization_id = "";
  thread_id = "";
  inbox_id = "";
  contact_id = "";
  direction = "";
  subject = "";
  subject_normalized = "";
  message_id_header = "";
  in_reply_to = "";
  references = [];
  text_body = "";
  html_body = "";
  raw_mime_object_key = "";
  delivery_state = "";
  provider_message_id = "";
  sent_at = zero_time;
  delivered_at = zero_time;
  bounced_at = zero_time;
  created_at = zero_time;
}

abbrev pub zero_delivery : WebhookDelivery
zero_delivery = record {
  id = "";
  organization_id = "";
  agent_id = "";
  event_type = "";
  event_id = "";
  request_url = "";
  request_payload = [];
  request_headers = [];
  status = "";
  attempt_count = pos 0;
  response_code = pos 0;
  response_body = [];
  last_attempt_at = zero_time;
  next_attempt_at = zero_time;
  created_at = zero_time;
  updated_at = zero_time;
}

abbrev pub zero_suppression : SuppressedAddress
zero_suppression = record {
  id = "";
  organization_id = "";
  email_address = "";
  reason = "";
  source = "";
  created_at = zero_time;
  updated_at = zero_time;
}
