-- ===== src/Api/Reply.antt =====
-- internal/api/reply_handler.go.
use agent_layer.Prelude.{String, Bool, Option, none, some, ◌==◌, if◌then◌else◌}
use agent_layer.Prelude.Exec.{Exec, Error, recipient_suppressed}
use agent_layer.Domain.{Organization, Agent, Inbox, Contact, zero_time, zero_thread, zero_message}
use agent_layer.Text.{Unicode, trim_space}
use agent_layer.Outbound.Service.{SendReplyInput, SendReplyResult}
use agent_layer.Api.{RequestBody, Request, Handler, Response, answer, write_lookup_error}
use agent_layer.Api.Paths.{thread_id_from_path}

pub record ReplyRequest : Type 0 where
  pub organization_id : String
  pub agent_id : String
  pub inbox_id : String
  pub contact_id : String
  pub idempotency_key : String
  pub reply_to_message_id : String
  pub body_text : String
  pub object_key : String

pub record ReplyResponse : Type 0 where
  pub message_id : String
  pub thread_id : String
  pub subject : String
  pub delivery_state : String
  pub provider_message_id : String

unfoldable pub reply_response : SendReplyResult → ReplyResponse
reply_response result = record {
  message_id = result.message.id;
  thread_id = result.message.thread_id;
  subject = result.message.subject;
  delivery_state = result.message.delivery_state;
  provider_message_id = result.message.provider_message_id;
}

-- Structs with only the id set.
abbrev pub organization_of_id : String → Organization
organization_of_id id = record {
  id = id;
  name = "";
  created_at = zero_time;
  updated_at = zero_time;
}

abbrev pub agent_of_id : String → Agent
agent_of_id id = record {
  id = id;
  organization_id = "";
  name = "";
  status = "";
  webhook_url = "";
  webhook_secret = "";
  created_at = zero_time;
  updated_at = zero_time;
}

abbrev pub inbox_of_id : String → Inbox
inbox_of_id id = record {
  id = id;
  organization_id = "";
  agent_id = "";
  email_address = "";
  domain = "";
  display_name = "";
  outbound_identity = "";
  created_at = zero_time;
  updated_at = zero_time;
}

abbrev pub contact_of_id : String → Contact
contact_of_id id = record {
  id = id;
  organization_id = "";
  email_address = "";
  display_name = "";
  last_seen_at = zero_time;
  created_at = zero_time;
  updated_at = zero_time;
}

module _ (unicode : Unicode) where
  -- The first required field that is blank.
  unfoldable pub reply_problem : ReplyRequest → Option String
  reply_problem payload =
      if trim_space unicode payload.reply_to_message_id == ""
      then some "reply_to_message_id is required"
      else if trim_space unicode payload.body_text == ""
      then some "body_text is required"
      else if trim_space unicode payload.object_key == ""
      then some "object_key is required"
      else none

  -- The key of the payload, or that of the header if the payload's is blank.
  unfoldable pub reply_key : Request → ReplyRequest → String
  reply_key request payload =
      if trim_space unicode payload.idempotency_key == ""
      then trim_space unicode (request.header "Idempotency-Key")
      else payload.idempotency_key

  unfoldable pub reply_input : String → Request → ReplyRequest → SendReplyInput
  reply_input thread_id request payload = record {
    organization = organization_of_id payload.organization_id;
    agent = agent_of_id payload.agent_id;
    inbox = inbox_of_id payload.inbox_id;
    thread = record zero_thread { id = thread_id };
    reply_to_message = record zero_message { id = payload.reply_to_message_id };
    contact = contact_of_id payload.contact_id;
    body_text = payload.body_text;
    object_key = payload.object_key;
    idempotency_key = reply_key request payload;
  }

  -- errors.Is(err, outbound.ErrRecipientSuppressed)
  abbrev pub is_suppressed_error : Error → Bool
  is_suppressed_error recipient_suppressed = Bool.true
  is_suppressed_error (Error.not_found message) = Bool.false
  is_suppressed_error Error.provider_message_not_found = Bool.false
  is_suppressed_error Error.replay_request_unavailable = Bool.false
  is_suppressed_error (Error.failure message) = Bool.false

  unfoldable pub reply_refused : Error → Response ReplyResponse
  reply_refused e =
      if is_suppressed_error e
      then Response.refused 409 "recipient is suppressed"
      else write_lookup_error "reply context not found" "failed to send reply" e

  module _ {S : Type 0} where
    unfoldable pub reply_handler :
        (RequestBody → Option ReplyRequest)
        → (SendReplyInput → Exec S SendReplyResult)
        → Handler S ReplyResponse
    reply_handler decode send_reply request s =
        let thread_id = thread_id_from_path request.path in
        if thread_id == ""
        then (Response.refused 400 "thread id is required", s)
        else elim (decode request.body) [
          | none ↦ (Response.refused 400 "invalid json payload", s)
          | some payload ↦ elim (reply_problem payload) [
            | some problem ↦ (Response.refused 400 problem, s)
            | none ↦
                answer (send_reply (reply_input thread_id request payload)) reply_refused
                  (λ result. Response.encoded 202 (reply_response result)) s
          ]
        ]
