-- ===== src/Examples/Requests.antt =====
-- Requests to the HTTP interface: what is shown, a reply that is posted twice, one to a suppressed
-- address, and a callback.
use agent_layer.Prelude.{
  ◌==◌, if◌then◌else◌, inr, ℕ, String, true, some, none, eq_iff, ◌≢◌, ◌≡◌, [], ◌∷◌, refl, arith,
}
use agent_layer.Prelude.Int.{pos}
use agent_layer.Prelude.Exec.{Exec, ok, err, failure}
use agent_layer.Prelude.Dict
use agent_layer.Domain.{Thread, SuppressedAddress}
use agent_layer.Core
use agent_layer.Platform
use agent_layer.Text
use agent_layer.Text.{has_prefix, to_lower, trim_space}
use agent_layer.Text.Fields.{nonempty}
use agent_layer.Text.Join
use agent_layer.Memory.Records
use agent_layer.Memory.Messages
use agent_layer.Memory.Listing
use agent_layer.Outbound.Assembler
use agent_layer.Outbound.Recorders
use agent_layer.Outbound.Service as Replying
use agent_layer.Outbound.Service.{SendReplyInput}
use agent_layer.Outbound.Callback.{DeliveryCallbackEvent}
use agent_layer.Api.{Formats, Request, Response}
use agent_layer.Api.Paths
use agent_layer.Api.Paths.{split_path, split_slashes}
use agent_layer.Api.Routes.{split_path-split_slashes}
use agent_layer.Api.Ids.{IsSegment, ReadsIds, has_slash, route-ReadsIds}
use agent_layer.Api.Refusals.{Services, Decoders, KeepOnBadRequest, bad_request-Keeps}
use agent_layer.Api.Reply as Posting
use agent_layer.Api.Reply.{ReplyRequest, ReplyResponse}
use agent_layer.Runtime.World.{World}
use agent_layer.Runtime.Reply
use agent_layer.Runtime.Submissions.{remembered}
use agent_layer.Runtime.Http.{post_reply}
use agent_layer.Runtime.Http.Posted.{posted, post_reply_again, post_reply_suppressed}
use agent_layer.Examples.Scene.{
  env, world, store, organization, agent, inbox, ann, thread, earlier, unicode,
}

abbrev formats : Formats
formats = record {
  atoi = λ text. none;
  http_time = λ t. "Thu, 01 Jan 2026 00:00:00 GMT";
  rfc3339 = λ t. "2026-01-01T00:00:00Z";
}

abbrev request : Request
request = record {
  path = "/threads/thread-1/reply";
  query = λ name. "";
  header = λ name. if name == "Idempotency-Key" then "k1" else "";
  body = record { bytes = []; complete = true };
}

split_path-split_slashes_example :
    split_path "/threads//t1/" ≡ nonempty (split_slashes "/threads//t1/")
split_path-split_slashes_example = split_path-split_slashes "/threads//t1/"

thread_1-ne-empty : ◌≢◌ {A = String} "thread-1" ""
thread_1-ne-empty = ground (arith, eq_iff "thread-1" "")

thread_1-IsSegment : IsSegment "thread-1"
unfolding has_slash
thread_1-IsSegment = (refl, thread_1-ne-empty)

route-ReadsIds_example : ReadsIds "thread-1"
route-ReadsIds_example = route-ReadsIds "thread-1" thread_1-IsSegment

-- Services that all fail, and that count their calls.
abbrev failing : {A : Type 0} → Exec ℕ A
failing n = (err (failure "unavailable"), n)

abbrev services : Services ℕ
services = record {
  bootstrap = λ input. failing;
  reprocess = λ key. failing;
  create_memory = λ id input. failing;
  escalate = λ id reason. failing;
  replay = λ id. failing;
  retry = λ limit. failing;
  apply_callback = λ input. failing;
  send_reply = λ input. failing;
}

abbrev decoders : Decoders
decoders = record {
  bootstrap = λ body. none;
  object_key = λ body. some "raw/1";
  memory = λ body. none;
  reason = λ body. some "angry";
  contact_email = λ body. none;
  callback = λ body. err (failure "no event");
  reply = λ body. none;
}

bad_request-Keeps_example : KeepOnBadRequest unicode formats decoders services request 0
bad_request-Keeps_example = bad_request-Keeps unicode formats decoders services request 0

abbrev payload : ReplyRequest
payload = record {
  organization_id = "";
  agent_id = "";
  inbox_id = "";
  contact_id = "";
  idempotency_key = " ";
  reply_to_message_id = "message-1";
  body_text = "hello";
  object_key = "out/1";
}

abbrev answered : Response ReplyResponse × World
unfolding post_reply
answered = post_reply env (λ body. some payload) request world

abbrev reply_answer : ReplyResponse
reply_answer = record {
  message_id = "message-00";
  thread_id = "thread-1";
  subject = "Re: Hello";
  delivery_state = "sent";
  provider_message_id = "p1";
}

answered_lem : answered ≡ (Response.encoded 202 reply_answer, answered.1)
unfolding answered post_reply Posting.reply_handler Paths.thread_id_from_path split_slashes
    Paths.trim_slashes_left Paths.trim_slashes_right Posting.reply_problem Posting.reply_input
    Posting.reply_key Posting.reply_response Reply.submit_reply Dict.get Reply.earlier_reply
    Messages.find_reply_by_submission_key Reply.submit_new Reply.load_reply
    Records.get_organization_by_id Records.get_agent_by_id Records.get_inbox_by_id
    Records.get_thread_by_id Records.get_contact_by_id Messages.get_message_by_id
    Replying.send_reply Listing.is_suppressed Dict.values Assembler.assemble_reply
    Recorders.record_queued_reply Records.put_raw Messages.create_message Core.generated_id
    Listing.scan_suppressed Messages.save_message Messages.save_reply_submission
    Records.merge_thread Records.save_thread Assembler.format_address Assembler.raw_reply
    Assembler.reply_metadata Assembler.reply_subject Recorders.keep_raw
    Recorders.new_outbound_message_id Recorders.queued_message Recorders.record_sent
    Recorders.send_queued_reply Recorders.sent_message Recorders.touch_thread
    Replying.check_suppressed Replying.deliver_queued Replying.queue_reply
    Platform.inbound_message_key Platform.reply_submission_key Platform.scoped_key Dict.put
    Reply.remember_reply Reply.report_earlier Join.join has_prefix Text.lower_char Text.space_char
    to_lower Text.trim_left Text.trim_right trim_space
answered_lem = refl

k1-ne-empty : ◌≢◌ {A = String} "k1" ""
k1-ne-empty = ground (arith, eq_iff "k1" "")

path_lem : Paths.thread_id_from_path "/threads/thread-1/reply" ≡ "thread-1"
unfolding Paths.thread_id_from_path split_slashes Paths.trim_slashes_left Paths.trim_slashes_right
path_lem = refl

key_lem : trim_space unicode (request.header "Idempotency-Key") ≡ "k1"
unfolding trim_space Text.trim_left Text.trim_right Text.space_char
key_lem = refl

kept : (t : Thread) → Dict.get world.store.threads_by_id "thread-1" ≡ some t → t.id ≡ "thread-1"
unfolding Dict.get
kept t e = cc

post_reply_again_example :
    post_reply env (λ body. some payload) request answered.1
    ≡ (Response.encoded 202 reply_answer, answered.1)
unfolding answered
post_reply_again_example =
    post_reply_again env (λ body. some payload) request payload world answered.1 202 reply_answer
      refl (inr (rw key_lem k1-ne-empty)) (λ t. rw path_lem (kept t)) answered_lem

abbrev suppression : SuppressedAddress
suppression = record {
  id = "s1";
  organization_id = "org-local";
  email_address = "ann@example.com";
  reason = "complaint";
  source = "provider_callback";
  created_at = pos 1;
  updated_at = pos 1;
}

abbrev suppressing : World
suppressing = record world {
  store = record store { suppressions_by_id = ("s1", suppression) ∷ [] };
}

abbrev loaded : SendReplyInput
loaded = record {
  organization = organization;
  agent = agent;
  inbox = inbox;
  thread = thread;
  reply_to_message = earlier;
  contact = ann;
  body_text = "hello";
  object_key = "out/1";
  idempotency_key = "k1";
}

complete_lem : Posting.reply_problem unicode payload ≡ none
unfolding Posting.reply_problem trim_space Text.trim_left Text.trim_right Text.space_char
complete_lem = refl

unknown_lem : remembered env (posted env (λ body. some payload) request payload) suppressing ≡ none
unfolding Dict.get
unknown_lem = refl

loaded_lem :
    Reply.load_reply env (posted env (λ body. some payload) request payload) suppressing
    ≡ (ok loaded, suppressing)
unfolding Reply.load_reply Posting.reply_input Posting.reply_key Records.get_organization_by_id
    Records.get_agent_by_id Records.get_inbox_by_id Records.get_thread_by_id
    Records.get_contact_by_id Messages.get_message_by_id Dict.get Paths.thread_id_from_path
    split_slashes Paths.trim_slashes_left Paths.trim_slashes_right trim_space Text.trim_left
    Text.trim_right Text.space_char
loaded_lem = refl

post_reply_suppressed_example :
    post_reply env (λ body. some payload) request suppressing
    ≡ (Response.refused 409 "recipient is suppressed", suppressing)
unfolding Dict.get
post_reply_suppressed_example =
    post_reply_suppressed env (λ body. some payload) request payload loaded "s1" suppression
      suppressing (rw path_lem thread_1-ne-empty) refl complete_lem unknown_lem loaded_lem refl refl

abbrev event : DeliveryCallbackEvent
event = record { provider_message_id = "p0"; status = "hard_bounce"; occurred_at = pos 2000 }
