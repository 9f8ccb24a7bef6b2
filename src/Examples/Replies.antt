-- ===== src/Examples/Replies.antt =====
-- A reply that is sent, and sent again; a callback; and a reply that is refused.
use agent_layer.Prelude.{String, false, eq_iff, ◌≢◌, [], ◌∷◌, ◌≡◌, refl, arith}
use agent_layer.Prelude.Int.{pos}
use agent_layer.Prelude.Exec.{Result, ok, err, recipient_suppressed}
use agent_layer.Prelude.Dict
use agent_layer.Text.{has_prefix, to_lower, trim_space}
use agent_layer.Domain.{SuppressedAddress}
use agent_layer.Memory.Records
use agent_layer.Memory.Messages
use agent_layer.Memory.Listing
use agent_layer.Outbound.Assembler
use agent_layer.Outbound.Recorders
use agent_layer.Outbound.Service.{SendReplyInput, SendReplyResult, send_reply}
use agent_layer.Outbound.Service as Replying
use agent_layer.Outbound.Callback
use agent_layer.Outbound.Callback.{CallbackFlowInput, CallbackFlowResult}
use agent_layer.Runtime.World.{World}
use agent_layer.Runtime.Reply
use agent_layer.Core
use agent_layer.Platform
use agent_layer.Text
use agent_layer.Text.Join
use agent_layer.Runtime.Reply.{apply_delivery_callback, reply_service, submit_reply}
use agent_layer.Runtime.Suppression.{bounce_blocks_replies}
use agent_layer.Runtime.Replies.{Ends, send_reply-Ends}
use agent_layer.Runtime.Submissions.{submit_again}
use agent_layer.Examples.Scene.{
  env, world, organization, agent, inbox, ann, thread, earlier, result_or,
}

abbrev reply : SendReplyInput
reply = record {
  organization = organization;
  agent = agent;
  inbox = inbox;
  thread = thread;
  reply_to_message = earlier;
  contact = ann;
  body_text = "hello";
  object_key = "out/1";
  idempotency_key = "k1";
}

abbrev suppression : SuppressedAddress
suppression = record {
  id = "s1";
  organization_id = "org-local";
  email_address = "ann@example.com";
  reason = "complaint";
  source = "provider_callback";
  created_at = pos 1;
  updated_at = pos 1;
}

abbrev bounce : CallbackFlowInput
bounce = record {
  event = record { provider_message_id = "p0"; status = "hard_bounce"; occurred_at = pos 2000 };
  contact = ann;
}

abbrev bounced : Result CallbackFlowResult × World
unfolding apply_delivery_callback
bounced = apply_delivery_callback env bounce world

abbrev zero_result : CallbackFlowResult
zero_result = record {
  message = earlier;
  suppression =
      Callback.suppression_record ""
        (record { message = earlier; contact = ann; status = ""; occurred_at = pos 0 });
  suppressed = false;
}

bounce_blocks_replies_example :
    send_reply (reply_service env) reply bounced.1 ≡ (err recipient_suppressed, bounced.1)
unfolding bounced apply_delivery_callback Callback.apply Callback.apply_callback
    Messages.find_by_provider_message_id Recorders.record_status Messages.save_message
    Callback.apply_suppression Callback.suppress Records.save_suppression Dict.get Dict.put
    Recorders.with_status
bounce_blocks_replies_example =
    bounce_blocks_replies env bounce world bounced.1 (result_or zero_result bounced.0) reply refl
      refl refl refl

abbrev assembled : Result (String × Assembler.ReplyMetadata)
assembled =
    Assembler.assemble_reply env.unicode "<generated@agentlayer.local>"
      (Replying.assembly_input reply)

abbrev metadata : Assembler.ReplyMetadata
metadata = record {
  message_id_header = "<generated@agentlayer.local>";
  subject = "Re: Hello";
  in_reply_to = "<m0@example.com>";
  references = "<m0@example.com>" ∷ [];
}

abbrev text : String
text = Assembler.raw_reply env.unicode metadata (Replying.assembly_input reply)

assembled_lem : assembled ≡ ok (text, metadata)
unfolding Assembler.assemble_reply Assembler.reply_subject Assembler.reply_metadata has_prefix
    to_lower trim_space
assembled_lem = refl

out_1-ne-empty : ◌≢◌ {A = String} "out/1" ""
out_1-ne-empty = ground (arith, eq_iff "out/1" "")

k1-ne-empty : ◌≢◌ {A = String} "k1" ""
k1-ne-empty = ground (arith, eq_iff "k1" "")

send_reply-Ends_example : Ends env reply text world (send_reply (reply_service env) reply world)
unfolding Listing.is_suppressed Dict.values
send_reply-Ends_example =
    send_reply-Ends env reply text metadata world
      (record { allowed = refl; assembled = assembled_lem; keyed = out_1-ne-empty })

abbrev submitted : Result SendReplyResult × World
unfolding submit_reply
submitted = submit_reply env reply world

abbrev no_answer : SendReplyResult
no_answer = record {
  thread = thread;
  message = earlier;
  send_result = record { provider_message_id = ""; accepted_at = pos 0 };
}

submitted_lem : submitted ≡ (ok (result_or no_answer submitted.0), submitted.1)
unfolding submitted submit_reply Dict.get Reply.earlier_reply Messages.find_reply_by_submission_key
    Reply.submit_new Reply.load_reply Records.get_organization_by_id Records.get_agent_by_id
    Records.get_inbox_by_id Records.get_thread_by_id Records.get_contact_by_id
    Messages.get_message_by_id send_reply Listing.is_suppressed Dict.values Assembler.assemble_reply
    Recorders.record_queued_reply Records.put_raw Messages.create_message Core.generated_id
    Listing.scan_suppressed Messages.save_message Messages.save_reply_submission
    Records.merge_thread Records.save_thread Assembler.format_address Assembler.raw_reply
    Assembler.reply_metadata Assembler.reply_subject Recorders.keep_raw
    Recorders.new_outbound_message_id Recorders.queued_message Recorders.record_sent
    Recorders.send_queued_reply Recorders.sent_message Recorders.touch_thread
    Replying.check_suppressed Replying.deliver_queued Replying.queue_reply
    Platform.inbound_message_key Platform.reply_submission_key Platform.scoped_key Dict.put
    Reply.remember_reply Reply.report_earlier Join.join has_prefix Text.lower_char Text.space_char
    to_lower Text.trim_left Text.trim_right trim_space
submitted_lem = refl

submit_again_example :
    submit_reply env reply submitted.1 ≡ (ok (result_or no_answer submitted.0), submitted.1)
unfolding submitted Dict.get
submit_again_example =
    submit_again env reply world submitted.1 (result_or no_answer submitted.0) k1-ne-empty
      (λ t e. cc) submitted_lem
