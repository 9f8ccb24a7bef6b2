-- ===== src/Runtime/Reply.antt =====
-- The outbound side of cmd/agentlayer/main.go: the reply service over the memory store, and the
-- adapter that makes a submission with an idempotency key happen once.
use agent_layer.Prelude.{String, ◌==◌, Option, none, some, if◌then◌else◌}
use agent_layer.Prelude.Exec.{Exec, pure, ◌>>=◌, ◌>>◌}
use agent_layer.Domain.{Message}
use agent_layer.Platform.{reply_submission_key}
use agent_layer.Memory.Records
use agent_layer.Memory.Messages
use agent_layer.Memory.Listing
use agent_layer.Outbound.Assembler
use agent_layer.Outbound.Recorders
use agent_layer.Outbound.Service
use agent_layer.Outbound.Service.{SendReplyInput, SendReplyResult}
use agent_layer.Outbound.Callback
use agent_layer.Runtime.World.{Env, World, on_store, ambient, call_provider}

module _ (env : Env) where
  abbrev pub outbound_recorder : Recorders.Recorder World
  outbound_recorder = record {
    create = λ m. on_store (Messages.create_message env.platform m);
    threads = some (λ t. on_store (Records.save_thread t));
    raw = some (λ key content. on_store (Records.put_raw key content));
    utf8 = env.crypto.utf8;
  }

  abbrev pub save_message : Message → Exec World Message
  save_message m = on_store (Messages.save_message env.platform m)

  -- newReplyService
  abbrev pub reply_service : Service.Service World
  reply_service = record {
    assemble_reply = Assembler.assemble_reply env.unicode "<generated@agentlayer.local>";
    record_queued_reply = Recorders.record_queued_reply outbound_recorder (ambient env);
    send_queued_reply = Recorders.send_queued_reply (call_provider env);
    record_sent = Recorders.record_sent save_message;
    suppressions = some (λ o e. on_store (Listing.is_suppressed env.platform o e));
    now = (ambient env).now;
    utf8 = env.crypto.utf8;
  }

  -- newOutboundCallbackFlow
  abbrev pub callback_service : Callback.CallbackService World
  callback_service = record {
    find_by_provider_message_id = λ id. on_store (Messages.find_by_provider_message_id id);
    record_status = Recorders.record_status save_message;
  }

  unfoldable pub apply_delivery_callback :
      Callback.CallbackFlowInput → Exec World Callback.CallbackFlowResult
  apply_delivery_callback =
      Callback.apply callback_service (λ r. on_store (Records.save_suppression r)) (ambient env)

  abbrev pub or_local : String → String → String
  or_local id local = if id == "" then local else id

  -- The records of the store that a submission stands for.
  unfoldable pub load_reply : SendReplyInput → Exec World SendReplyInput
  load_reply input = do
    organization ←
        on_store (Records.get_organization_by_id (or_local input.organization.id "org-local"))
    agent ← on_store (Records.get_agent_by_id (or_local input.agent.id "agent-local"))
    inbox ← on_store (Records.get_inbox_by_id (or_local input.inbox.id "inbox-local"))
    thread ← on_store (Records.get_thread_by_id input.thread.id)
    contact ← on_store (Records.get_contact_by_id (or_local input.contact.id thread.contact_id))
    reply_to_message ← on_store (Messages.get_message_by_id input.reply_to_message.id)
    pure (record {
      organization = organization;
      agent = agent;
      inbox = inbox;
      thread = thread;
      reply_to_message = reply_to_message;
      contact = contact;
      body_text = input.body_text;
      object_key = input.object_key;
      idempotency_key = input.idempotency_key;
    })

  abbrev pub submission_key : SendReplyInput → String
  submission_key input = reply_submission_key env.platform input.thread.id input.idempotency_key

  -- The reply that an earlier submission with the same key made, if the key is given.
  unfoldable pub earlier_reply : SendReplyInput → Exec World (Option Message)
  earlier_reply input =
      if input.idempotency_key == ""
      then pure none
      else on_store (Messages.find_reply_by_submission_key (submission_key input))

  unfoldable pub report_earlier : SendReplyInput → Message → Exec World SendReplyResult
  report_earlier input existing = do
    thread ← on_store (Records.get_thread_by_id input.thread.id)
    pure (record {
      thread = thread;
      message = existing;
      send_result = record {
        provider_message_id = existing.provider_message_id;
        accepted_at = existing.sent_at;
      };
    })

  unfoldable pub remember_reply : SendReplyInput → SendReplyResult → Exec World Unit
  remember_reply input result =
      if input.idempotency_key == ""
      then pure tt
      else on_store (Messages.save_reply_submission (submission_key input) result.message.id)

  unfoldable pub submit_new : SendReplyInput → Exec World SendReplyResult
  submit_new input = do
    loaded ← load_reply input
    result ← Service.send_reply reply_service loaded
    remember_reply input result
    pure result

  -- replyServiceAdapter.SendReply
  unfoldable pub submit_reply : SendReplyInput → Exec World SendReplyResult
  submit_reply input = do
    earlier ← earlier_reply input
    elim earlier [ some existing ↦ report_earlier input existing | none ↦ submit_new input ]
