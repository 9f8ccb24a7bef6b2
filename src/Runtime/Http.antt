-- ===== src/Runtime/Http.antt =====
-- The handlers of `newServer` of cmd/agentlayer/main.go, each over the services that the process
-- gives it. Shown and Listed have the theorems about what is read, Posted those about what is sent.
pub mod Shown
pub mod Listed
pub mod Posted
use agent_layer.Prelude.{String, Option, List}
use agent_layer.Prelude.Int.{ℤ, pos}
use agent_layer.Prelude.Exec.{Exec, Result, pure, ◌>>=◌}
use agent_layer.Domain.{Bytes, Thread, Contact, SuppressedAddress, WebhookDelivery, Message}
use agent_layer.Inbound.Receipt.{DurableReceiptRequest}
use agent_layer.Memory.State.{Store}
use agent_layer.Memory.Records
use agent_layer.Memory.Listing
use agent_layer.Outbound.Callback.{DeliveryCallbackEvent}
use agent_layer.Webhooks.Sweep.{RetrySweepResult, retry_due_deliveries}
use agent_layer.App.Lists.{list_limited, list_thread_messages}
use agent_layer.App.Writes.{CreateContactMemoryInput, escalate_thread, create_contact_memory}
use agent_layer.App.Bootstrap.{BootstrapInput, bootstrap_local, get_bootstrap}
use agent_layer.App.InboundRuntime.{handle_stored_message, reprocess_by_object_key}
use agent_layer.Api.{Formats, RequestBody, Handler}
use agent_layer.Api.Lookups
use agent_layer.Api.Lists
use agent_layer.Api.Actions
use agent_layer.Api.Reply
use agent_layer.Runtime.World.{Env, World, on_store, ambient}
use agent_layer.Runtime.Booting.{writers, getters}
use agent_layer.Runtime.Wiring.{inbound_runtime, replay_webhook}
use agent_layer.Runtime.Reply.{submit_reply, apply_delivery_callback}

-- newThreadReadService
unfoldable pub get_thread : Handler World Lookups.ThreadResponse
get_thread = Lookups.thread_handler (λ id. on_store (Records.get_thread_by_id id))

-- newContactReadService
unfoldable pub get_contact : Handler World Lookups.ContactResponse
get_contact = Lookups.contact_handler (λ id. on_store (Records.get_contact_by_id id))

unfoldable pub get_bootstrap_config : Handler World Lookups.BootstrapResponse
get_bootstrap_config =
    Lookups.bootstrap_read_handler
      (get_bootstrap getters >>= λ result. pure (Actions.bootstrap_response result))

module _ (formats : Formats) where
  unfoldable pub get_suppression : Handler World Lookups.SuppressionResponse
  get_suppression =
      Lookups.suppression_handler formats (λ id. on_store (Records.get_suppression_by_id id))

  unfoldable pub get_delivery : Handler World Lookups.WebhookDeliveryResponse
  get_delivery =
      Lookups.webhook_delivery_handler formats
        (λ id. on_store (Records.get_webhook_delivery_by_id id))

module _ (env : Env) (formats : Formats) where
  unfoldable pub get_receipt : Handler World Lookups.InboundReceiptResponse
  get_receipt =
      Lookups.inbound_receipt_handler env.unicode formats
        (λ key. on_store (Records.get_inbound_receipt_by_object_key key))

  unfoldable pub list_receipts : Handler World (List Lookups.InboundReceiptResponse)
  list_receipts =
      Lists.inbound_receipts_handler formats (
        list_limited (λ limit. on_store (Listing.list_inbound_receipts env.platform limit))
          (pos 20))

  unfoldable pub list_deliveries : Handler World (List Lookups.WebhookDeliveryResponse)
  list_deliveries = Lists.webhook_deliveries_handler formats (
      list_limited (λ limit. on_store (Listing.list_webhook_deliveries env.platform limit))
        (pos 20))

  unfoldable pub list_suppressions : Handler World (List Lookups.SuppressionResponse)
  list_suppressions =
      Lists.suppressions_handler formats
        (list_limited (λ limit. on_store (Listing.list_suppressions env.platform limit)) (pos 20))

  unfoldable pub list_messages : Handler World (List Lists.MessageResponse)
  list_messages =
      Lists.thread_messages_handler formats
        (list_thread_messages (λ id limit. on_store (Listing.list_by_thread_id id limit)) (pos 20))

  -- newWebhookRetrySweepService and its adapter
  unfoldable pub post_retry : Handler World Lists.WebhookRetryResult
  post_retry = Lists.webhook_retry_handler formats (
      retry_due_deliveries (replay_webhook env)
        (λ limit. on_store (Listing.list_webhook_deliveries env.platform limit)) (ambient env).now)

  unfoldable pub post_replay : Handler World Lookups.WebhookDeliveryResponse
  post_replay = Actions.webhook_replay_handler formats (replay_webhook env)

module _ (env : Env) where
  unfoldable pub post_bootstrap :
      (RequestBody → Option BootstrapInput) → Handler World Lookups.BootstrapResponse
  post_bootstrap decode = Actions.bootstrap_handler env.unicode decode (λ input.
      bootstrap_local writers (ambient env).now input >>= λ result.
      pure (Actions.bootstrap_response result))

  -- The inbound service that newInboundService made, when the store was `built_at`.
  unfoldable pub post_reprocess :
      Store → (RequestBody → Option String) → Handler World Actions.InboundReprocessResponse
  post_reprocess built_at decode = Actions.inbound_reprocess_handler env.unicode decode (
      reprocess_by_object_key (λ key. on_store (Records.get_inbound_receipt_by_object_key key))
        (handle_stored_message (inbound_runtime env built_at)))

  unfoldable pub post_escalate :
      (RequestBody → Option String) → Handler World Lookups.ThreadResponse
  post_escalate decode = Actions.thread_escalate_handler decode (λ id reason.
      escalate_thread (λ thread. on_store (Records.get_thread_by_id thread))
        (λ thread. on_store (Records.save_thread thread)) (ambient env).now id)

  unfoldable pub post_memory :
      (RequestBody → Option CreateContactMemoryInput) → Handler World Actions.ContactMemoryResponse
  post_memory decode = Actions.contact_memory_handler decode (
      create_contact_memory (λ id. on_store (Records.get_contact_by_id id))
        (λ id. on_store (Records.get_thread_by_id id))
        (λ entry. on_store (Records.create_memory entry)) (ambient env))

  unfoldable pub post_reply :
      (RequestBody → Option Reply.ReplyRequest) → Handler World Reply.ReplyResponse
  post_reply decode = Reply.reply_handler env.unicode decode (submit_reply env)

  unfoldable pub post_callback :
      (Bytes → Option String)
      → (Bytes → Result DeliveryCallbackEvent)
      → Handler World Actions.OutboundCallbackResponse
  post_callback contact_email parse =
      Actions.outbound_callback_handler env.unicode contact_email parse
        (apply_delivery_callback env)
