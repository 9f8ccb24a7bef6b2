-- ===== src/Api/Lists.antt =====
-- internal/api: the handlers that list: thread_messages_handler.go, suppressions_handler.go,
-- webhook_deliveries_handler.go and inbound_receipts_handler.go; and webhook_retry_handler.go, which
-- reads the same limit.
use agent_layer.Prelude.{String, ℕ, Option, none, some, List, ◌==◌, if◌then◌else◌, map}
use agent_layer.Prelude.Int.{ℤ, pos, ltb_ℤ}
use agent_layer.Prelude.Exec.{Exec}
use agent_layer.Domain.{Message, SuppressedAddress, WebhookDelivery}
use agent_layer.Inbound.Receipt.{DurableReceiptRequest}
use agent_layer.Webhooks.Sweep.{RetrySweepResult}
use agent_layer.Api.{Formats, Request, Handler, Response, answer}
use agent_layer.Api.Paths.{thread_id_from_thread_messages_path}
use agent_layer.Api.Lookups.{
  SuppressionResponse, WebhookDeliveryResponse, InboundReceiptResponse, suppression_response,
  webhook_delivery_response, inbound_receipt_response,
}

pub record MessageResponse : Type 0 where
  pub id : String
  pub thread_id : String
  pub direction : String
  pub subject : String
  pub text_body : String
  pub message_id_header : String

unfoldable pub message_response : Message → MessageResponse
message_response message = record {
  id = message.id;
  thread_id = message.thread_id;
  direction = message.direction;
  subject = message.subject;
  text_body = message.text_body;
  message_id_header = message.message_id_header;
}

pub record WebhookRetryResult : Type 0 where
  pub attempted : ℕ
  pub succeeded : ℕ
  pub failed : ℕ
  pub skipped : ℕ

-- The result of webhookRetryServiceAdapter.
unfoldable pub retry_result : RetrySweepResult → WebhookRetryResult
retry_result result = record {
  attempted = result.attempted;
  succeeded = result.succeeded;
  failed = result.failed;
  skipped = result.skipped;
}

abbrev pub not_negative : Option ℤ → Option ℤ
not_negative none = none
not_negative (some limit) = if ltb_ℤ limit (pos 0) then none else some limit

module _ (formats : Formats) where
  -- webhookDeliveriesLimit, threadMessagesLimit and inboundReceiptsLimit
  unfoldable pub requested_limit : Request → Option ℤ
  requested_limit request =
      let value = request.query "limit" in
      if value == "" then some (pos 0) else not_negative (formats.atoi value)

  -- A handler that calls its service with the limit of the request, if that is one.
  abbrev pub with_limit : {S A : Type 0} → Option ℤ → (ℤ → S → Response A × S) → S → Response A × S
  with_limit none call s = (Response.refused 400 "invalid limit parameter", s)
  with_limit (some limit) call s = call limit s

  module _ {S : Type 0} where
    unfoldable pub thread_messages_handler :
        (String → ℤ → Exec S (List Message)) → Handler S (List MessageResponse)
    thread_messages_handler list_messages request s =
        let thread_id = thread_id_from_thread_messages_path request.path in
        if thread_id == ""
        then (Response.refused 400 "thread id is required", s)
        else with_limit (requested_limit request)
            (λ limit.
              answer (list_messages thread_id limit)
                (λ e. Response.refused 500 "failed to load thread messages")
                (λ messages. Response.encoded 200 (map message_response messages)))
            s

    unfoldable pub suppressions_handler :
        (ℤ → Exec S (List SuppressedAddress)) → Handler S (List SuppressionResponse)
    suppressions_handler list_suppressions request = with_limit (requested_limit request) (λ limit.
        answer (list_suppressions limit) (λ e. Response.refused 500 "failed to load suppressions")
          (λ records. Response.encoded 200 (map (suppression_response formats) records)))

    unfoldable pub webhook_deliveries_handler :
        (ℤ → Exec S (List WebhookDelivery)) → Handler S (List WebhookDeliveryResponse)
    webhook_deliveries_handler list_deliveries request =
        with_limit (requested_limit request) (λ limit.
          answer (list_deliveries limit)
            (λ e. Response.refused 500 "failed to load webhook deliveries")
            (λ deliveries.
              Response.encoded 200 (map (webhook_delivery_response formats) deliveries)))

    unfoldable pub inbound_receipts_handler :
        (ℤ → Exec S (List DurableReceiptRequest)) → Handler S (List InboundReceiptResponse)
    inbound_receipts_handler list_receipts request = with_limit (requested_limit request) (λ limit.
        answer (list_receipts limit) (λ e. Response.refused 500 "failed to load inbound receipts")
          (λ receipts. Response.encoded 200 (map (inbound_receipt_response formats) receipts)))

    unfoldable pub webhook_retry_handler :
        (ℤ → Exec S RetrySweepResult) → Handler S WebhookRetryResult
    webhook_retry_handler retry_due_deliveries request =
        with_limit (requested_limit request) (λ limit.
          answer (retry_due_deliveries limit)
            (λ e. Response.refused 500 "failed to retry webhook deliveries")
            (λ result. Response.encoded 202 (retry_result result)))
