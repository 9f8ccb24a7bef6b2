-- ===== src/Webhooks/Attempts.antt =====
-- internal/webhooks/recorder.go: how an answered attempt moves a delivery on, and when the next
-- attempt is due.
use agent_layer.Prelude.{String, ℕ, zero, suc, ◌-◌, Bool, ◌&&◌, if◌then◌else◌}
use agent_layer.Prelude.Int.{ℤ, pos, pos_part, ◌+ℤ◌, ltb_ℤ, leb_ℤ, wrap64}
use agent_layer.Prelude.Exec.{Exec}
use agent_layer.Domain.{WebhookDelivery, zero_time}
use agent_layer.Core.{WebhookDispatchResult}

abbrev pub delivery_status_succeeded : String
delivery_status_succeeded = "succeeded"

abbrev pub delivery_status_retrying : String
delivery_status_retrying = "retrying"

abbrev pub delivery_status_dead_letter : String
delivery_status_dead_letter = "dead_letter"

-- `for i := 1; i < attempt; i++ { delay *= 2 }` with the rounds that are left; int64 arithmetic.
unfoldable pub doubled : ℕ → ℤ → ℤ
doubled zero delay = delay
doubled (suc rounds) delay = doubled rounds (wrap64 (delay +ℤ delay))

-- time.Minute
abbrev pub minute : ℕ
minute = 60_000_000_000

unfoldable pub default_backoff : ℤ → ℤ
unfolding doubled
default_backoff attempt =
    let attempt = if ltb_ℤ attempt (pos 1) then pos 1 else attempt in
    doubled (pos_part attempt - 1) (pos minute)

abbrev pub max_attempts : ℤ
max_attempts = pos 3

-- http.StatusOK <= code && code < http.StatusMultipleChoices
abbrev pub is_success : ℤ → Bool
is_success code = leb_ℤ (pos 200) code && ltb_ℤ code (pos 300)

-- The fields that every attempt writes; `delivery.AttemptCount++` on an int.
abbrev pub counted : WebhookDelivery → WebhookDispatchResult → WebhookDelivery
counted delivery response = record delivery {
  attempt_count = wrap64 (delivery.attempt_count +ℤ pos 1);
  response_code = response.status_code;
  response_body = response.body;
  last_attempt_at = response.delivered_at;
  updated_at = response.delivered_at;
}

unfoldable pub attempted : WebhookDelivery → WebhookDispatchResult → WebhookDelivery
attempted delivery response =
    let counted_delivery = counted delivery response in
    if is_success response.status_code
    then record counted_delivery { status = delivery_status_succeeded; next_attempt_at = zero_time }
    else if leb_ℤ counted_delivery.attempt_count max_attempts
    then record counted_delivery {
      status = delivery_status_retrying;
      next_attempt_at = response.delivered_at +ℤ default_backoff counted_delivery.attempt_count;
    }
    else record counted_delivery {
      status = delivery_status_dead_letter;
      next_attempt_at = zero_time;
    }

-- Recorder.RecordAttempt
unfoldable pub record_attempt :
    {S : Type 0}
    → (WebhookDelivery → Exec S WebhookDelivery)
    → WebhookDelivery
    → WebhookDispatchResult
    → Exec S WebhookDelivery
unfolding attempted
record_attempt save delivery response = save (attempted delivery response)
