-- ===== src/Webhooks/Sweep.antt =====
-- internal/webhooks/retry_sweep_service.go: one pass over the listed deliveries.
use agent_layer.Prelude.{
  String, ℕ, ◌+◌, Bool, true, false, not, ◌==◌, List, [], ◌∷◌, ◌++◌, if◌then◌else◌,
}
use agent_layer.Prelude.Int.{ℤ}
use agent_layer.Prelude.Exec.{Exec, Result, ok, err, ◌>>=◌}
use agent_layer.Domain.{Time, WebhookDelivery, is_zero, after}
use agent_layer.Webhooks.Attempts.{delivery_status_retrying}
use agent_layer.Webhooks.Delivery.{DeliveryResult}

pub record RetrySweepResult : Type 0 where
  pub attempted : ℕ
  pub succeeded : ℕ
  pub failed : ℕ
  pub skipped : ℕ
  pub deliveries : List WebhookDelivery

abbrev pub empty_result : RetrySweepResult
empty_result = record { attempted = 0; succeeded = 0; failed = 0; skipped = 0; deliveries = [] }

unfoldable pub is_retry_due : WebhookDelivery → Time → Bool
is_retry_due delivery at =
    if delivery.status == delivery_status_retrying
    then (if is_zero delivery.next_attempt_at
        then false
        else not (after delivery.next_attempt_at at))
    else false

abbrev pub skip : RetrySweepResult → RetrySweepResult
skip result = record result { skipped = result.skipped + 1 }

-- The counters after a replay that was attempted.
abbrev pub tally : Result DeliveryResult → RetrySweepResult → RetrySweepResult
tally (err e) result = record result {
  attempted = result.attempted + 1;
  failed = result.failed + 1;
}
tally (ok replayed) result = record result {
  attempted = result.attempted + 1;
  succeeded = result.succeeded + 1;
  deliveries = result.deliveries ++ replayed.delivery ∷ [];
}

module _ {S : Type 0} (replay : String → Exec S DeliveryResult) where
  -- The loop: an error of one replay is counted and the loop goes on.
  unfoldable pub sweep : Time → List WebhookDelivery → RetrySweepResult → S → RetrySweepResult × S
  sweep at [] result s = (result, s)
  sweep at (delivery ∷ rest) result s = elim (is_retry_due delivery at) [
    | false ↦ sweep at rest (skip result) s
    | true ↦ sweep at rest (tally (replay delivery.id s).0 result) (replay delivery.id s).1
  ]

  unfoldable pub retry_due_deliveries :
      (ℤ → Exec S (List WebhookDelivery)) → Exec S Time → ℤ → Exec S RetrySweepResult
  retry_due_deliveries list_deliveries now limit = do
    list ← list_deliveries limit
    at ← now
    λ s. (ok (sweep at list empty_result s).0, (sweep at list empty_result s).1)
