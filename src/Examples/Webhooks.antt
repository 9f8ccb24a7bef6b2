-- ===== src/Examples/Webhooks.antt =====
-- A delivery that fails, its delays, and a sweep.
use agent_layer.Prelude.{String, ℕ, suc, ◌*◌, ◌^◌, [], ◌∷◌, ◌++◌, ◌≡◌, refl, arith}
use agent_layer.Prelude.Int.{pos}
use agent_layer.Prelude.Exec.{Exec, err, failure}
use agent_layer.Domain.{WebhookDelivery, zero_delivery}
use agent_layer.Core.{WebhookDispatchResult}
use agent_layer.Webhooks.Attempts.{default_backoff, minute, delivery_status_retrying}
use agent_layer.Webhooks.Delivery.{DeliveryResult}
use agent_layer.Webhooks.Sweep.{sweep, empty_result}
use agent_layer.Webhooks.Backoff.{default_backoff_lem}
use agent_layer.Webhooks.Lifecycle.{HasFailed, after_attempts, after_failures}
use agent_layer.Webhooks.SweepLaws.{Accounts, due, replays, sweep-Accounts}

abbrev unavailable : WebhookDispatchResult
unavailable = record { status_code = pos 503; body = []; delivered_at = pos 7 }

default_backoff_lem_example : default_backoff (pos 3) ≡ pos (minute * 2 ^ 2)
default_backoff_lem_example = default_backoff_lem (pos 3) (omega arith)

after_failures_example : HasFailed 4 (pos 7) (
    after_attempts zero_delivery
      ((unavailable ∷ unavailable ∷ unavailable ∷ []) ++ unavailable ∷ []))
after_failures_example =
    after_failures zero_delivery (unavailable ∷ unavailable ∷ unavailable ∷ []) unavailable 0 refl
      (refl, (refl, (refl, (refl, tt)))) (omega arith)

abbrev waiting : WebhookDelivery
waiting = record zero_delivery {
  id = "d1";
  status = delivery_status_retrying;
  next_attempt_at = pos 60;
}

-- A replay that counts its calls and fails.
abbrev failing : String → Exec ℕ DeliveryResult
failing id n = (err (failure "unreachable"), suc n)

sweep-Accounts_example :
    Accounts 2
      (replays failing (due (pos 90) (waiting ∷ zero_delivery ∷ [])) 0).0
      empty_result
      (sweep failing (pos 90) (waiting ∷ zero_delivery ∷ []) empty_result 0).0
    × ((sweep failing (pos 90) (waiting ∷ zero_delivery ∷ []) empty_result 0).1
        ≡ (replays failing (due (pos 90) (waiting ∷ zero_delivery ∷ [])) 0).1)
sweep-Accounts_example =
    sweep-Accounts failing (pos 90) (waiting ∷ zero_delivery ∷ []) empty_result 0
