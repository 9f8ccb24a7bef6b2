-- ===== src/Process/RetryWorker.antt =====
-- cmd/agentlayer/retry_worker.go: the worker that retries deliveries. Its ticker is a sequence of
-- ticks, which ends when the context is done.
use agent_layer.Prelude.{ℕ, zero, suc, String, Option, none, some, if◌then◌else◌}
use agent_layer.Prelude.Int.{ℤ, pos, leb_ℤ}
use agent_layer.Prelude.Exec.{Exec}
use agent_layer.Text.{Unicode}
use agent_layer.Webhooks.Sweep.{RetrySweepResult}
use agent_layer.Process.Settings.{
  Parsers, webhook_retry_enabled, webhook_retry_interval, webhook_retry_limit,
}

pub record WebhookRetryWorker (S : Type 0) : Type 0 where
  pub service : ℤ → Exec S RetrySweepResult
  pub interval : ℤ
  pub limit : ℤ

module _ {S : Type 0} where
  -- An error is logged only.
  unfoldable pub run_once : WebhookRetryWorker S → S → S
  run_once worker s = (worker.service worker.limit s).1

  -- What the loop does at so many ticks.
  unfoldable pub at_ticks : WebhookRetryWorker S → ℕ → S → S
  unfolding run_once
  at_ticks worker zero s = s
  at_ticks worker (suc ticks) s = at_ticks worker ticks (run_once worker s)

  unfoldable pub run : WebhookRetryWorker S → ℕ → S → S
  unfolding at_ticks run_once
  run worker ticks s =
      if leb_ℤ worker.interval (pos 0) then s else at_ticks worker ticks (run_once worker s)

  unfoldable pub new_webhook_retry_worker :
      Unicode
      → Parsers
      → (String → String)
      → (ℤ → Exec S RetrySweepResult)
      → Option (WebhookRetryWorker S)
  new_webhook_retry_worker unicode parsers getenv service =
      if webhook_retry_enabled unicode parsers getenv
      then some (record {
        service = service;
        interval = webhook_retry_interval unicode parsers getenv;
        limit = webhook_retry_limit unicode parsers getenv;
      })
      else none
