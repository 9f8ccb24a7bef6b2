-- ===== src/Process/Checked.antt =====
-- cmd/agentlayer: when the process is ready, and when its worker retries deliveries.
use mathlib.Core.Path.{subst}
use agent_layer.Prelude.{
  ℕ, suc, String, Bool, true, false, ◌&&◌, ◌⊎◌, Option, some, none, List, [], ◌∷◌, ◌++◌, ◌==◌, ◌≡◌,
  ◌≢◌, refl, sym, ap, ◌∙◌, if◌then◌else◌, Bool-cases, Option-cases, inl, inr, eq_iff, ne_str, arith,
}
use agent_layer.Prelude.Int.{ℤ, pos, leb_ℤ, ◌<ℤ◌}
use agent_layer.Prelude.Exec.{Exec, Error, Result, ok, err}
use agent_layer.Text.{Unicode, trim_space}
use agent_layer.Api.{Response}
use agent_layer.Webhooks.Sweep.{RetrySweepResult}
use agent_layer.Process.Settings.{
  Parsers, positive_or, validate_runtime_config, validate_email_provider_config,
  validate_raw_store_config, email_provider_type, raw_store_type, raw_s3_bucket, aws_region,
  database_url, webhook_retry_interval, webhook_retry_limit, webhook_retry_enabled,
}
use agent_layer.Process.Readiness.{
  ReadinessChecker, ReadinessCheck, ProviderHealth, HealthChecker, config_checks, db_checks,
  health_checks, check_db, check_provider, check_email, check, readiness_handler,
}
use agent_layer.Process.RetryWorker.{WebhookRetryWorker, at_ticks, run, new_webhook_retry_worker}

abbrev pub all_healthy : List ReadinessCheck → Bool
all_healthy [] = true
all_healthy (c ∷ checks) = c.healthy && all_healthy checks

all_healthy-append :
    (a b : List ReadinessCheck) → all_healthy (a ++ b) ≡ (all_healthy a && all_healthy b)
all_healthy-append [] b = refl
all_healthy-append (c ∷ a) b =
    rw (all_healthy-append a b) (and_assoc c.healthy (all_healthy a) (all_healthy b))
  where
    and_assoc : (x y z : Bool) → (x && (y && z)) ≡ ((x && y) && z)
    and_assoc true y z = refl
    and_assoc false y z = refl

module _ (text : Error → String) where
  -- A group of checks, with the flag that says whether all of them passed.
  abbrev IsFair : Bool × List ReadinessCheck → Type 0
  IsFair (ready, checks) = ready ≡ all_healthy checks

  config-IsFair : (errs : List Error) → IsFair (config_checks text errs)
  unfolding config_checks
  config-IsFair [] = refl
  config-IsFair (e ∷ errs) = refl

  db-IsFair : (e : Option Error) → IsFair (db_checks text e)
  unfolding db_checks
  db-IsFair none = refl
  db-IsFair (some e) = refl

  health-IsFair : (h : ProviderHealth × Option Error) → IsFair (health_checks text h)
  unfolding health_checks
  health-IsFair (h, e) = ground arith

  module _ {S : Type 0} where
    check_db-IsFair : (db : Option (S → Option Error × S)) (s : S) → IsFair (check_db text db s).0
    unfolding check_db
    check_db-IsFair none s = refl
    check_db-IsFair (some ping) s = db-IsFair (ping s).0

    provider-IsFair : (p : Result (HealthChecker S)) (s : S) → IsFair (check_provider text p s).0
    provider-IsFair (err e) s = refl
    provider-IsFair (ok health) s = health-IsFair (health s).0

    check_email-IsFair :
        (email : Option (S → Result (HealthChecker S) × S)) (s : S)
        → IsFair (check_email text email s).0
    unfolding check_email
    check_email-IsFair none s = refl
    check_email-IsFair (some provider) s = provider-IsFair (provider s).0 (provider s).1

    check-IsFair :
        (checker : ReadinessChecker S) (s : S)
        → (check text checker s).0.ready ≡ all_healthy (check text checker s).0.checks
    unfolding check
    check-IsFair checker s =
        let c = config_checks text (checker.config s).0 in
        let s₁ = (checker.config s).1 in
        let d = check_db text checker.db s₁ in
        let e = check_email text checker.email d.1 in
        rw
          (
            config-IsFair (checker.config s).0,
            check_db-IsFair checker.db s₁,
            check_email-IsFair checker.email d.1,
          )
          (sym (
            all_healthy-append (c.1 ++ d.0.1) e.0.1
            ∙ ap (λ b. b && all_healthy e.0.1) (all_healthy-append c.1 d.0.1)))

    -- The readiness endpoint answers 200 if every check that it reports passed, and 503 otherwise,
    -- whatever the checks of the configuration, the database and the email provider do.
    pub readiness-IsFair :
        (checker : ReadinessChecker S) (s : S)
        → (readiness_handler text checker s).0
          ≡ Response.encoded
              (if all_healthy (check text checker s).0.checks then 200 else 503)
              (check text checker s).0
    unfolding readiness_handler
    readiness-IsFair checker s =
        ap (λ b. Response.encoded (if b then 200 else 503) (check text checker s).0)
          (check-IsFair checker s)

module _ (unicode : Unicode) (parsers : Parsers) (getenv : String → String) where
  positive_or-positive : (n : ℤ) (o : Option ℤ) → pos 0 <ℤ n → pos 0 <ℤ positive_or n o
  positive_or-positive n none h = h
  positive_or-positive n (some m) h = ground (arith, h)

  interval-positive : pos 0 <ℤ webhook_retry_interval unicode parsers getenv
  unfolding webhook_retry_interval
  interval-positive = elim (Bool-cases (getenv "AGENTLAYER_WEBHOOK_RETRY_INTERVAL" == "")) [
    | inl e ↦ rw e (omega arith)
    | inr e ↦ rw e (
        positive_or-positive (pos 30_000_000_000)
          (parsers.parse_duration (getenv "AGENTLAYER_WEBHOOK_RETRY_INTERVAL")) (omega arith))
  ]

  limit-positive : pos 0 <ℤ webhook_retry_limit unicode parsers getenv
  unfolding webhook_retry_limit
  limit-positive = elim (Bool-cases (getenv "AGENTLAYER_WEBHOOK_RETRY_LIMIT" == "")) [
    | inl e ↦ rw e (omega arith)
    | inr e ↦ rw e (
        positive_or-positive (pos 20) (parsers.atoi (getenv "AGENTLAYER_WEBHOOK_RETRY_LIMIT"))
          (omega arith))
  ]

  abbrev Runs : {S : Type 0} → Option (WebhookRetryWorker S) → Type 0
  Runs none = Unit
  Runs {S} (some worker) =
      (pos 0 <ℤ worker.interval)
      × (pos 0 <ℤ worker.limit)
      × ((ticks : ℕ) (s : S) → run worker ticks s ≡ at_ticks worker (suc ticks) s)

  run-at_ticks :
      {S : Type 0} (worker : WebhookRetryWorker S)
      → pos 0 <ℤ worker.interval
      → (ticks : ℕ) (s : S) → run worker ticks s ≡ at_ticks worker (suc ticks) s
  unfolding run at_ticks
  run-at_ticks worker h ticks s =
      let k : leb_ℤ worker.interval (pos 0) ≡ false = ground (arith, h) in rw (run, k) refl

  new_worker-Runs :
      {S : Type 0} (service : ℤ → Exec S RetrySweepResult)
      → Runs (new_webhook_retry_worker unicode parsers getenv service)
  unfolding new_webhook_retry_worker
  new_worker-Runs service = elim (Bool-cases (webhook_retry_enabled unicode parsers getenv)) [
    | inr e ↦ rw e tt
    | inl e ↦ rw e (interval-positive, limit-positive, run-at_ticks _ interval-positive)
  ]

  -- Whatever the variables of the environment hold: a retry worker, if one is made, asks for a positive
  -- number of deliveries at positive intervals, and runs: it sweeps once at its start and once at each
  -- tick.
  worker-Sweeps :
      {S : Type 0} (service : ℤ → Exec S RetrySweepResult) (worker : WebhookRetryWorker S)
      → new_webhook_retry_worker unicode parsers getenv service ≡ some worker
      → (pos 0 <ℤ worker.interval)
        × (pos 0 <ℤ worker.limit)
        × ((ticks : ℕ) (s : S) → run worker ticks s ≡ at_ticks worker (suc ticks) s)
  worker-Sweeps service worker e = subst Runs e (new_worker-Runs service)

  email_supported :
      validate_email_provider_config unicode parsers getenv ≡ none
      → (email_provider_type unicode parsers getenv ≡ "dev")
        ⊎ ((email_provider_type unicode parsers getenv ≡ "ses")
            × (trim_space unicode (aws_region unicode parsers getenv) ≢ ""))
  unfolding validate_email_provider_config
  email_supported h =
      let type = email_provider_type unicode parsers getenv in
      let region = trim_space unicode (aws_region unicode parsers getenv) in
      elim (Bool-cases (type == "dev")) [
        | inl a ↦ inl ((eq_iff type "dev").0 a)
        | inr a ↦ elim (Bool-cases (type == "ses")) [
          | inl b ↦ inr ((eq_iff type "ses").0 b, ne_str region "" (ground (arith, h)))
          | inr b ↦ ground (arith, h)
        ]
      ]

  raw_supported :
      validate_raw_store_config unicode parsers getenv ≡ none
      → (raw_store_type unicode parsers getenv ≡ "fs")
        ⊎ ((raw_store_type unicode parsers getenv ≡ "s3")
            × (trim_space unicode (raw_s3_bucket unicode parsers getenv) ≢ "")
            × (trim_space unicode (aws_region unicode parsers getenv) ≢ ""))
  unfolding validate_raw_store_config
  raw_supported h =
      let type = raw_store_type unicode parsers getenv in
      let bucket = trim_space unicode (raw_s3_bucket unicode parsers getenv) in
      let region = trim_space unicode (aws_region unicode parsers getenv) in
      elim (Bool-cases (type == "fs")) [
        | inl a ↦ inl ((eq_iff type "fs").0 a)
        | inr a ↦ elim (Bool-cases (type == "s3")) [
          | inl b ↦ inr (
            (eq_iff type "s3").0 b,
            ne_str bucket "" (ground (arith, h)),
            ne_str region "" (ground (arith, h)),
          )
          | inr b ↦ ground (arith, h)
        ]
      ]

  first_none :
      validate_runtime_config unicode parsers getenv ≡ []
      → validate_email_provider_config unicode parsers getenv ≡ none
  unfolding validate_runtime_config
  first_none h = elim (Option-cases (validate_email_provider_config unicode parsers getenv)) [
    | inl e ↦ e
    | inr (x, e) ↦ ground (arith, h)
  ]

  second_none :
      database_url unicode parsers getenv ≢ ""
      → validate_runtime_config unicode parsers getenv ≡ []
      → validate_raw_store_config unicode parsers getenv ≡ none
  unfolding validate_runtime_config
  second_none d h = ground (arith, h, eq_iff (database_url unicode parsers getenv) "")

  -- If the configuration is found valid, the email provider is one that the process can make, with a
  -- region for SES; and with a database, the raw store is one that it can make, with a bucket and a
  -- region for S3.
  config-Supported :
      validate_runtime_config unicode parsers getenv ≡ []
      → ((email_provider_type unicode parsers getenv ≡ "dev")
          ⊎ ((email_provider_type unicode parsers getenv ≡ "ses")
              × (trim_space unicode (aws_region unicode parsers getenv) ≢ "")))
        × (database_url unicode parsers getenv ≢ ""
            → (raw_store_type unicode parsers getenv ≡ "fs")
              ⊎ ((raw_store_type unicode parsers getenv ≡ "s3")
                  × (trim_space unicode (raw_s3_bucket unicode parsers getenv) ≢ "")
                  × (trim_space unicode (aws_region unicode parsers getenv) ≢ "")))
  config-Supported h = (email_supported (first_none h), λ d. raw_supported (second_none d h))
