-- ===== src/Process/Readiness.antt =====
-- cmd/agentlayer/readiness.go: `Check` and the handler that answers with it.
use agent_layer.Prelude.{
  String, Bool, true, false, ◌&&◌, not, ◌==◌, Option, none, some, List, [], ◌∷◌, ◌++◌, map,
  if◌then◌else◌,
}
use agent_layer.Prelude.Exec.{Error, Result, ok, err}
use agent_layer.Domain.{Time}
use agent_layer.Api.{Response}

-- core.ProviderHealth
pub record ProviderHealth : Type 0 where
  pub provider_name : String
  pub healthy : Bool
  pub checked_at : Time
  pub details : String

pub record ReadinessCheck : Type 0 where
  pub name : String
  pub healthy : Bool
  pub details : String

pub record ReadinessResponse : Type 0 where
  pub ready : Bool
  pub checks : List ReadinessCheck

-- HealthCheck returns a health beside an error, too.
abbrev pub HealthChecker : Type 0 → Type 0
HealthChecker S = S → (ProviderHealth × Option Error) × S

-- The database and the email provider may be nil. A context with a timeout is within the calls.
pub record ReadinessChecker (S : Type 0) : Type 0 where
  pub config : S → List Error × S
  pub db : Option (S → Option Error × S)
  pub email : Option (S → Result (HealthChecker S) × S)

abbrev pub passed : String → String → ReadinessCheck
passed name details = record { name = name; healthy = true; details = details }

abbrev pub refused : String → String → ReadinessCheck
refused name details = record { name = name; healthy = false; details = details }

-- `text` is the Error method.
module _ (text : Error → String) where
  -- The checks of the configuration, and whether they leave the process ready.
  unfoldable pub config_checks : List Error → Bool × List ReadinessCheck
  config_checks [] = (true, passed "config" "validated" ∷ [])
  config_checks (e ∷ errs) = (false, map (λ x. refused "config" (text x)) (e ∷ errs))

  unfoldable pub db_checks : Option Error → Bool × List ReadinessCheck
  db_checks none = (true, passed "database" "reachable" ∷ [])
  db_checks (some e) = (false, refused "database" (text e) ∷ [])

  abbrev pub failure_details : String → Option Error → String
  failure_details details none = details
  failure_details details (some e) = if details == "" then text e else details

  abbrev pub is_failed : Option Error → Bool
  is_failed none = false
  is_failed (some e) = true

  unfoldable pub health_checks : ProviderHealth × Option Error → Bool × List ReadinessCheck
  health_checks (health, e) =
      if not (is_failed e) && health.healthy
      then (true, passed "email_provider" health.details ∷ [])
      else (false, refused "email_provider" (failure_details health.details e) ∷ [])

  module _ {S : Type 0} where
    unfoldable pub check_db : Option (S → Option Error × S) → S → (Bool × List ReadinessCheck) × S
    check_db none s = ((true, []), s)
    check_db (some ping) s = let (e, s') = ping s in (db_checks e, s')

    abbrev pub check_provider : Result (HealthChecker S) → S → (Bool × List ReadinessCheck) × S
    check_provider (err e) s = ((false, refused "email_provider" (text e) ∷ []), s)
    check_provider (ok health) s = let (h, s') = health s in (health_checks h, s')

    unfoldable pub check_email :
        Option (S → Result (HealthChecker S) × S) → S → (Bool × List ReadinessCheck) × S
    check_email none s = ((true, []), s)
    check_email (some provider) s = let (p, s') = provider s in check_provider p s'

    unfoldable pub check : ReadinessChecker S → S → ReadinessResponse × S
    check checker s =
        let (errs, s₁) = checker.config s in
        let c = config_checks errs in
        let (d, s₂) = check_db checker.db s₁ in
        let (e, s₃) = check_email checker.email s₂ in
        (record { ready = c.0 && d.0 && e.0; checks = c.1 ++ d.1 ++ e.1 }, s₃)

    -- newReadinessHandler
    unfoldable pub readiness_handler : ReadinessChecker S → S → Response ReadinessResponse × S
    readiness_handler checker s =
        let (response, s') = check checker s in
        (Response.encoded (if response.ready then 200 else 503) response, s')
