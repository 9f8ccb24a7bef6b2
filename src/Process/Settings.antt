-- ===== src/Process/Settings.antt =====
-- cmd/agentlayer/main.go and retry_worker.go: the settings of the process. `getenv` is os.Getenv, which
-- gives the empty string for a variable that is not set; the parsers of numbers are parameters.
use agent_layer.Prelude.{
  String, str_append, Bool, true, ◌||◌, ◌==◌, Option, none, some, List, [], ◌∷◌, ◌++◌,
  if◌then◌else◌,
}
use agent_layer.Prelude.Int.{ℤ, pos, leb_ℤ}
use agent_layer.Prelude.Exec.{Error, failure}
use agent_layer.Text.{Unicode, trim_space}

-- strconv.ParseBool, strconv.Atoi and time.ParseDuration (in nanoseconds); none is an error. `quote`
-- is the verb %q.
pub record Parsers : Type 0 where
  pub parse_bool : String → Option Bool
  pub atoi : String → Option ℤ
  pub parse_duration : String → Option ℤ
  pub quote : String → String

abbrev pub or_default : String → String → String
or_default value fallback = if value == "" then fallback else value

abbrev pub bool_or : Bool → Option Bool → Bool
bool_or fallback none = fallback
bool_or fallback (some enabled) = enabled

abbrev pub positive_or : ℤ → Option ℤ → ℤ
positive_or fallback none = fallback
positive_or fallback (some n) = if leb_ℤ n (pos 0) then fallback else n

module _ (unicode : Unicode) (parsers : Parsers) (getenv : String → String) where
  unfoldable pub server_address : String
  server_address = or_default (getenv "AGENTLAYER_ADDR") ":8080"

  unfoldable pub smtp_address : String
  smtp_address = or_default (getenv "AGENTLAYER_SMTP_ADDR") "localhost:2525"

  unfoldable pub smtp_domain : String
  smtp_domain = or_default (getenv "AGENTLAYER_SMTP_DOMAIN") "localhost"

  unfoldable pub database_url : String
  database_url = getenv "AGENTLAYER_DATABASE_URL"

  unfoldable pub raw_data_dir : String
  raw_data_dir = or_default (getenv "AGENTLAYER_RAW_DATA_DIR") ".agentlayer-data/raw"

  unfoldable pub raw_store_type : String
  raw_store_type = or_default (getenv "AGENTLAYER_RAW_STORE") "fs"

  unfoldable pub raw_s3_bucket : String
  raw_s3_bucket = getenv "AGENTLAYER_S3_BUCKET"

  unfoldable pub raw_s3_path_style : Bool
  raw_s3_path_style =
      let value = getenv "AGENTLAYER_S3_PATH_STYLE" in
      if value == "" then true else bool_or true (parsers.parse_bool value)

  unfoldable pub email_provider_type : String
  email_provider_type = or_default (getenv "AGENTLAYER_EMAIL_PROVIDER") "dev"

  unfoldable pub aws_region : String
  aws_region = getenv "AWS_REGION"

  unfoldable pub validate_email_provider_config : Option Error
  validate_email_provider_config =
      if email_provider_type == "dev"
      then none
      else if email_provider_type == "ses"
      then (if trim_space unicode aws_region == ""
          then some (failure "AWS_REGION is required when AGENTLAYER_EMAIL_PROVIDER=ses")
          else none)
      else some
          (failure (str_append "unsupported email provider " (parsers.quote email_provider_type)))

  unfoldable pub validate_raw_store_config : Option Error
  validate_raw_store_config =
      if raw_store_type == "fs"
      then none
      else if raw_store_type == "s3"
      then (if trim_space unicode raw_s3_bucket == ""
          then some (failure "AGENTLAYER_S3_BUCKET is required when AGENTLAYER_RAW_STORE=s3")
          else if trim_space unicode aws_region == ""
          then some (failure "AWS_REGION is required when AGENTLAYER_RAW_STORE=s3")
          else none)
      else some (failure (str_append "unsupported raw store " (parsers.quote raw_store_type)))

  unfoldable pub auto_migrate_enabled : Bool
  auto_migrate_enabled =
      let value = getenv "AGENTLAYER_AUTO_MIGRATE" in
      value == "1" || value == "true" || value == "TRUE"

  abbrev pub as_list : Option Error → List Error
  as_list none = []
  as_list (some e) = e ∷ []

  -- validateRuntimeConfig of readiness.go
  unfoldable pub validate_runtime_config : List Error
  validate_runtime_config =
      as_list validate_email_provider_config
      ++ (if database_url == "" then [] else as_list validate_raw_store_config)

  unfoldable pub webhook_retry_enabled : Bool
  webhook_retry_enabled =
      let value = getenv "AGENTLAYER_WEBHOOK_RETRY_ENABLED" in
      if value == "" then true else value == "1" || value == "true" || value == "TRUE"

  -- 30 * time.Second
  abbrev pub thirty_seconds : ℤ
  thirty_seconds = pos 30_000_000_000

  unfoldable pub webhook_retry_interval : ℤ
  webhook_retry_interval =
      let value = getenv "AGENTLAYER_WEBHOOK_RETRY_INTERVAL" in
      if value == ""
      then thirty_seconds
      else positive_or thirty_seconds (parsers.parse_duration value)

  unfoldable pub webhook_retry_limit : ℤ
  webhook_retry_limit =
      let value = getenv "AGENTLAYER_WEBHOOK_RETRY_LIMIT" in
      if value == "" then pos 20 else positive_or (pos 20) (parsers.atoi value)
