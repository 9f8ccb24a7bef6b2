-- ===== src/Providers.antt =====
-- internal/providers: the development provider and that of Amazon SES, whose client is a parameter.
use agent_layer.Prelude.{
  String, Bool, Option, none, some, List, [], ◌∷◌, ◌==◌, str_append, if◌then◌else◌,
}
use agent_layer.Prelude.Exec.{Exec, Error, Result, ok, err, failure, pure, fail, ◌>>=◌}
use agent_layer.Domain.{Time, Bytes}
use agent_layer.Core.{OutboundSendRequest, SendResult}
use agent_layer.Inbound.Receipt.{is_empty}
use agent_layer.Process.Readiness.{ProviderHealth, HealthChecker}

-- core.DeliveryStatus
pub record DeliveryStatus : Type 0 where
  pub provider_message_id : String
  pub state : String
  pub updated_at : Time

pub record EmailProvider (S : Type 0) : Type 0 where
  pub send : OutboundSendRequest → Exec S SendResult
  pub get_delivery_status : String → Exec S DeliveryStatus
  pub health_check : HealthChecker S

-- sesv2.SendEmailInput, as far as Send fills it.
pub record SendEmailInput : Type 0 where
  pub from_email_address : String
  pub to_addresses : List String
  pub raw : Bytes

-- The client: SendEmail answers the message's id, if it has one.
pub record SesClient (S : Type 0) : Type 0 where
  pub send_email : SendEmailInput → Exec S (Option String)
  pub get_account : Exec S (Unit {0})

abbrev pub or_empty : Option String → String
or_empty none = ""
or_empty (some s) = s

module _ {S : Type 0} (clock : S → Time × S) where
  -- p.now().UTC()
  abbrev pub now : Exec S Time
  now s = let (t, s') = clock s in (ok t, s')

  -- GetDeliveryStatus of both providers.
  unfoldable pub accepted_status : String → Exec S DeliveryStatus
  accepted_status provider_message_id = do
    at ← now
    pure (record { provider_message_id = provider_message_id; state = "accepted"; updated_at = at })

  -- randomID, from eight bytes in hexadecimal, or none if they could not be read.
  unfoldable pub random_id : Option String → String
  random_id none = "generated"
  random_id (some hex) = hex

  module _ (random_hex : Exec S (Option String)) where
    unfoldable pub dev_send : OutboundSendRequest → Exec S SendResult
    unfolding random_id
    dev_send request = do
      hex ← random_hex
      at ← now
      pure (record { provider_message_id = str_append "dev-" (random_id hex); accepted_at = at })

    unfoldable pub dev_health_check : HealthChecker S
    dev_health_check s =
        let (t, s') = clock s in
        (
          (
            record {
              provider_name = "dev";
              healthy = Bool.true;
              checked_at = t;
              details = "local development provider";
            },
            none,
          ),
          s',
        )

    -- dev.NewEmailProvider
    unfoldable pub dev_email_provider : EmailProvider S
    unfolding dev_send accepted_status dev_health_check
    dev_email_provider = record {
      send = dev_send;
      get_delivery_status = accepted_status;
      health_check = dev_health_check;
    }

  module _ (client : SesClient S) (region : String) (text : Error → String) where
    unfoldable pub ses_send : OutboundSendRequest → Exec S SendResult
    ses_send request =
        if is_empty request.raw_mime
        then fail (failure "raw mime is required")
        else if request.inbox.email_address == ""
        then fail (failure "inbox email address is required")
        else if request.contact.email_address == ""
        then fail (failure "contact email address is required")
        else client.send_email (record {
          from_email_address = request.inbox.email_address;
          to_addresses = request.contact.email_address ∷ [];
          raw = request.raw_mime;
        })
          >>= λ output. now >>= λ at.
              pure (record { provider_message_id = or_empty output; accepted_at = at })

    abbrev pub account_health : Result (Unit {0}) → Time → ProviderHealth × Option Error
    account_health (err e) t = (
      record { provider_name = "ses"; healthy = Bool.false; checked_at = t; details = text e },
      some e,
    )
    account_health (ok u) t = (
      record {
        provider_name = "ses";
        healthy = Bool.true;
        checked_at = t;
        details = str_append "region=" region;
      },
      none,
    )

    unfoldable pub ses_health_check : HealthChecker S
    ses_health_check s =
        let (r, s₁) = client.get_account s in let (t, s₂) = clock s₁ in (account_health r t, s₂)

    -- ses.NewEmailProvider, once its client is there.
    unfoldable pub ses_email_provider : EmailProvider S
    unfolding ses_send accepted_status ses_health_check
    ses_email_provider = record {
      send = ses_send;
      get_delivery_status = accepted_status;
      health_check = ses_health_check;
    }
