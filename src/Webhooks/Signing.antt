-- ===== src/Webhooks/Signing.antt =====
-- internal/webhooks/signing.go: the signature headers of a request.
use agent_layer.Prelude.{String, str_append, ◌==◌, ◌++◌, if◌then◌else◌}
use agent_layer.Prelude.Exec.{Exec, pure, fail, ◌>>=◌, failure}
use agent_layer.Prelude.Dict
use agent_layer.Domain.{Time, Bytes}
use agent_layer.Core.{WebhookDispatchRequest}

abbrev pub header_signature : String
header_signature = "X-AgentLayer-Signature"

abbrev pub header_signature_timestamp : String
header_signature_timestamp = "X-AgentLayer-Signature-Timestamp"

-- HMAC-SHA-256 in hex over a message of bytes, the format of a time, and the UTF-8 of a text.
pub record Crypto : Type 0 where
  pub hmac_sha256_hex : Bytes → Bytes → String
  pub format_time : Time → String
  pub utf8 : String → Bytes

module _ (crypto : Crypto) where
  -- The writes to the hash are appended.
  unfoldable pub sign_payload : String → String → Bytes → String
  sign_payload secret timestamp payload =
      crypto.hmac_sha256_hex (crypto.utf8 secret)
        (crypto.utf8 timestamp ++ (crypto.utf8 "." ++ payload))

  unfoldable pub signed : String → String → WebhookDispatchRequest → WebhookDispatchRequest
  unfolding sign_payload
  signed secret timestamp request = record request {
    headers =
        Dict.put (Dict.put request.headers header_signature_timestamp timestamp) header_signature
          (str_append "sha256=" (sign_payload secret timestamp request.payload));
  }

  -- Signer.Sign
  unfoldable pub sign :
      {S : Type 0} → Exec S Time → WebhookDispatchRequest → String → Exec S WebhookDispatchRequest
  sign now request secret =
      if secret == ""
      then fail (failure "webhook secret is required")
      else now >>= λ at. pure (signed secret (crypto.format_time at) request)
