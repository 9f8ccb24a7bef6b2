-- ===== src/Webhooks/Signatures.antt =====
-- The headers of a signed request: internal/webhooks/signing.go.
use agent_layer.Prelude.{
  String, str_append, ◌==◌, ◌++◌, false, some, eq_iff, ◌≡◌, ◌≢◌, refl, arith, ◌∙◌,
}
use agent_layer.Prelude.Exec.{Exec, ok}
use agent_layer.Prelude.Dict
use agent_layer.Prelude.Dict.{get-put, get-put_self}
use agent_layer.Domain.{Time}
use agent_layer.Core.{WebhookDispatchRequest}
use agent_layer.Webhooks.Signing.{
  Crypto, sign_payload, signed, sign, header_signature, header_signature_timestamp,
}

different : (a b : String) → a ≢ b → (a == b) ≡ false
different a b h = ground (arith, eq_iff a b)

get-put_other :
    (d : Dict.Dict String) (k v j : String) → j ≢ k → Dict.get (Dict.put d k v) j ≡ Dict.get d j
get-put_other d k v j h = ground (arith, get-put d k v j, eq_iff k j)

timestamp-ne-signature : ◌≢◌ {A = String} header_signature_timestamp header_signature
timestamp-ne-signature =
    ground (arith, eq_iff "X-AgentLayer-Signature-Timestamp" "X-AgentLayer-Signature")

-- What a receiver can rely on: the payload and the delivery as they were given, the time of the
-- signature, the signature of that time and the payload, and every other header unchanged.
pub record Signed (crypto : Crypto) (secret timestamp : String)
    (before after : WebhookDispatchRequest) : Type 0 where
  pub payload : after.payload ≡ before.payload
  pub delivery : after.delivery ≡ before.delivery
  pub time : Dict.get after.headers header_signature_timestamp ≡ some timestamp
  pub signature :
      Dict.get after.headers header_signature
      ≡ some (
          str_append "sha256=" (
            crypto.hmac_sha256_hex
              (crypto.utf8 secret)
              (crypto.utf8 timestamp ++ (crypto.utf8 "." ++ after.payload))))
  pub others :
      (name : String)
      → name ≢ header_signature
      → name ≢ header_signature_timestamp
      → Dict.get after.headers name ≡ Dict.get before.headers name

-- Signing with a secret returns the request with the two signature headers, over the time that the
-- clock answered and the payload, and with everything else unchanged, also where the request had
-- signature headers before. Only the clock's reading changes the state.
pub sign-Signed :
    {S : Type 0} (crypto : Crypto) (now : Exec S Time) (request : WebhookDispatchRequest)
    (secret : String) (s s' : S) (at : Time)
    → secret ≢ ""
    → now s ≡ (ok at, s')
    → (after : WebhookDispatchRequest) × (sign crypto now request secret s ≡ (ok after, s'))
      × Signed crypto secret (crypto.format_time at) request after
unfolding sign signed sign_payload
sign-Signed crypto now request secret s s' at h e =
    rw (different secret "" h, e)
      (
        _,
        refl,
        record {
          payload = refl;
          delivery = refl;
          time = get-put_other _ _ _ _ timestamp-ne-signature ∙ get-put_self _ _ _;
          signature = get-put_self _ _ _;
          others = λ name a b. get-put_other _ _ _ _ a ∙ get-put_other _ _ _ _ b;
        },
      )
