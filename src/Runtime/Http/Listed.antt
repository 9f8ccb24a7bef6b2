-- ===== src/Runtime/Http/Listed.antt =====
-- Requests that list webhook deliveries: internal/api/webhook_deliveries_handler.go over
-- internal/app/webhook_delivery_list_service.go and the memory store.
use agent_layer.Prelude.{ℕ, zero, suc, ◌<◌, List, some, map, ◌≡◌, refl, arith}
use agent_layer.Prelude.Int.{pos}
use agent_layer.Prelude.Dict.{values}
use agent_layer.Domain.{WebhookDelivery}
use agent_layer.Memory.Limits.{NotOlder, IsPage, list_webhook_deliveries-IsPage}
use agent_layer.App.Lists
use agent_layer.Api.{Formats, Request, Response}
use agent_layer.Api.Lookups
use agent_layer.Api.Lists.{requested_limit, webhook_deliveries_handler}
use agent_layer.Runtime.World.{Env, World}
use agent_layer.Runtime.Http.{list_deliveries}

-- The size of the page that a request with the limit asks for.
abbrev pub page_size : ℕ → ℕ
page_size zero = 20
page_size (suc n) = suc n

service_limit :
    (n : ℕ) → Lists.requested_limit (Lists.default_limit (pos 20)) (pos n) ≡ pos (page_size n)
unfolding Lists.requested_limit Lists.default_limit
service_limit zero = refl
service_limit (suc n) = ground arith

page_size-positive : (n : ℕ) → 0 < page_size n
page_size-positive zero = omega arith
page_size-positive (suc n) = omega arith

-- A request for the webhook deliveries whose limit is absent or a number that is not negative answers
-- 200 and changes nothing. What is listed are the newest deliveries of the store, newest first, at
-- most as many as the limit, or as 20 if the limit is absent or 0.
list_deliveries-IsPage :
    (env : Env) (formats : Formats) (request : Request) (n : ℕ) (w : World)
    → requested_limit formats request ≡ some (pos n)
    → (out : List WebhookDelivery) × (list_deliveries env formats request w
        ≡ (Response.encoded 200 (map (Lookups.webhook_delivery_response formats) out), w))
      × IsPage NotOlder (page_size n) (values w.store.webhook_deliveries_by_id) out
unfolding list_deliveries webhook_deliveries_handler Lists.list_limited
list_deliveries-IsPage env formats request n w e =
    let (out, run, page) =
      list_webhook_deliveries-IsPage env.platform (page_size n) w.store (page_size-positive n) in
    (out, rw (e, service_limit n, run) refl, page)
