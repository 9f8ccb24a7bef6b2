-- ===== src/Runtime/Replays.antt =====
-- Replaying a delivery: internal/webhooks/replay_service.go and recorder.go over the memory store.
use agent_layer.Prelude.{String, ◌==◌, ◌||◌, false, some, [], ◌∷◌, ◌++◌, length, ◌≡◌, refl, arith}
use agent_layer.Prelude.Exec.{Result, ok, err}
use agent_layer.Prelude.Int.{pos, wrap64, ◌+ℤ◌}
use agent_layer.Core.{WebhookDispatchResult}
use agent_layer.Prelude.Dict
use agent_layer.Prelude.Dict.{get-put_self}
use agent_layer.Domain.{WebhookDelivery}
use agent_layer.Inbound.Receipt.{is_empty}
use agent_layer.Memory.Records
use agent_layer.Webhooks.Attempts.{attempted, record_attempt}
use agent_layer.Webhooks.Delivery.{
  DispatchInput, HttpResponse, DeliveryResult, dispatch, replay_request, replay_found,
  replay_delivery,
}
use agent_layer.Runtime.World.{Env, World}
use agent_layer.Runtime.Wiring.{replay_webhook}

-- The request that the first attempt kept: its address, its payload and its headers.
abbrev pub kept_request : WebhookDelivery → DispatchInput
kept_request d = record {
  url = d.request_url;
  request = record { delivery = d; payload = d.request_payload; headers = d.request_headers };
}

-- A replay that the endpoint answered.
pub record Answered (d : WebhookDelivery) (answer : HttpResponse) (r : DeliveryResult)
    (w w' : World) : Type 0 where
  pub status : r.response.status_code ≡ answer.status_code
  pub body : r.response.body ≡ answer.body
  pub delivery : r.delivery ≡ attempted d r.response
  pub code : r.delivery.response_code ≡ answer.status_code
  pub text : r.delivery.response_body ≡ answer.body
  pub at : r.delivery.last_attempt_at ≡ r.response.delivered_at
  pub count : r.delivery.attempt_count ≡ wrap64 (d.attempt_count +ℤ pos 1)
  pub stored : Dict.get w'.store.webhook_deliveries_by_id r.delivery.id ≡ some r.delivery
  pub posts : w'.posts ≡ w.posts ++ kept_request d ∷ []

-- A replay that the endpoint did not answer.
pub record Unanswered (d : WebhookDelivery) (w w' : World) : Type 0 where
  pub stored : w'.store ≡ w.store
  pub posts : w'.posts ≡ w.posts ++ kept_request d ∷ []

-- How a replay ends, by the endpoint's answer.
abbrev pub Replayed :
    WebhookDelivery → World → Result HttpResponse → Result DeliveryResult × World → Type 0
Replayed d w (ok answer) (ok r, w') = Answered d answer r w w'
Replayed d w (ok answer) (err x, w') = ⊥
Replayed d w (err e) (ok r, w') = ⊥
Replayed d w (err e) (err x, w') = Unanswered d w w'

attempted-code :
    (d : WebhookDelivery) (r : WebhookDispatchResult)
    → (attempted d r).response_code ≡ r.status_code
unfolding attempted
attempted-code d r = ground arith

attempted-body :
    (d : WebhookDelivery) (r : WebhookDispatchResult) → (attempted d r).response_body ≡ r.body
unfolding attempted
attempted-body d r = ground arith

attempted-at :
    (d : WebhookDelivery) (r : WebhookDispatchResult)
    → (attempted d r).last_attempt_at ≡ r.delivered_at
unfolding attempted
attempted-at d r = ground arith

attempted-count :
    (d : WebhookDelivery) (r : WebhookDispatchResult)
    → (attempted d r).attempt_count ≡ wrap64 (d.attempt_count +ℤ pos 1)
unfolding attempted
attempted-count d r = ground arith

abbrev reply_at : Env → HttpResponse → World → WebhookDispatchResult
reply_at env answer w = record {
  status_code = answer.status_code;
  body = answer.body;
  delivered_at = env.clock w.reads;
}

-- Replaying a delivery that the store has, with the request of its first attempt, posts its payload
-- and its headers to its address once. If the endpoint answers, whatever its status, the delivery is
-- recorded with the answer and with one attempt more, and returned so; if it does not, the replay fails and the store is as before.
pub replay_webhook-Replayed :
    (env : Env) (id : String) (d : WebhookDelivery) (w : World) (o : Result HttpResponse)
    → Dict.get w.store.webhook_deliveries_by_id id ≡ some d
    → (d.request_url == "" || is_empty d.request_payload) ≡ false
    → env.endpoint (length w.posts) (kept_request d) ≡ o
    → Replayed d w o (replay_webhook env id w)
unfolding replay_delivery replay_found replay_request dispatch record_attempt
    Records.get_webhook_delivery_by_id Records.save_webhook_delivery
replay_webhook-Replayed env id d w (ok answer) e h a =
    rw (e, h, a)
      (record {
        status = refl;
        body = refl;
        delivery = refl;
        code = attempted-code d (reply_at env answer w);
        text = attempted-body d (reply_at env answer w);
        at = attempted-at d (reply_at env answer w);
        count = attempted-count d (reply_at env answer w);
        stored = get-put_self _ _ _;
        posts = refl;
      })
replay_webhook-Replayed env id d w (err x) e h a =
    rw (e, h, a) (record { stored = refl; posts = refl })
