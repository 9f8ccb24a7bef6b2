-- ===== src/Examples/Replays.antt =====
-- A replay that the endpoint does not answer.
use agent_layer.Prelude.{[], ◌∷◌, refl}
use agent_layer.Prelude.Exec.{err, failure}
use agent_layer.Prelude.Dict
use agent_layer.Domain.{WebhookDelivery, zero_delivery}
use agent_layer.Runtime.World.{World}
use agent_layer.Runtime.Wiring.{replay_webhook}
use agent_layer.Runtime.Replays.{Replayed, replay_webhook-Replayed}
use agent_layer.Examples.Scene.{env, world, store}

abbrev delivery : WebhookDelivery
delivery = record zero_delivery {
  id = "d1";
  request_url = "http://bot";
  request_payload = 104 ∷ [];
}

abbrev with_delivery : World
with_delivery = record world {
  store = record store { webhook_deliveries_by_id = ("d1", delivery) ∷ [] };
}

replay_webhook-Replayed_example :
    Replayed delivery with_delivery
      (err (failure "unreachable"))
      (replay_webhook env "d1" with_delivery)
unfolding Dict.get
replay_webhook-Replayed_example =
    replay_webhook-Replayed env "d1" delivery with_delivery (err (failure "unreachable")) refl refl
      refl
