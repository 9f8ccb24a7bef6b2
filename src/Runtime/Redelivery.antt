-- ===== src/Runtime/Redelivery.antt =====
-- A message that the store knows is delivered again: the inbound runtime of
-- internal/app/inbound_runtime_service.go, put together as cmd/agentlayer/main.go does it.
use agent_layer.Prelude.{refl, ◌≡◌}
use agent_layer.Prelude.Exec.{ok, bind-run}
use agent_layer.Core.{StoredInboundMessage}
use agent_layer.Memory.State.{Store}
use agent_layer.Inbound.Service.{HandleResult}
use agent_layer.App.InboundRuntime
use agent_layer.App.InboundRuntime.{after_handled}
use agent_layer.Runtime.World.{Env, World}
use agent_layer.Runtime.Wiring.{inbound_runtime}
use agent_layer.Runtime.Reads.{Same}
use agent_layer.Runtime.Known.{duplicate_result, handle_known}
use agent_layer.Runtime.Duplicates.{IsStored}

-- Once the store holds a message that was handled, with its thread, contact and raw text, handling
-- it again in the inbound runtime returns it as a duplicate, writes nothing, and posts nothing to
-- the agent's webhook, whatever the configuration that the runtime was built with.
pub redelivery_silent :
    (env : Env) (stored : StoredInboundMessage) (built_at : Store) (r : HandleResult) (w : World)
    → IsStored env stored r w.store
    → (w' : World) × (InboundRuntime.handle_stored_message (inbound_runtime env built_at) stored w
        ≡ (ok (duplicate_result r.parsed_message r.contact r.thread r.message), w'))
      × Same w w'
unfolding InboundRuntime.handle_stored_message after_handled
redelivery_silent env stored built_at r w kept =
    let (w', run, same) =
      handle_known env stored w r.parsed_message r.contact r.thread r.message kept.readable
        kept.identified kept.found kept.thread kept.contact in
    (
      w',
      bind-run ((inbound_runtime env built_at).handle stored)
          (after_handled (inbound_runtime env built_at)) w run refl,
      same,
    )
