-- ===== src/Examples/Escalations.antt =====
-- A thread that is escalated.
use agent_layer.Prelude.{some, ◌≡◌, refl}
use agent_layer.Prelude.Exec.{ok}
use agent_layer.Prelude.Dict
use agent_layer.Domain.{Thread}
use agent_layer.Memory.Records
use agent_layer.App.Writes.{escalate_thread}
use agent_layer.Runtime.World.{World, on_store, ambient}
use agent_layer.Runtime.Escalation.{Escalated, escalate_thread-Escalated}
use agent_layer.Examples.Scene.{env, world, thread}

escalate_thread-Escalated_example :
    (t' : Thread) × (w' : World) × (escalate_thread
        (λ i. on_store (Records.get_thread_by_id i))
        (λ u. on_store (Records.save_thread u))
        (ambient env).now
        "thread-1"
        world
      ≡ (ok t', w'))
    × (Dict.get w'.store.threads_by_id "thread-1" ≡ some t')
    × Escalated thread t'
unfolding Dict.get
escalate_thread-Escalated_example = escalate_thread-Escalated env "thread-1" thread world refl
