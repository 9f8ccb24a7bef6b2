-- ===== src/Examples/Stores.antt =====
-- A store after two calls, and the first page of its deliveries.
use agent_layer.Prelude.{[], ◌∷◌}
use agent_layer.Prelude.Int.{pos}
use agent_layer.Domain.{zero_delivery}
use agent_layer.Memory.State.{Store, new_store}
use agent_layer.Memory.Records
use agent_layer.Memory.Messages
use agent_layer.Memory.Reachable.{
  Reachable, begin, next, created, thread as saved_thread, IsKeyed, Reachable-IsKeyed,
}
use agent_layer.Examples.Scene.{platform, thread, earlier}

abbrev one_thread : Store
unfolding Records.save_thread
one_thread = (Records.save_thread thread new_store).1

abbrev one_message : Store
unfolding Messages.create_message
one_message = (Messages.create_message platform earlier one_thread).1

one_message-Reachable : Reachable platform one_message
unfolding one_thread one_message
one_message-Reachable =
    next one_thread _ (next new_store _ begin (saved_thread thread new_store))
      (created earlier one_thread)

Reachable-IsKeyed_example : IsKeyed one_message
Reachable-IsKeyed_example = Reachable-IsKeyed platform one_message one_message-Reachable

abbrev delivering : Store
delivering = record new_store {
  webhook_deliveries_by_id =
      ("d1", record zero_delivery { id = "d1"; updated_at = pos 1 })
      ∷ ("d2", record zero_delivery { id = "d2"; updated_at = pos 2 })
      ∷ [];
}
