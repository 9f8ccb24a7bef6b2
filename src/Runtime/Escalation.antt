-- ===== src/Runtime/Escalation.antt =====
-- Escalating a thread: internal/app/write_services.go over the memory store's `Save`.
use agent_layer.Prelude.{suc, String, false, some, ◌≡◌, refl}
use agent_layer.Prelude.Exec.{ok, bind-run}
use agent_layer.Prelude.Dict
use agent_layer.Prelude.Dict.{get-put_self}
use agent_layer.Domain.{Time, Thread, thread_state_escalated, zero_time}
use agent_layer.Threading.{Config, is_dormant}
use agent_layer.Memory.Records
use agent_layer.Memory.Records.{merge_thread}
use agent_layer.App.Writes.{escalate_thread, escalated}
use agent_layer.Runtime.World.{Env, World, on_store, ambient}

-- What becomes of a thread that is escalated.
pub record Escalated (before after : Thread) : Type 0 where
  pub state : after.state ≡ thread_state_escalated
  pub organization : after.organization_id ≡ before.organization_id
  pub agent : after.agent_id ≡ before.agent_id
  pub inbox : after.inbox_id ≡ before.inbox_id
  pub contact : after.contact_id ≡ before.contact_id
  pub subject : after.subject_normalized ≡ before.subject_normalized
  pub inbound : after.last_inbound_id ≡ ""
  pub outbound : after.last_outbound_id ≡ ""
  pub activity : after.last_activity_at ≡ zero_time
  pub awake : (config : Config) (at : Time) → is_dormant config after at ≡ false

merge_thread-Escalated :
    (t : Thread) (id : String) (at : Time) → Escalated t (merge_thread (some t) (escalated id at))
unfolding merge_thread escalated is_dormant
merge_thread-Escalated t id at = record {
  state = refl;
  organization = refl;
  agent = refl;
  inbox = refl;
  contact = refl;
  subject = refl;
  inbound = refl;
  outbound = refl;
  activity = refl;
  awake = λ config at. refl;
}

found :
    (id : String) (t : Thread) (w : World)
    → Dict.get w.store.threads_by_id id ≡ some t
    → on_store (Records.get_thread_by_id id) w ≡ (ok t, w)
unfolding Records.get_thread_by_id
found id t w e = rw e refl

-- Escalating a thread that the store has returns it as it is then stored: in the state ESCALATED,
-- with its organization, agent, inbox, contact and subject kept, but without its last messages and
-- its last activity; so no resolver takes it for dormant, however old it is.
pub escalate_thread-Escalated :
    (env : Env) (id : String) (t : Thread) (w : World)
    → Dict.get w.store.threads_by_id id ≡ some t
    → (t' : Thread) × (w' : World) × (escalate_thread
          (λ i. on_store (Records.get_thread_by_id i))
          (λ u. on_store (Records.save_thread u))
          (ambient env).now
          id
          w
        ≡ (ok t', w'))
      × (Dict.get w'.store.threads_by_id id ≡ some t')
      × Escalated t t'
unfolding escalate_thread Records.save_thread
escalate_thread-Escalated env id t w e =
    let after =
      merge_thread (Dict.get w.store.threads_by_id id) (escalated id (env.clock w.reads)) in
    (
      after,
      record w {
        reads = suc w.reads;
        store = record w.store { threads_by_id = Dict.put w.store.threads_by_id id after };
      },
      bind-run (on_store (Records.get_thread_by_id id)) _ w (found id t w e) refl,
      get-put_self _ _ _,
      rw e (merge_thread-Escalated t id (env.clock w.reads)),
    )
