-- ===== src/Runtime/Booting.antt =====
-- The local installation over the memory store: internal/app/bootstrap_service.go and
-- bootstrap_read_service.go.
use agent_layer.Prelude.{refl, some, ◌≡◌}
use agent_layer.Prelude.Exec.{ok}
use agent_layer.Prelude.Dict.{get-put_self}
use agent_layer.Memory.Records
use agent_layer.App.Bootstrap.{
  BootstrapInput, BootstrapResult, Writers, Getters, bootstrap_local, get_bootstrap,
  local_organization, local_agent, local_inbox,
}
use agent_layer.Runtime.World.{Env, World, on_store, ambient}

abbrev pub writers : Writers World
writers = record {
  save_organization = λ o. on_store (Records.save_organization o);
  save_agent = λ a. on_store (Records.save_agent a);
  save_inbox = λ i. on_store (Records.save_inbox i);
}

abbrev pub getters : Getters World
getters = record {
  get_organization_by_id = λ id. on_store (Records.get_organization_by_id id);
  get_agent_by_id = λ id. on_store (Records.get_agent_by_id id);
  get_inbox_by_id = λ id. on_store (Records.get_inbox_by_id id);
}

-- A bootstrap always succeeds, reading the bootstrap back returns what it returned, and mail to the
-- address it was given finds its inbox.
pub bootstrap_read_back :
    (env : Env) (input : BootstrapInput) (w : World)
    → (r : BootstrapResult) × (w' : World) × (bootstrap_local writers (ambient env).now input w
        ≡ (ok r, w'))
      × (get_bootstrap getters w' ≡ (ok r, w'))
      × (on_store (Records.find_by_email_address input.inbox_address) w' ≡ (ok (some r.inbox), w'))
unfolding bootstrap_local local_organization local_agent local_inbox get_bootstrap
    Records.save_organization Records.save_agent Records.save_inbox Records.get_organization_by_id
    Records.get_agent_by_id Records.get_inbox_by_id Records.find_by_email_address
bootstrap_read_back env input w =
    let at = env.clock w.reads in
    let o = local_organization input at in
    let a = local_agent input at o in
    let i = local_inbox input at o a in
    (
      _,
      _,
      refl,
      rw
          (
            get_bootstrap,
            get-put_self w.store.organizations_by_id "org-local" o,
            get-put_self w.store.agents_by_id "agent-local" a,
            get-put_self w.store.inboxes_by_id "inbox-local" i,
          )
          refl,
      rw (get-put_self w.store.inboxes_by_email input.inbox_address i) refl,
    )
