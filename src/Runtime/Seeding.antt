-- ===== src/Runtime/Seeding.antt =====
-- cmd/agentlayer/main.go: what `seedLocalRuntime` does to an installation that was set up before, when
-- the process starts again over the same database.
use agent_layer.Prelude.{String, [], ◌∷◌, ◌≡◌, ◌≢◌, ◌↔◌, refl, ap, eq_iff, arith}
use mathlib.Core.Path.{subst}
use agent_layer.Prelude.Exec.{Result, ok, err, Exec}
use agent_layer.Domain.{Time, Agent}
use agent_layer.Rows.Parties.{agent_to_model, agent_from_model, inbox_to_model}
use agent_layer.Rows.Delivery.{HeaderJson}
use agent_layer.Postgres.Sql.{text, Query, Db, ArrayJson}
use agent_layer.Postgres.Calls.{required_row}
use agent_layer.Postgres.Tables.{Row, IsSql}
use agent_layer.Postgres.Stored.{Answers, saved-ok, same_key-text, stored-read}
use agent_layer.Postgres.Bootstrap
use agent_layer.Postgres.Bootstrap.{
  insert_agent, agent_args, agent_by_id, scan_agent, insert_inbox, inbox_args,
}
use agent_layer.Runtime.Store.{
  RawStore, new_postgres_runtime_store, seed_local_runtime, seed_organization, seed_agent,
  seed_inbox,
}

agents-ne : "agents" ≢ insert_inbox.into
agents-ne = ground (arith, eq_iff "agents" "inboxes")

module _ {S : Type 0} (Has : S → String → Row → Type 0) (json : ArrayJson) (headers : HeaderJson)
    (db : Db S) (sql : IsSql Has db) (raw : RawStore S) (clock : Exec S Time) where
  -- Saving the inbox changes no row of the agents, whether it returns or fails.
  inbox-keeps :
      (s : S) (r : Row) → Has (Bootstrap.save_inbox db seed_inbox s).1 "agents" r ↔ Has s "agents" r
  unfolding Bootstrap.save_inbox inbox_to_model
  inbox-keeps s r = by_result (db.exec insert_inbox (inbox_args (inbox_to_model seed_inbox)) s) refl
    where
      by_result :
          (o : Result (Unit {0}) × S)
          → db.exec insert_inbox (inbox_args (inbox_to_model seed_inbox)) s ≡ o
          → Has (db.exec insert_inbox (inbox_args (inbox_to_model seed_inbox)) s).1 "agents" r
            ↔ Has s "agents" r
      by_result (ok u, s') e = rw e (
          sql.others insert_inbox (inbox_args (inbox_to_model seed_inbox)) s s' "agents" r e
            agents-ne)
      by_result (err x, s') e =
          rw e
            (sql.refused insert_inbox (inbox_args (inbox_to_model seed_inbox)) s s' x "agents" r e)

  -- Starting the process over a database, where the save of the local agent returns: whatever the
  -- database had before, the local agent is then read without a webhook's URL and secret, so that a
  -- bootstrap's settings are lost.
  pub seed-Forgets :
      (s s' : S) (a : Agent)
      → (new_postgres_runtime_store json headers db raw clock).save_agent seed_agent
          ((new_postgres_runtime_store json headers db raw clock).save_organization
            seed_organization s).1
        ≡ (ok a, s')
      → Answers db
          (Query.select agent_by_id)
          (text "agent-local" ∷ [])
          (seed_local_runtime (new_postgres_runtime_store json headers db raw clock) s)
      → (b : Agent) × (((new_postgres_runtime_store json headers db raw clock).get_agent_by_id
            "agent-local"
            (seed_local_runtime (new_postgres_runtime_store json headers db raw clock) s)).0
          ≡ ok b)
        × (b.webhook_url ≡ "")
        × (b.webhook_secret ≡ "")
  unfolding new_postgres_runtime_store seed_local_runtime Bootstrap.save_agent
      Bootstrap.get_agent_by_id agent_to_model agent_from_model
  seed-Forgets s s' a h answers =
      let s₁ = (Bootstrap.save_organization db seed_organization s).1 in
      let s₃ = (Bootstrap.save_inbox db seed_inbox (Bootstrap.save_agent db seed_agent s₁).1).1 in
      let args = agent_args (agent_to_model seed_agent) in
      let (e, _) = saved-ok (db.exec insert_agent args) seed_agent a s₁ s' h in
      let lasts : (r : Row) → Has s₃ "agents" r ↔ Has s' "agents" r = λ r.
        subst (λ x. Has s₃ "agents" r ↔ Has x "agents" r) (ap (λ x. x.1) h)
          (inbox-keeps (Bootstrap.save_agent db seed_agent s₁).1 r) in
      let (c, created, r) =
        stored-read Has db sql insert_agent args agent_by_id (text "agent-local" ∷ [])
          (scan_agent db)
          (λ c. agent_to_model (record seed_agent {
            updated_at = sql.storage.rounded seed_agent.updated_at;
            created_at = c;
          }))
          s₁ s' s₃ e lasts refl answers tt (λ r. refl) refl (λ old. refl)
          (sql.storage.rounded seed_agent.created_at, refl, refl)
          (λ old c m k. rw (same_key-text (old "id") "agent-local" m, k) refl) in
      (
        record seed_agent {
          updated_at = sql.storage.rounded seed_agent.updated_at;
          created_at = c;
        },
        ap (required_row (λ row. ok (agent_from_model row))) r,
        refl,
        refl,
      )
