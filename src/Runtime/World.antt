-- ===== src/Runtime/World.antt =====
-- The state of the process of cmd/agentlayer/main.go with the memory store, and its surroundings:
-- what the clock, the random source, the provider and the agent's endpoint answer is a parameter,
-- one answer for each call, and what was sent to the provider and to the endpoint is kept.
use agent_layer.Prelude.{String, ℕ, suc, Option, List, [], ◌∷◌, ◌++◌, length}
use agent_layer.Prelude.Exec.{Exec, Result, ok}
use agent_layer.Domain.{Time, Bytes}
use agent_layer.Core.{Ambient, ParsedMessage, OutboundSendRequest, SendResult}
use agent_layer.Platform.{Platform}
use agent_layer.Text.{Unicode}
use agent_layer.Webhooks.Signing.{Crypto}
use agent_layer.Webhooks.Delivery.{DispatchInput, HttpResponse, MessageReceivedPayload}
use agent_layer.Memory.State.{Store}

pub record Env : Type 1 where
  pub platform : Platform
  pub unicode : Unicode
  pub crypto : Crypto
  pub hex : ℕ → Option String
  pub clock : ℕ → Time
  pub provider : ℕ → OutboundSendRequest → Result SendResult
  pub endpoint : ℕ → DispatchInput → Result HttpResponse
  pub decode : Bytes → Result ParsedMessage
  pub marshal : MessageReceivedPayload → Result Bytes
  pub webhook_url : String
  pub webhook_secret : String

pub record World : Type 0 where
  pub store : Store
  pub draws : ℕ
  pub reads : ℕ
  pub sent : List OutboundSendRequest
  pub posts : List DispatchInput

-- A method of the store, called from the process.
abbrev pub on_store : {A : Type 0} → Exec Store A → Exec World A
on_store m w = let (r, s) = m w.store in (r, record w { store = s })

module _ (env : Env) where
  abbrev pub ambient : Ambient World
  ambient = record {
    random_hex = λ w. (ok (env.hex w.draws), record w { draws = suc w.draws });
    now = λ w. (ok (env.clock w.reads), record w { reads = suc w.reads });
  }

  abbrev pub call_provider : OutboundSendRequest → Exec World SendResult
  call_provider request w =
      (env.provider (length w.sent) request, record w { sent = w.sent ++ request ∷ [] })

  abbrev pub call_endpoint : DispatchInput → Exec World HttpResponse
  call_endpoint input w =
      (env.endpoint (length w.posts) input, record w { posts = w.posts ++ input ∷ [] })
