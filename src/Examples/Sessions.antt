-- ===== src/Examples/Sessions.antt =====
-- An SMTP session that receives a message, a bootstrap, a signed request, and a message that is
-- delivered again.
use agent_layer.Prelude.{String, ℕ, suc, eq_iff, ◌≢◌, some, [], ◌∷◌, ◌≡◌, refl, arith}
use agent_layer.Prelude.Int.{pos}
use agent_layer.Prelude.Exec.{ok}
use agent_layer.Prelude.Dict
use agent_layer.Domain.{zero_delivery}
use agent_layer.Core.{WebhookDispatchRequest}
use agent_layer.Memory.Records
use agent_layer.App.Bootstrap.{BootstrapInput, BootstrapResult, bootstrap_local, get_bootstrap}
use agent_layer.App.InboundRuntime
use agent_layer.Inbound.Service.{HandleResult}
use agent_layer.Runtime.World.{World, on_store}
use agent_layer.Runtime.World as Process
use agent_layer.Runtime.Wiring.{inbound_runtime}
use agent_layer.Runtime.Reads.{Same}
use agent_layer.Runtime.Known.{duplicate_result}
use agent_layer.Runtime.Duplicates.{IsStored}
use agent_layer.Runtime.Redelivery.{redelivery_silent}
use agent_layer.Runtime.Booting.{writers, getters, bootstrap_read_back}
use agent_layer.Platform.{inbound_message_key, scoped_key}
use agent_layer.Memory.State.{Store}
use agent_layer.Webhooks.Signing.{sign}
use agent_layer.Webhooks.Signatures.{Signed, sign-Signed}
use agent_layer.Smtp.Session.{Session, Edge, new_session, mail, rcpt, receive_content, keep_message}
use agent_layer.Smtp.Reached.{
  Reached, begin, by_mail, by_rcpt, IsAddressed, Enqueued, Reached-IsAddressed,
  receive_content-Enqueued,
}
use agent_layer.Examples.Scene.{
  env, crypto, world, store, inbox, received, hello, ann, thread, earlier,
}

-- An edge with one inbox, that counts what it is asked to keep.
abbrev edge : Edge ℕ
edge = record {
  find_by_email_address = λ address s. (ok (some inbox), s);
  put = λ key raw s. (ok tt, suc s);
  enqueue = λ receipt s. (ok tt, suc s);
  now = λ s. (ok (pos 500), s);
  next_key = λ at target s. (ok "raw/1", s);
}

abbrev session : Session
session = record {
  session_id = "t1";
  sender = "ann@example.com";
  recipient = "agent@localhost";
  target_inbox = inbox;
}

session-Reached : Reached edge session 0
unfolding mail rcpt new_session
session-Reached = by_rcpt "agent@localhost" _ _ (by_mail "ann@example.com" _ _ (begin "t1" 0))

Reached-IsAddressed_example : IsAddressed edge session
Reached-IsAddressed_example = Reached-IsAddressed edge session 0 session-Reached

receive_content-Enqueued_example : Enqueued edge session (104 ∷ []) 0 2
unfolding receive_content keep_message
receive_content-Enqueued_example =
    receive_content-Enqueued edge (104 ∷ []) session 0 (session, 2) session-Reached refl

abbrev wanted : BootstrapInput
wanted = record {
  organization_name = "Acme";
  agent_name = "Bot";
  agent_status = "";
  webhook_url = "http://bot";
  webhook_secret = "s";
  inbox_address = "bot@acme.test";
  inbox_domain = "acme.test";
  inbox_display_name = "Bot";
}

bootstrap_read_back_example :
    (r : BootstrapResult) × (w' : World) × (bootstrap_local writers
        (Process.ambient env).now
        wanted
        world
      ≡ (ok r, w'))
    × (get_bootstrap getters w' ≡ (ok r, w'))
    × (on_store (Records.find_by_email_address "bot@acme.test") w' ≡ (ok (some r.inbox), w'))
bootstrap_read_back_example = bootstrap_read_back env wanted world

abbrev request : WebhookDispatchRequest
request = record {
  delivery = zero_delivery;
  payload = 104 ∷ [];
  headers = ("Content-Type", "application/json") ∷ [];
}

s-ne-empty : ◌≢◌ {A = String} "s" ""
s-ne-empty = ground (arith, eq_iff "s" "")

sign-Signed_example :
    (after : WebhookDispatchRequest) × (sign crypto (Process.ambient env).now request "s" world
      ≡ (ok after, record world { reads = 1 }))
    × Signed crypto "s" "2026-01-01T00:00:00Z" request after
sign-Signed_example =
    sign-Signed crypto (Process.ambient env).now request "s" world (record world { reads = 1 })
      (pos 1000) s-ne-empty refl

abbrev known : HandleResult
known =
    duplicate_result hello ann thread (record earlier { message_id_header = "<m1@example.com>" })

abbrev knowing : Store
knowing = record store {
  messages_by_id = ("message-1", known.message) ∷ [];
  messages_by_inbound_key =
      (inbound_message_key env.platform "inbox-local" "<m1@example.com>", "message-1") ∷ [];
}

m1-ne-empty : ◌≢◌ {A = String} "<m1@example.com>" ""
m1-ne-empty = ground (arith, eq_iff "<m1@example.com>" "")

known-IsStored : IsStored env received known knowing
unfolding Dict.get inbound_message_key scoped_key
known-IsStored = record {
  identified = m1-ne-empty;
  readable = refl;
  found = refl;
  thread = refl;
  contact = refl;
}

redelivery_silent_example :
    (w' : World) × (InboundRuntime.handle_stored_message
        (inbound_runtime env store)
        received
        (record world { store = knowing })
      ≡ (ok (duplicate_result hello ann thread known.message), w'))
    × Same (record world { store = knowing }) w'
redelivery_silent_example =
    redelivery_silent env received store known (record world { store = knowing }) known-IsStored
