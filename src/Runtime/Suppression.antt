-- ===== src/Runtime/Suppression.antt =====
-- Delivery callbacks and the replies after them: internal/outbound/callback_flow.go, suppression.go
-- and service.go over the memory store.
use mathlib.Core.Path.{subst}
use agent_layer.Prelude.{
  String, Bool, true, false, ◌==◌, ◌||◌, none, some, Bool-cases, inl, inr, ◌≡◌, sym, refl, eq_refl,
  arith,
}
use agent_layer.Prelude.Exec.{
  Exec, Result, ok, err, pure, ◌>>=◌, bind-ok, recipient_suppressed, provider_message_not_found,
}
use agent_layer.Prelude.Dict
use agent_layer.Prelude.Dict.{get-put_self}
use agent_layer.Domain.{Time, Message, SuppressedAddress}
use agent_layer.Memory.Records
use agent_layer.Memory.Messages
use agent_layer.Memory.Listing.{suppresses}
use agent_layer.Memory.Suppressed.{is_suppressed_stored}
use agent_layer.Outbound.Recorders.{
  delivery_state_hard_bounce, delivery_state_complaint, with_status, record_status,
}
use agent_layer.Outbound.Service.{SendReplyInput, send_reply, check_suppressed}
use agent_layer.Outbound.Callback
use agent_layer.Outbound.Callback.{CallbackFlowInput, CallbackFlowResult, SuppressionInput}
use agent_layer.Runtime.World.{Env, World, on_store, ambient}
use agent_layer.Runtime.Reply.{reply_service, apply_delivery_callback, callback_service}

-- The statuses after which no more mail goes to the address.
abbrev pub is_final : String → Bool
is_final status = status == delivery_state_hard_bounce || status == delivery_state_complaint

module _ (env : Env) where
  abbrev save : SuppressedAddress → Exec World SuppressedAddress
  save r = on_store (Records.save_suppression r)

  -- A suppression in the store refuses the reply before anything is written or sent.
  pub refuses_suppressed :
      (reply : SendReplyInput) (id : String) (r : SuppressedAddress) (w : World)
      → Dict.get w.store.suppressions_by_id id ≡ some r
      → suppresses reply.organization.id reply.contact.email_address r ≡ true
      → send_reply (reply_service env) reply w ≡ (err recipient_suppressed, w)
  unfolding send_reply check_suppressed
  refuses_suppressed reply id r w e h =
      rw
        (is_suppressed_stored reply.organization.id reply.contact.email_address env.platform w.store
          id r e h)
        refl

  apply_suppression_final :
      (i : SuppressionInput) (w : World)
      → is_final i.status ≡ true
      → (r : SuppressedAddress) × (w' : World) × (Callback.apply_suppression save (ambient env) i w
          ≡ (ok (r, true), w'))
        × (Dict.get w'.store.suppressions_by_id r.id ≡ some r)
        × (r.organization_id ≡ i.message.organization_id)
        × (r.email_address ≡ i.contact.email_address)
  unfolding Callback.apply_suppression Callback.suppress Callback.suppression_record
      Records.save_suppression
  apply_suppression_final i w h = rw h (_, _, refl, get-put_self _ _ _, refl, refl)

  abbrev Blocks : CallbackFlowInput → Result CallbackFlowResult × World → Type 0
  Blocks input (err x, w) = Unit
  Blocks input (ok r, w) =
      (reply : SendReplyInput)
      → reply.organization.id ≡ r.message.organization_id
      → reply.contact.email_address ≡ input.contact.email_address
      → send_reply (reply_service env) reply w ≡ (err recipient_suppressed, w)

  abbrev flow_input : CallbackFlowInput → Message → SuppressionInput
  flow_input input message = record {
    message = message;
    contact = input.contact;
    status = input.event.status;
    occurred_at = input.event.occurred_at;
  }

  abbrev suppress_then_answer : CallbackFlowInput → Message → Exec World CallbackFlowResult
  suppress_then_answer input message =
      Callback.apply_suppression save (ambient env) (flow_input input message) >>= λ changed.
      pure (record { message = message; suppression = changed.0; suppressed = changed.1 })

  suppressed-Blocks :
      (input : CallbackFlowInput) (m : Message) (w : World)
      → is_final input.event.status ≡ true
      → Blocks input (suppress_then_answer input m w)
  suppressed-Blocks input m w h =
      let (r, w', run, kept, org, email) = apply_suppression_final (flow_input input m) w h in
      rw run (λ reply o e. refuses_suppressed reply r.id r w' kept (
        rw (org, email, o, e, eq_refl m.organization_id, eq_refl input.contact.email_address) refl))

-- After a callback of a hard bounce or a complaint was applied, a reply to the contact's address, in
-- the organization of the message that bounced, is refused as suppressed, and nothing is written or
-- sent for it.
pub bounce_blocks_replies :
    (env : Env) (input : CallbackFlowInput) (w w' : World) (r : CallbackFlowResult)
    (reply : SendReplyInput)
    → is_final input.event.status ≡ true
    → apply_delivery_callback env input w ≡ (ok r, w')
    → reply.organization.id ≡ r.message.organization_id
    → reply.contact.email_address ≡ input.contact.email_address
    → send_reply (reply_service env) reply w' ≡ (err recipient_suppressed, w')
unfolding apply_delivery_callback Callback.apply
bounce_blocks_replies env input w w' r reply final run o e =
    let (m, w₁, _, rest) =
      bind-ok (Callback.apply_callback (callback_service env) input.event)
        (suppress_then_answer env input) w r w' run in
    subst (Blocks env input) rest (suppressed-Blocks env input m w₁ final) reply o e

-- What an applied callback returns and leaves in the store.
pub record Applied (input : CallbackFlowInput) (w w' : World) (m : Message) (r : CallbackFlowResult)
    : Type 0 where
  pub message : r.message ≡ with_status m input.event.status input.event.occurred_at
  pub stored : Dict.get w'.store.messages_by_id r.message.id ≡ some r.message
  pub suppressed : r.suppressed ≡ is_final input.event.status
  pub kept :
      is_final input.event.status ≡ false → w'.store.suppressions_by_id ≡ w.store.suppressions_by_id
  pub stops :
      is_final input.event.status ≡ true
      → (Dict.get w'.store.suppressions_by_id r.suppression.id ≡ some r.suppression)
        × (r.suppression.organization_id ≡ m.organization_id)
        × (r.suppression.email_address ≡ input.contact.email_address)
        × (r.suppression.reason ≡ input.event.status)
  pub state : r.message.delivery_state ≡ input.event.status
  pub sent : w'.sent ≡ w.sent

-- A callback for a provider id that no message has is refused, and changes nothing.
pub callback_unknown :
    (env : Env) (input : CallbackFlowInput) (w : World)
    → Dict.get w.store.messages_by_provider_id input.event.provider_message_id ≡ none
    → apply_delivery_callback env input w ≡ (err provider_message_not_found, w)
unfolding apply_delivery_callback Callback.apply Callback.apply_callback
    Messages.find_by_provider_message_id
callback_unknown env input w e = rw e refl

with_status-state :
    (m : Message) (status : String) (at : Time) → (with_status m status at).delivery_state ≡ status
unfolding with_status
with_status-state m status at = ground arith

with_status-organization :
    (m : Message) (status : String) (at : Time)
    → (with_status m status at).organization_id ≡ m.organization_id
unfolding with_status
with_status-organization m status at = ground arith

-- A callback for the provider id of a message returns the message with the new status and its time,
-- and the store has it so under its id. A suppression is made exactly for a hard bounce and for a
-- complaint; otherwise the suppressions are as before. Nothing is sent.
pub callback_known :
    (env : Env) (input : CallbackFlowInput) (w : World) (m : Message)
    → Dict.get w.store.messages_by_provider_id input.event.provider_message_id ≡ some m
    → (r : CallbackFlowResult) × (w' : World) × (apply_delivery_callback env input w ≡ (ok r, w'))
      × Applied input w w' m r
unfolding apply_delivery_callback Callback.apply Callback.apply_callback
    Messages.find_by_provider_message_id record_status Messages.save_message
    Callback.apply_suppression Callback.suppress Records.save_suppression
callback_known env input w m e = elim (Bool-cases (is_final input.event.status)) [
  | inl h ↦
      rw (e, h)
        (
          _,
          _,
          refl,
          record {
            message = refl;
            stored = get-put_self _ _ _;
            suppressed = sym h;
            kept = λ no. cc;
            stops = λ yes. (
              get-put_self _ _ _,
              with_status-organization m input.event.status input.event.occurred_at,
              refl,
              refl,
            );
            state = with_status-state m _ _;
            sent = refl;
          },
        )
  | inr h ↦
      rw (e, h)
        (
          _,
          _,
          refl,
          record {
            message = refl;
            stored = get-put_self _ _ _;
            suppressed = sym h;
            kept = λ _. refl;
            stops = λ yes. cc;
            state = with_status-state m _ _;
            sent = refl;
          },
        )
]
