-- ===== src/Api/Refusals.antt =====
-- internal/api: what the handlers that act do with a request that they refuse.
use agent_layer.Prelude.{
  String, Option, Option-cases, Bool-cases, inl, inr, ◌==◌, ◌≡◌, ◌≢◌, refl, arith,
}
use agent_layer.Prelude.Int.{ℤ}
use agent_layer.Prelude.Exec.{Exec, Result, Result-cases, ok, err, Error}
use agent_layer.Domain.{Thread, ContactMemoryEntry, Bytes}
use agent_layer.Text.{Unicode, trim_space}
use agent_layer.Inbound.Service.{HandleResult}
use agent_layer.Outbound.Service.{SendReplyInput, SendReplyResult}
use agent_layer.Outbound.Callback.{CallbackFlowInput, CallbackFlowResult, DeliveryCallbackEvent}
use agent_layer.Webhooks.Delivery.{DeliveryResult}
use agent_layer.Webhooks.Sweep.{RetrySweepResult}
use agent_layer.App.Bootstrap.{BootstrapInput}
use agent_layer.App.Writes.{CreateContactMemoryInput}
use agent_layer.Api.{
  Formats, RequestBody, Request, Response, read_all, respond, status, write_lookup_error,
  is_not_found,
}
use agent_layer.Api.Lookups.{BootstrapResponse}
use agent_layer.Api.Lists.{requested_limit, webhook_retry_handler}
use agent_layer.Api.Actions.{
  bootstrap_problem, callback_refused, contact_of_email, bootstrap_handler, contact_memory_handler,
  inbound_reprocess_handler, outbound_callback_handler, thread_escalate_handler,
  webhook_replay_handler,
}
use agent_layer.Api.Reply.{
  ReplyRequest, reply_problem, reply_refused, reply_input, is_suppressed_error, reply_handler,
}
use agent_layer.Api.Paths.{
  thread_id_from_escalate_path, contact_id_from_memory_path, webhook_delivery_id_from_replay_path,
  thread_id_from_path,
}

-- A response with the status 400 leaves the state as it was.
abbrev pub BadRequestKeeps : {S A : Type 0} → S → Response A × S → Type 0
BadRequestKeeps s (r, s') = status r ≡ 400 → s' ≡ s

lookup_error-status :
    (A : Type 0) (m n : String) (e : Error) → status (write_lookup_error {A = A} m n e) ≢ 400
unfolding write_lookup_error
lookup_error-status A m n e = elim (Bool-cases (is_not_found e)) [
  | inl h ↦ rw h (λ p. omega (arith, p))
  | inr h ↦ rw h (λ p. omega (arith, p))
]

callback_refused-status : (A : Type 0) (e : Error) → status (callback_refused {A = A} e) ≢ 400
unfolding callback_refused
callback_refused-status A Error.provider_message_not_found p = omega (arith, p)
callback_refused-status A (Error.not_found message) p = omega (arith, p)
callback_refused-status A Error.recipient_suppressed p = omega (arith, p)
callback_refused-status A Error.replay_request_unavailable p = omega (arith, p)
callback_refused-status A (Error.failure message) p = omega (arith, p)

reply_refused-status : (unicode : Unicode) (e : Error) → status (reply_refused unicode e) ≢ 400
unfolding reply_refused
reply_refused-status unicode e = elim (Bool-cases (is_suppressed_error unicode e)) [
  | inl h ↦ rw h (λ p. omega (arith, p))
  | inr h ↦ rw h (lookup_error-status _ _ _ e)
]

module _ {S A B : Type 0} where
  respond-Keeps :
      (on_error : Error → Response A) (on_result : B → Response A) (s : S) (o : Result B × S)
      → ((e : Error) → status (on_error e) ≢ 400)
      → ((b : B) → status (on_result b) ≢ 400)
      → BadRequestKeeps s (respond on_error on_result o.0, o.1)
  respond-Keeps on_error on_result s (ok b, s') h k p = absurd (k b p)
  respond-Keeps on_error on_result s (err e, s') h k p = absurd (h e p)

module _ {S : Type 0} (unicode : Unicode) (formats : Formats) (request : Request) (s : S) where
  bootstrap-Keeps :
      (decode : RequestBody → Option BootstrapInput)
      (bootstrap : BootstrapInput → Exec S BootstrapResponse)
      → BadRequestKeeps s (bootstrap_handler unicode decode bootstrap request s)
  unfolding bootstrap_handler
  bootstrap-Keeps decode bootstrap = elim (Option-cases (decode request.body)) [
    | inl e ↦ rw (bootstrap_handler, e) (λ _. refl)
    | inr (payload, e) ↦
        rw (bootstrap_handler, e)
          (elim (Option-cases (bootstrap_problem unicode payload)) [
            | inr (problem, h) ↦ rw h (λ _. refl)
            | inl h ↦ rw h (
                respond-Keeps _ _ s (bootstrap payload s) (λ x p. omega (arith, p))
                  (λ b p. omega (arith, p)))
          ])
  ]

  reprocess-Keeps :
      (decode : RequestBody → Option String) (reprocess : String → Exec S HandleResult)
      → BadRequestKeeps s (inbound_reprocess_handler unicode decode reprocess request s)
  unfolding inbound_reprocess_handler
  reprocess-Keeps decode reprocess = elim (Option-cases (decode request.body)) [
    | inl e ↦ rw (inbound_reprocess_handler, e) (λ _. refl)
    | inr (key, e) ↦
        rw (inbound_reprocess_handler, e)
          (elim (Bool-cases (trim_space unicode key == "")) [
            | inl h ↦ rw h (λ _. refl)
            | inr h ↦ rw h (
                respond-Keeps _ _ s (reprocess key s) (lookup_error-status _ _ _)
                  (λ b p. omega (arith, p)))
          ])
  ]

  memory-Keeps :
      (decode : RequestBody → Option CreateContactMemoryInput)
      (create : String → CreateContactMemoryInput → Exec S ContactMemoryEntry)
      → BadRequestKeeps s (contact_memory_handler decode create request s)
  unfolding contact_memory_handler
  memory-Keeps decode create =
      let id = contact_id_from_memory_path request.path in
      elim (Bool-cases (id == "")) [
        | inl h ↦ rw h (λ _. refl)
        | inr h ↦ rw h (elim (Option-cases (decode request.body)) [
          | inl e ↦ rw e (λ _. refl)
          | inr (payload, e) ↦ rw e (
              respond-Keeps _ _ s (create id payload s) (lookup_error-status _ _ _)
                (λ b p. omega (arith, p)))
        ])
      ]

  escalate-Keeps :
      (decode : RequestBody → Option String) (escalate : String → String → Exec S Thread)
      → BadRequestKeeps s (thread_escalate_handler decode escalate request s)
  unfolding thread_escalate_handler
  escalate-Keeps decode escalate =
      let id = thread_id_from_escalate_path request.path in
      elim (Bool-cases (id == "")) [
        | inl h ↦ rw h (λ _. refl)
        | inr h ↦ rw h (elim (Option-cases (decode request.body)) [
          | inl e ↦ rw e (λ _. refl)
          | inr (reason, e) ↦ rw e (
              respond-Keeps _ _ s (escalate id reason s) (lookup_error-status _ _ _)
                (λ b p. omega (arith, p)))
        ])
      ]

  replay-Keeps :
      (replay : String → Exec S DeliveryResult)
      → BadRequestKeeps s (webhook_replay_handler formats replay request s)
  unfolding webhook_replay_handler
  replay-Keeps replay =
      let id = webhook_delivery_id_from_replay_path request.path in
      elim (Bool-cases (id == "")) [
        | inl h ↦ rw h (λ _. refl)
        | inr h ↦ rw h (
            respond-Keeps _ _ s (replay id s) (lookup_error-status _ _ _) (λ b p. omega (arith, p)))
      ]

  retry-Keeps :
      (retry : ℤ → Exec S RetrySweepResult)
      → BadRequestKeeps s (webhook_retry_handler formats retry request s)
  unfolding webhook_retry_handler
  retry-Keeps retry = elim (Option-cases (requested_limit formats request)) [
    | inl h ↦ rw h (λ _. refl)
    | inr (limit, h) ↦
        rw h
          (respond-Keeps _ _ s (retry limit s) (λ x p. omega (arith, p)) (λ b p. omega (arith, p)))
  ]

  callback-Keeps :
      (contact_email : Bytes → Option String) (parse : Bytes → Result DeliveryCallbackEvent)
      (apply : CallbackFlowInput → Exec S CallbackFlowResult)
      → BadRequestKeeps s (outbound_callback_handler unicode contact_email parse apply request s)
  unfolding outbound_callback_handler
  callback-Keeps contact_email parse apply = elim (Option-cases (read_all request.body)) [
    | inl e ↦ rw (outbound_callback_handler, e) (λ _. refl)
    | inr (body, e) ↦
        rw (outbound_callback_handler, e)
          (elim (Option-cases (contact_email body)) [
            | inl f ↦ rw f (λ _. refl)
            | inr (email, f) ↦ rw f (elim (Bool-cases (trim_space unicode email == "")) [
              | inl h ↦ rw h (λ _. refl)
              | inr h ↦ rw h (elim (Result-cases (parse body)) [
                | inl (x, q) ↦ rw q (λ _. refl)
                | inr (event, q) ↦ rw q (
                    respond-Keeps _ _ s
                      (apply (record { event = event; contact = contact_of_email email }) s)
                      (callback_refused-status _) (λ b p. omega (arith, p)))
              ])
            ])
          ])
  ]

  reply-Keeps :
      (decode : RequestBody → Option ReplyRequest) (send : SendReplyInput → Exec S SendReplyResult)
      → BadRequestKeeps s (reply_handler unicode decode send request s)
  unfolding reply_handler
  reply-Keeps decode send =
      let id = thread_id_from_path request.path in
      elim (Bool-cases (id == "")) [
        | inl h ↦ rw h (λ _. refl)
        | inr h ↦ rw h (elim (Option-cases (decode request.body)) [
          | inl e ↦ rw e (λ _. refl)
          | inr (payload, e) ↦ rw e (elim (Option-cases (reply_problem unicode payload)) [
            | inr (problem, q) ↦ rw q (λ _. refl)
            | inl q ↦ rw q (
                respond-Keeps _ _ s (send (reply_input unicode id request payload) s)
                  (reply_refused-status unicode) (λ b p. omega (arith, p)))
          ])
        ])
      ]

-- The handlers that act, for one request in one state, with the services that they hold.
pub record Services (S : Type 0) : Type 0 where
  pub bootstrap : BootstrapInput → Exec S BootstrapResponse
  pub reprocess : String → Exec S HandleResult
  pub create_memory : String → CreateContactMemoryInput → Exec S ContactMemoryEntry
  pub escalate : String → String → Exec S Thread
  pub replay : String → Exec S DeliveryResult
  pub retry : ℤ → Exec S RetrySweepResult
  pub apply_callback : CallbackFlowInput → Exec S CallbackFlowResult
  pub send_reply : SendReplyInput → Exec S SendReplyResult

-- What encoding/json and the callback parser make of a body.
pub record Decoders : Type 0 where
  pub bootstrap : RequestBody → Option BootstrapInput
  pub object_key : RequestBody → Option String
  pub memory : RequestBody → Option CreateContactMemoryInput
  pub reason : RequestBody → Option String
  pub contact_email : Bytes → Option String
  pub callback : Bytes → Result DeliveryCallbackEvent
  pub reply : RequestBody → Option ReplyRequest

pub record KeepOnBadRequest {S : Type 0} (unicode : Unicode) (formats : Formats)
    (decoders : Decoders) (services : Services S) (request : Request) (s : S) : Type 0 where
  pub bootstrap :
      BadRequestKeeps s (bootstrap_handler unicode decoders.bootstrap services.bootstrap request s)
  pub reprocess :
      BadRequestKeeps s
        (inbound_reprocess_handler unicode decoders.object_key services.reprocess request s)
  pub memory :
      BadRequestKeeps s (contact_memory_handler decoders.memory services.create_memory request s)
  pub escalate :
      BadRequestKeeps s (thread_escalate_handler decoders.reason services.escalate request s)
  pub replay : BadRequestKeeps s (webhook_replay_handler formats services.replay request s)
  pub retry : BadRequestKeeps s (webhook_retry_handler formats services.retry request s)
  pub callback : BadRequestKeeps s (
      outbound_callback_handler unicode decoders.contact_email decoders.callback
        services.apply_callback request s)
  pub reply : BadRequestKeeps s (reply_handler unicode decoders.reply services.send_reply request s)

-- Whatever the request, the state and the services: if one of the handlers that act answers with the
-- status 400, it has changed nothing.
pub bad_request-Keeps :
    {S : Type 0} (unicode : Unicode) (formats : Formats) (decoders : Decoders)
    (services : Services S) (request : Request) (s : S)
    → KeepOnBadRequest unicode formats decoders services request s
bad_request-Keeps unicode formats decoders services request s = record {
  bootstrap = bootstrap-Keeps unicode formats request s decoders.bootstrap services.bootstrap;
  reprocess = reprocess-Keeps unicode formats request s decoders.object_key services.reprocess;
  memory = memory-Keeps unicode formats request s decoders.memory services.create_memory;
  escalate = escalate-Keeps unicode formats request s decoders.reason services.escalate;
  replay = replay-Keeps unicode formats request s services.replay;
  retry = retry-Keeps unicode formats request s services.retry;
  callback =
      callback-Keeps unicode formats request s decoders.contact_email decoders.callback
        services.apply_callback;
  reply = reply-Keeps unicode formats request s decoders.reply services.send_reply;
}
