-- ===== src/Runtime/Http/Posted.antt =====
-- Requests that send a reply or report a delivery: internal/api/reply_handler.go and
-- outbound_callback_handler.go over the services of the process.
use mathlib.Core.Path.{subst}
use agent_layer.Prelude.{
  String, ℕ, true, Option, none, some, ◌==◌, ◌≡◌, ◌≢◌, ◌∙◌, refl, Option-cases, Bool-cases, inl,
  inr, str_ne, ne_str, eq_iff, ◌⊎◌, ap,
}
use agent_layer.Prelude.Exec.{Result, ok, err}
use agent_layer.Prelude.Dict
use agent_layer.Domain.{Thread, SuppressedAddress}
use agent_layer.Text.{Unicode, trim_space, trim_left, trim_right}
use agent_layer.Memory.Listing.{suppresses}
use agent_layer.Outbound.Service.{SendReplyInput, SendReplyResult}
use agent_layer.Api.{
  Request, RequestBody, Response, answer, respond, write_lookup_error, is_not_found,
}
use agent_layer.Api.Paths.{thread_id_from_path}
use agent_layer.Api.Reply.{
  ReplyRequest, ReplyResponse, reply_problem, reply_key, reply_input, reply_refused, reply_response,
  reply_handler, is_suppressed_error,
}
use agent_layer.Runtime.World.{Env, World}
use agent_layer.Runtime.Reply.{submit_reply, submit_new, load_reply}
use agent_layer.Runtime.Submissions.{submit_again, submit_unknown, remembered}
use agent_layer.Runtime.Suppression.{refuses_suppressed}
use agent_layer.Runtime.Http.{post_reply}

module _ (env : Env) (decode : RequestBody → Option ReplyRequest) (request : Request) where
  -- What the handler hands to the service.
  abbrev pub posted : ReplyRequest → SendReplyInput
  posted payload = reply_input env.unicode (thread_id_from_path request.path) request payload

  -- A request that the handler does not refuse itself is answered by the service.
  post_reply-runs :
      (payload : ReplyRequest) (w : World)
      → thread_id_from_path request.path ≢ ""
      → decode request.body ≡ some payload
      → reply_problem env.unicode payload ≡ none
      → post_reply env decode request w
        ≡ answer
            (submit_reply env (posted payload))
            (reply_refused env.unicode)
            (λ result. Response.encoded 202 (reply_response result))
            w
  unfolding post_reply reply_handler
  post_reply-runs payload w i d p = rw (str_ne _ "" i, d, p) refl

  refused-status :
      (e : _)
      → (n : ℕ) × (message : String) × (reply_refused env.unicode e ≡ Response.refused n message)
  unfolding reply_refused write_lookup_error
  refused-status e = elim (Bool-cases (is_suppressed_error env.unicode e)) [
    | inl h ↦ rw h (_, _, refl)
    | inr h ↦ elim (Bool-cases (is_not_found e)) [
      | inl k ↦ rw (h, k) (_, _, refl)
      | inr k ↦ rw (h, k) (_, _, refl)
    ]
  ]

  -- What an accepted request has gone through.
  record Accepts (payload : ReplyRequest) (n : ℕ) (r : ReplyResponse) (w w' : World) : Type 0 where
    pub id : thread_id_from_path request.path ≢ ""
    pub complete : reply_problem env.unicode payload ≡ none
    pub result : SendReplyResult
    pub submitted : submit_reply env (posted payload) w ≡ (ok result, w')
    pub response : r ≡ reply_response result
    pub accepted : n ≡ 202

  abbrev Accepted : ReplyRequest → World → Response ReplyResponse × World → Type 0
  Accepted payload w (Response.refused n message, w') = Unit
  Accepted payload w (Response.encoded n r, w') = Accepts payload n r w w'

  answered-Accepted :
      (payload : ReplyRequest) (w : World)
      → thread_id_from_path request.path ≢ ""
      → reply_problem env.unicode payload ≡ none
      → (o : Result SendReplyResult × World) → submit_reply env (posted payload) w ≡ o
      → Accepted payload w (
        respond
            (reply_refused env.unicode)
            (λ result. Response.encoded 202 (reply_response result))
            o.0,
        o.1,
      )
  answered-Accepted payload w i p (err x, w₁) run = let (k, m, q) = refused-status x in rw q tt
  answered-Accepted payload w i p (ok result, w₁) run = record {
    id = i;
    complete = p;
    result = result;
    submitted = run;
    response = refl;
    accepted = refl;
  }

  post_reply-Accepted :
      (payload : ReplyRequest) (w : World)
      → decode request.body ≡ some payload
      → Accepted payload w (post_reply env decode request w)
  unfolding post_reply reply_handler
  post_reply-Accepted payload w d =
      let id = thread_id_from_path request.path in
      elim (Bool-cases (id == "")) [
        | inl h ↦ rw (post_reply, reply_handler, h) tt
        | inr h ↦ elim (Option-cases (reply_problem env.unicode payload)) [
          | inr (problem, p) ↦ rw (post_reply, reply_handler, h, d, p) tt
          | inl p ↦
              rw (post_reply, reply_handler, h, d, p)
                (answered-Accepted payload w (ne_str id "" h) p
                  (submit_reply env (posted payload) w) refl)
        ]
      ]

trimmed-key : (unicode : Unicode) (s : String) → trim_space unicode s ≢ "" → s ≢ ""
unfolding trim_space trim_left trim_right
trimmed-key unicode s h e = h (ap (trim_space unicode) e)

-- A key that is given in the body or in the header is the key of the reply.
given-key :
    (unicode : Unicode) (request : Request) (payload : ReplyRequest)
    → (trim_space unicode payload.idempotency_key ≢ "")
      ⊎ (trim_space unicode (request.header "Idempotency-Key") ≢ "")
    → reply_key unicode request payload ≢ ""
unfolding reply_key
given-key unicode request payload h =
    elim (Bool-cases (trim_space unicode payload.idempotency_key == "")) [
      | inl blank ↦ rw blank (elim h [
        | inl k ↦ λ _. k ((eq_iff (trim_space unicode payload.idempotency_key) "").0 blank)
        | inr k ↦ k
      ])
      | inr full ↦ rw full (trimmed-key unicode payload.idempotency_key (ne_str _ "" full))
    ]

-- Posting the same reply twice: the second request gets the same response as the first, and changes
-- nothing, so that nothing more is sent. The first was accepted, it names an idempotency key in its
-- body or in its header, and the store keeps the thread of the path under its own id.
pub post_reply_again :
    (env : Env) (decode : RequestBody → Option ReplyRequest) (request : Request)
    (payload : ReplyRequest) (w w' : World) (n : ℕ) (r : ReplyResponse)
    → decode request.body ≡ some payload
    → (trim_space env.unicode payload.idempotency_key ≢ "")
      ⊎ (trim_space env.unicode (request.header "Idempotency-Key") ≢ "")
    → ((t : Thread)
        → Dict.get w.store.threads_by_id (thread_id_from_path request.path) ≡ some t
        → t.id ≡ thread_id_from_path request.path)
    → post_reply env decode request w ≡ (Response.encoded n r, w')
    → post_reply env decode request w' ≡ (Response.encoded n r, w')
unfolding reply_input
post_reply_again env decode request payload w w' n r d k kept run =
    let a =
      subst (Accepted env decode request payload w) run
        (post_reply-Accepted env decode request payload w d) in
    post_reply-runs env decode request payload w' a.id d a.complete
    ∙ rw
        (
          submit_again env (posted env decode request payload) w w' a.result
              (given-key env.unicode request payload k) kept a.submitted,
          a.response,
          a.accepted,
        )
        refl

-- Posting a reply to a suppressed recipient: the answer is 409, and nothing is written or sent. The
-- request is complete, no reply was made with its key, the records that it names are in the store, and
-- the store has a suppression of the contact's address in the organization.
pub post_reply_suppressed :
    (env : Env) (decode : RequestBody → Option ReplyRequest) (request : Request)
    (payload : ReplyRequest) (loaded : SendReplyInput) (id : String) (s : SuppressedAddress)
    (w : World)
    → thread_id_from_path request.path ≢ ""
    → decode request.body ≡ some payload
    → reply_problem env.unicode payload ≡ none
    → remembered env (posted env decode request payload) w ≡ none
    → load_reply env (posted env decode request payload) w ≡ (ok loaded, w)
    → Dict.get w.store.suppressions_by_id id ≡ some s
    → suppresses loaded.organization.id loaded.contact.email_address s ≡ true
    → post_reply env decode request w ≡ (Response.refused 409 "recipient is suppressed", w)
unfolding reply_refused submit_new
post_reply_suppressed env decode request payload loaded id s w i d p k l e h =
    post_reply-runs env decode request payload w i d p
    ∙ rw
        (
          submit_unknown env (posted env decode request payload) w k,
          l,
          refuses_suppressed env loaded id s w e h,
        )
        refl
