-- ===== src/Runtime/Submissions.antt =====
-- Submitting a reply with an idempotency key: `replyServiceAdapter` of cmd/agentlayer/main.go.
use agent_layer.Prelude.{
  str_ne, ◌⊎◌, eq_iff, String, true, false, ◌==◌, Option, none, some, Option-cases, Bool-cases, inl,
  inr, ◌≡◌, ◌≢◌, ◌∙◌, refl, ap, arith,
}
use mathlib.Core.Path.{subst}
use agent_layer.Prelude.Exec.{
  Exec, Result, Result-cases, ok, err, Error, not_found, pure, continue, ◌>>=◌, ◌>>◌,
}
use agent_layer.Prelude.Dict
use agent_layer.Prelude.Dict.{get-put_self}
use agent_layer.Domain.{Message, Thread}
use agent_layer.Memory.Records
use agent_layer.Memory.Records.{merge_thread}
use agent_layer.Memory.Messages
use agent_layer.Memory.Messages.{by_index}
use agent_layer.Outbound.Assembler.{ReplyMetadata, assemble_reply}
use agent_layer.Memory.Listing
use agent_layer.Outbound.Recorders.{record_queued_reply, keep_raw, sent_message}
use agent_layer.Outbound.Service.{
  check_suppressed, assembly_input, SendReplyInput, SendReplyResult, send_reply, queue_reply,
}
use agent_layer.Runtime.World.{Env, World}
use agent_layer.Runtime.Reply.{
  reply_service, submit_reply, submission_key, earlier_reply, report_earlier, remember_reply,
  submit_new, load_reply,
}
use agent_layer.Memory.State.{Store}
use agent_layer.Runtime.Replies.{Sendable, Ends, send_reply-Ends}

-- The message of an earlier submission of a thread with an idempotency key.
abbrev pub remembered : Env → SendReplyInput → World → Option Message
remembered env input w =
    by_index w.store.messages_by_id
      (Dict.get w.store.reply_submissions_by_key (submission_key env input))

abbrev pub earlier_result : Thread → Message → SendReplyResult
earlier_result thread m = record {
  thread = thread;
  message = m;
  send_result = record { provider_message_id = m.provider_message_id; accepted_at = m.sent_at };
}

same_answer :
    (r : SendReplyResult) (m : Message)
    → r.message ≡ sent_message m r.send_result
    → earlier_result r.thread r.message ≡ r
unfolding sent_message
same_answer r m e i = record {
  thread = r.thread;
  message = r.message;
  send_result = record {
    provider_message_id = (e i).provider_message_id;
    accepted_at = (e i).sent_at;
  };
}

module _ (env : Env) where
  -- A submission whose key the store remembers is answered from the store.
  pub submit_known :
      (input : SendReplyInput) (w : World) (m : Message) (t : Thread)
      → input.idempotency_key ≢ ""
      → remembered env input w ≡ some m
      → Dict.get w.store.threads_by_id input.thread.id ≡ some t
      → submit_reply env input w ≡ (ok (earlier_result t m), w)
  unfolding submit_reply earlier_reply Messages.find_reply_by_submission_key report_earlier
      Records.get_thread_by_id
  submit_known input w m t i f g = rw (str_ne _ _ i, f, g) refl

  submit_orphan :
      (input : SendReplyInput) (w : World) (m : Message)
      → input.idempotency_key ≢ ""
      → remembered env input w ≡ some m
      → Dict.get w.store.threads_by_id input.thread.id ≡ none
      → submit_reply env input w ≡ (err (not_found "thread"), w)
  unfolding submit_reply earlier_reply Messages.find_reply_by_submission_key report_earlier
      Records.get_thread_by_id
  submit_orphan input w m i f g = rw (str_ne _ _ i, f, g) refl

  pub submit_unknown :
      (input : SendReplyInput) (w : World)
      → remembered env input w ≡ none
      → submit_reply env input w ≡ submit_new env input w
  unfolding submit_reply earlier_reply Messages.find_reply_by_submission_key
  submit_unknown input w f = elim (Bool-cases (input.idempotency_key == "")) [
    | inl e ↦ rw e refl
    | inr e ↦ rw (e, f) refl
  ]

  abbrev Loaded : SendReplyInput → World → Result SendReplyInput × World → Type 0
  Loaded input w (err x, w') = w' ≡ w
  Loaded input w (ok l, w') =
      (w' ≡ w) × (Dict.get w.store.threads_by_id input.thread.id ≡ some l.thread)

  load_reply-Loaded : (input : SendReplyInput) (w : World) → Loaded input w (load_reply env input w)
  unfolding load_reply Records.get_organization_by_id Records.get_agent_by_id
      Records.get_inbox_by_id Records.get_thread_by_id Records.get_contact_by_id
      Messages.get_message_by_id
  load_reply-Loaded input w = ground arith

  suppressed_or_not :
      (o e : String) (s : Store)
      → (Listing.is_suppressed env.platform o e s ≡ (ok true, s))
        ⊎ (Listing.is_suppressed env.platform o e s ≡ (ok false, s))
  unfolding Listing.is_suppressed
  suppressed_or_not o e s = elim (Bool-cases _) [
    | inl h ↦ inl (ap (λ b. (ok b, s)) h)
    | inr h ↦ inr (ap (λ b. (ok b, s)) h)
  ]

  abbrev Fails : {A : Type 0} → Result A × World → Type 0
  Fails (r, w) = (x : Error) × (r ≡ err x)

  Sendable-or_Fails :
      (input : SendReplyInput) (w : World)
      → Fails (send_reply (reply_service env) input w)
        ⊎ ((text : String) × (metadata : ReplyMetadata) × Sendable env input text metadata w)
  unfolding send_reply check_suppressed queue_reply record_queued_reply keep_raw
  Sendable-or_Fails input w =
      elim (suppressed_or_not input.organization.id input.contact.email_address w.store) [
        | inl e ↦ inl (rw e (_, refl))
        | inr e ↦
            elim (Result-cases
              (assemble_reply env.unicode "<generated@agentlayer.local>" (assembly_input input))) [
                | inl (x, a) ↦ inl (rw (e, a) (x, refl))
                | inr (r, a) ↦ elim (Bool-cases (input.object_key == "")) [
                  | inl k ↦ inl (rw (e, a, k) (_, refl))
                  | inr k ↦ inr (
                    r.0,
                    r.1,
                    record {
                      allowed = e;
                      assembled = a;
                      keyed = ground (arith, eq_iff input.object_key "");
                    },
                  )
                ]
              ]
      ]

  -- What makes a submission be answered again in the same way.
  abbrev Kept : SendReplyInput → Result SendReplyResult × World → Type 0
  Kept input (err x, w) = Unit
  Kept input (ok r, w) =
      (remembered env input w ≡ some r.message)
      × (Dict.get w.store.threads_by_id input.thread.id ≡ some r.thread)
      × (earlier_result r.thread r.message ≡ r)

  abbrev remember : SendReplyInput → SendReplyResult → Exec World SendReplyResult
  remember input result = remember_reply env input result >> pure result

  after_send :
      (input l : SendReplyInput) (text : String) (w : World)
      → input.idempotency_key ≢ ""
      → l.thread.id ≡ input.thread.id
      → (o : Result SendReplyResult × World) → Ends env l text w o
      → Kept input (continue o.0 (remember input) o.1)
  unfolding remember_reply Messages.save_reply_submission
  after_send input l text w i k (err x, w') h = tt
  after_send input l text w i k (ok r, w') h = rw (str_ne _ _ i) (
    rw (get-put_self w'.store.reply_submissions_by_key (submission_key env input) r.message.id)
        h.stored,
    rw (← k) h.thread,
    same_answer r h.queued.message h.message,
  )

  after_load :
      (input : SendReplyInput) (w : World)
      → input.idempotency_key ≢ ""
      → ((t : Thread)
          → Dict.get w.store.threads_by_id input.thread.id ≡ some t
          → t.id ≡ input.thread.id)
      → (o : Result SendReplyInput × World) → Loaded input w o
      → Kept input (continue o.0 (λ l. send_reply (reply_service env) l >>= remember input) o.1)
  after_load input w i k (err x, w') h = tt
  after_load input w i k (ok l, w') (e, t) = elim (Sendable-or_Fails l w') [
    | inl (x, f) ↦ rw f tt
    | inr (text, metadata, s) ↦
        after_send input l text w' i (k l.thread t) (send_reply (reply_service env) l w')
          (send_reply-Ends env l text metadata w' s)
  ]

  submit-Kept :
      (input : SendReplyInput) (w : World)
      → input.idempotency_key ≢ ""
      → ((t : Thread)
          → Dict.get w.store.threads_by_id input.thread.id ≡ some t
          → t.id ≡ input.thread.id)
      → Kept input (submit_reply env input w)
  submit-Kept input w i k = elim (Option-cases (remembered env input w)) [
    | inl unknown ↦
        rw (submit_unknown input w unknown)
          (unfold submit_new in after_load input w i k _ (load_reply-Loaded input w))
    | inr (m, known) ↦ elim (Option-cases (Dict.get w.store.threads_by_id input.thread.id)) [
      | inl no_thread ↦ rw (submit_orphan input w m i known no_thread) tt
      | inr (t, f) ↦ rw (submit_known input w m t i known f) (known, f, refl)
    ]
  ]

-- Submitting a reply twice with the same idempotency key: the second submission returns what the
-- first returned, and changes nothing; in particular nothing more is sent. It is assumed that the
-- key is not empty and that the store keeps the thread under its own id.
pub submit_again :
    (env : Env) (input : SendReplyInput) (w w' : World) (r : SendReplyResult)
    → input.idempotency_key ≢ ""
    → ((t : Thread)
        → Dict.get w.store.threads_by_id input.thread.id ≡ some t
        → t.id ≡ input.thread.id)
    → submit_reply env input w ≡ (ok r, w')
    → submit_reply env input w' ≡ (ok r, w')
submit_again env input w w' r i k run =
    let (known, thread, same) = subst (Kept env input) run (submit-Kept env input w i k) in
    submit_known env input w' r.message r.thread i known thread ∙ ap (λ q. (ok q, w')) same
