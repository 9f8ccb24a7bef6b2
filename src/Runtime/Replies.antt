-- ===== src/Runtime/Replies.antt =====
-- Submitting a reply: internal/outbound/service.go and the adapter of cmd/agentlayer/main.go over the
-- memory store.
use agent_layer.Prelude.{
  str_ne, String, false, Option, none, some, ◌≡◌, ◌≢◌, refl, [], ◌∷◌, ◌++◌, length,
}
use agent_layer.Prelude.Exec.{Result, ok, err, Error}
use agent_layer.Prelude.Dict
use agent_layer.Prelude.Dict.{get-put_self}
use agent_layer.Domain.{Thread}
use agent_layer.Core.{SendResult, OutboundSendRequest}
use agent_layer.Memory.Records
use agent_layer.Memory.Records.{merge_thread}
use agent_layer.Memory.Messages
use agent_layer.Memory.Messages.{by_index}
use agent_layer.Outbound.Assembler.{ReplyMetadata, assemble_reply}
use agent_layer.Memory.Listing
use agent_layer.Outbound.Recorders.{
  RecordQueuedReplyResult, record_queued_reply, keep_raw, touch_thread, queued_message,
  sent_message, send_queued_reply, record_sent, delivery_state_queued, delivery_state_sent,
}
use agent_layer.Outbound.Service.{
  check_suppressed, assembly_input, SendReplyInput, SendReplyResult, send_reply, queue_reply,
  deliver_queued,
}
use agent_layer.Runtime.World.{Env, World}
use agent_layer.Runtime.Reply.{reply_service}

merge_thread-outbound :
    (o : Option Thread) (t : Thread) → (merge_thread o t).last_outbound_id ≡ t.last_outbound_id
unfolding merge_thread
merge_thread-outbound none t = refl
merge_thread-outbound (some e) t = refl

module _ (env : Env) where
  -- A reply that may be sent: not to a suppressed address, with a text and an object key.
  pub record Sendable (input : SendReplyInput) (raw : String) (metadata : ReplyMetadata) (w : World)
      : Type 0 where
    pub allowed :
        Listing.is_suppressed env.platform input.organization.id input.contact.email_address w.store
        ≡ (ok false, w.store)
    pub assembled :
        assemble_reply env.unicode "<generated@agentlayer.local>" (assembly_input input)
        ≡ ok (raw, metadata)
    pub keyed : input.object_key ≢ ""

  -- What the store holds of a reply before the provider is called.
  pub record Queued (input : SendReplyInput) (text : String) (q : RecordQueuedReplyResult)
      (w w' : World) : Type 0 where
    pub state : q.message.delivery_state ≡ delivery_state_queued
    pub stored : Dict.get w'.store.messages_by_id q.message.id ≡ some q.message
    pub raw : Dict.get w'.store.raw_messages input.object_key ≡ some (env.crypto.utf8 text)
    pub answers : q.thread.last_outbound_id ≡ q.message.id
    pub thread : Dict.get w'.store.threads_by_id input.thread.id ≡ some q.thread
    pub sent : w'.sent ≡ w.sent

  queue_lem :
      (input : SendReplyInput) (raw : String) (metadata : ReplyMetadata) (w : World)
      → Sendable input raw metadata w
      → (q : RecordQueuedReplyResult) × (w' : World) × (queue_reply
            (reply_service env)
            input
            (raw, metadata)
            w
          ≡ (ok q, w'))
        × Queued input raw q w w'
  unfolding queue_reply record_queued_reply keep_raw touch_thread Records.put_raw
      Messages.create_message Records.save_thread queued_message
  queue_lem input raw metadata w s = rw (str_ne _ _ s.keyed) (
    _,
    _,
    refl,
    record {
      state = refl;
      stored = get-put_self _ _ _;
      raw = get-put_self _ _ _;
      answers = merge_thread-outbound _ _;
      thread = get-put_self _ _ _;
      sent = refl;
    },
  )

  abbrev pub provider_request :
      SendReplyInput → String → RecordQueuedReplyResult → OutboundSendRequest
  provider_request input text q = record {
    organization = input.organization;
    agent = input.agent;
    inbox = input.inbox;
    thread = q.thread;
    contact = input.contact;
    message = q.message;
    raw_mime = env.crypto.utf8 text;
  }

  abbrev provider_answer :
      SendReplyInput → String → RecordQueuedReplyResult → World → Result SendResult
  provider_answer input text q w = env.provider (length w.sent) (provider_request input text q)

  -- The state in which a reply ends when the provider refuses it.
  pub record Refused (input : SendReplyInput) (text : String) (x : Error) (w w' : World)
      : Type 0 where
    pub queued : RecordQueuedReplyResult
    pub held : World
    pub before : Queued input text queued w held
    pub answer : provider_answer input text queued w ≡ err x
    pub stored : w'.store ≡ held.store
    pub sent : w'.sent ≡ w.sent ++ provider_request input text queued ∷ []

  pub record Accepted (input : SendReplyInput) (text : String) (r : SendReplyResult) (w w' : World)
      : Type 0 where
    pub queued : RecordQueuedReplyResult
    pub held : World
    pub before : Queued input text queued w held
    pub answer : provider_answer input text queued w ≡ ok r.send_result
    pub message : r.message ≡ sent_message queued.message r.send_result
    pub state : r.message.delivery_state ≡ delivery_state_sent
    pub provider_id : r.message.provider_message_id ≡ r.send_result.provider_message_id
    pub stored : Dict.get w'.store.messages_by_id r.message.id ≡ some r.message
    pub thread : Dict.get w'.store.threads_by_id input.thread.id ≡ some r.thread
    pub findable :
        r.send_result.provider_message_id ≢ ""
        → Dict.get w'.store.messages_by_provider_id r.send_result.provider_message_id
          ≡ some r.message
    pub sent : w'.sent ≡ w.sent ++ provider_request input text queued ∷ []

  -- How sending a reply ends, by what the provider answers.
  abbrev pub Ends : SendReplyInput → String → World → Result SendReplyResult × World → Type 0
  Ends input text w (err x, w') = Refused input text x w w'
  Ends input text w (ok r, w') = Accepted input text r w w'

  deliver-Ends :
      (input : SendReplyInput) (text : String) (q : RecordQueuedReplyResult) (w h : World)
      → Queued input text q w h
      → (o : Result SendResult) → provider_answer input text q w ≡ o
      → Ends input text w (deliver_queued (reply_service env) input text q h)
  unfolding deliver_queued send_queued_reply record_sent Messages.save_message
  deliver-Ends input text q w h b (err x) e =
      let here : provider_answer input text q h ≡ err x = rw b.sent e in
      rw here (record {
        queued = q;
        held = h;
        before = b;
        answer = e;
        stored = refl;
        sent = rw b.sent refl;
      })
  deliver-Ends input text q w h b (ok s) e =
      let here : provider_answer input text q h ≡ ok s = rw b.sent e in
      rw here (record {
        queued = q;
        held = h;
        before = b;
        answer = e;
        message = refl;
        state = refl;
        provider_id = refl;
        stored = get-put_self _ _ _;
        thread = b.thread;
        findable = λ i. rw (str_ne _ _ i) (get-put_self _ _ _);
        sent = rw b.sent refl;
      })

-- A reply that may be sent is first stored as queued, with its raw text and its thread naming it as
-- the last outbound message, and then given to the provider exactly once. If the provider fails, so
-- does the reply, and the store keeps what was queued; if it accepts, the message is stored as sent,
-- and is found by the provider's id.
pub send_reply-Ends :
    (env : Env) (input : SendReplyInput) (text : String) (metadata : ReplyMetadata) (w : World)
    → Sendable env input text metadata w
    → Ends env input text w (send_reply (reply_service env) input w)
unfolding send_reply check_suppressed
send_reply-Ends env input text metadata w s =
    let (q, h, run, b) = queue_lem env input text metadata w s in
    rw (s.allowed, s.assembled, run) (deliver-Ends env input text q w h b _ refl)
