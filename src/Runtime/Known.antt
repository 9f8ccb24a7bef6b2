-- ===== src/Runtime/Known.antt =====
-- Handling a message that the store knows: internal/inbound/service.go over the memory store.
use agent_layer.Prelude.{
  str_ne, String, ℕ, List, true, false, Option, none, some, ◌≡◌, ◌≢◌, ◌∙◌, refl, ap,
}
use agent_layer.Prelude.Exec.{Exec, Result, ok, err, not_found, Error}
use agent_layer.Prelude.Dict
use agent_layer.Domain.{Contact, Thread, Message}
use agent_layer.Core.{StoredInboundMessage, ParsedMessage}
use agent_layer.Platform.{inbound_message_key}
use agent_layer.Memory.State.{Store}
use agent_layer.Memory.Records
use agent_layer.Memory.Messages
use agent_layer.Memory.Messages.{by_index}
use agent_layer.Inbound.Recorder.{ProcessResult, process}
use agent_layer.Inbound.Service.{
  HandleResult, find_duplicate, report_duplicate, handle_stored_message,
}
use agent_layer.Inbound.Runs.{
  contact_input, thread_input, process_result, process-run, process-fails, handle-duplicate,
}
use agent_layer.Runtime.World.{Env, World}
use agent_layer.Runtime.Wiring.{
  message_parser, contact_resolver, thread_resolver, inbound_base, duplicate_lookup,
}
use agent_layer.Runtime.Reads.{Same, Same-trans, Reads-contact_resolver, Reads-thread_resolver}

abbrev pub decode_raw : Env → Option (List ℕ) → Result ParsedMessage
decode_raw env none = err (not_found "raw message")
decode_raw env (some raw) = env.decode raw

-- What the parser makes of a stored message in a store.
abbrev pub parsed : Env → StoredInboundMessage → Store → Result ParsedMessage
parsed env stored s = decode_raw env (Dict.get s.raw_messages stored.receipt.raw_message_object_key)

-- The stored message of an inbox with a Message-ID.
abbrev pub recorded : Env → String → String → Store → Option Message
recorded env inbox_id header s =
    by_index s.messages_by_id
      (Dict.get s.messages_by_inbound_key (inbound_message_key env.platform inbox_id header))

abbrev pub duplicate_result : ParsedMessage → Contact → Thread → Message → HandleResult
duplicate_result p c t m = record {
  parsed_message = p;
  contact = c;
  thread = t;
  message = m;
  thread_match_strategy = "duplicate";
  thread_created = false;
  duplicate = true;
}

module _ (env : Env) (inbox_id header : String) (w : World) where
  pub find_known :
      (m : Message)
      → header ≢ ""
      → recorded env inbox_id header w.store ≡ some m
      → find_duplicate (some (duplicate_lookup env)) inbox_id header w
        ≡ (ok (some (duplicate_lookup env, m)), w)
  unfolding find_duplicate Messages.find_inbound_by_header
  find_known m h f = rw (str_ne header "" h, f)

  pub find_unknown :
      header ≢ ""
      → recorded env inbox_id header w.store ≡ none
      → find_duplicate (some (duplicate_lookup env)) inbox_id header w ≡ (ok none, w)
  unfolding find_duplicate Messages.find_inbound_by_header
  find_unknown h f = rw (str_ne header "" h, f)

pub report_known :
    (env : Env) (p : ProcessResult) (m : Message) (t : Thread) (c : Contact) (w : World)
    → Dict.get w.store.threads_by_id m.thread_id ≡ some t
    → Dict.get w.store.contacts_by_id m.contact_id ≡ some c
    → report_duplicate (duplicate_lookup env) p m w
      ≡ (ok (duplicate_result p.parsed_message c t m), w)
unfolding report_duplicate Records.get_thread_by_id Records.get_contact_by_id
report_known env p m t c w ft fc = rw (ft, fc)

module _ (env : Env) (stored : StoredInboundMessage) (w : World) where
  parse_lem : (message_parser env).parse stored w ≡ (parsed env stored w.store, w)
  unfolding Records.get_raw
  parse_lem = found (Dict.get w.store.raw_messages stored.receipt.raw_message_object_key) refl
    where
      found :
          (o : Option (List ℕ))
          → Dict.get w.store.raw_messages stored.receipt.raw_message_object_key ≡ o
          → (message_parser env).parse stored w ≡ (parsed env stored w.store, w)
      found none e = rw e
      found (some raw) e = rw e

  abbrev process_here : Exec World ProcessResult
  process_here = process (message_parser env) (contact_resolver env) (thread_resolver env) stored

  -- Once the message is parsed, processing returns, and writes nothing to the store.
  pub process_ok :
      (p : ParsedMessage)
      → parsed env stored w.store ≡ ok p
      → (r : ProcessResult) × (w' : World) × (process_here w ≡ (ok r, w'))
        × (r.parsed_message ≡ p)
        × Same w w'
  process_ok p e =
      let (c, w₁, e₁, s₁) = (Reads-contact_resolver env (contact_input stored p)).at w in
      let (t, w₂, e₂, s₂) =
        (Reads-thread_resolver env (thread_input stored p c.contact.id)).at w₁ in
      (
        process_result p c t,
        w₂,
        process-run (message_parser env) (contact_resolver env) (thread_resolver env) stored w p c t
            w w₁ w₂ (parse_lem ∙ ap (λ r. (r, w)) e) e₁ e₂,
        refl,
        Same-trans s₁ s₂,
      )

  pub process_err : (x : Error) → parsed env stored w.store ≡ err x → process_here w ≡ (err x, w)
  process_err x e =
      process-fails (message_parser env) (contact_resolver env) (thread_resolver env) stored w x w
        (parse_lem ∙ ap (λ r. (r, w)) e)

  -- A message whose inbox and Message-ID the store knows, with its thread and contact, is reported
  -- as a duplicate of the stored one.
  pub handle_known :
      (p : ParsedMessage) (c : Contact) (t : Thread) (m : Message)
      → parsed env stored w.store ≡ ok p
      → p.message_id_header ≢ ""
      → recorded env stored.receipt.inbox_id p.message_id_header w.store ≡ some m
      → Dict.get w.store.threads_by_id m.thread_id ≡ some t
      → Dict.get w.store.contacts_by_id m.contact_id ≡ some c
      → (w' : World) × (handle_stored_message (inbound_base env) stored w
          ≡ (ok (duplicate_result p c t m), w'))
        × Same w w'
  handle_known p c t m e h f ft fc =
      let (r, w', run, q, same) = process_ok p e in
      (
        w',
        handle-duplicate (inbound_base env) stored w r w' w' run (duplicate_lookup env) m (
              find_known env stored.receipt.inbox_id r.parsed_message.message_id_header w' m
                (rw q h) (rw (q, same.store) f))
            ∙ report_known env r m t c w' (rw same.store ft) (rw same.store fc)
            ∙ ap (λ q'. (ok (duplicate_result q' c t m), w')) q,
        same,
      )
