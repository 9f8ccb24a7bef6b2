-- ===== src/Runtime/Duplicates.antt =====
-- Handling an inbound message twice: the second time it is a duplicate, and nothing is written.
-- (internal/inbound/service.go and recorder.go over internal/store/memory/store.go)
use agent_layer.Prelude.{str_ne, Option, none, some, Option-cases, inl, inr, ◌≡◌, ◌≢◌, refl}
use mathlib.Core.Path.{subst}
use agent_layer.Prelude.Exec.{Result, ok, err}
use agent_layer.Prelude.Dict
use agent_layer.Prelude.Dict.{Dict, get-put_self}
use agent_layer.Domain.{Thread, Message}
use agent_layer.Core.{StoredInboundMessage, ParsedMessage}
use agent_layer.Memory.State.{Store}
use agent_layer.Memory.Records
use agent_layer.Memory.Records.{merge_thread}
use agent_layer.Memory.Messages
use agent_layer.Inbound.Recorder.{ProcessResult, record_inbound, inbound_message, touched}
use agent_layer.Inbound.Service.{HandleResult, report_duplicate, record_new, handle_stored_message}
use agent_layer.Inbound.Runs.{handle-fails, handle-duplicate, handle-new}
use agent_layer.Runtime.World.{Env, World}
use agent_layer.Runtime.Wiring.{inbound_base, duplicate_lookup}
use agent_layer.Runtime.Reads.{Same}
use agent_layer.Runtime.Known.{
  parsed, recorded, duplicate_result, find_known, find_unknown, report_known, process_ok,
  process_err, handle_known,
}

merge_thread-id : (o : Option Thread) (t : Thread) → (merge_thread o t).id ≡ t.id
unfolding merge_thread
merge_thread-id none t = refl
merge_thread-id (some e) t = refl

-- What the store holds of a message that was handled: the raw text, the message under its inbox and
-- Message-ID, and the thread and the contact that the message names.
pub record IsStored (env : Env) (stored : StoredInboundMessage) (r : HandleResult) (s : Store)
    : Type 0 where
  pub identified : r.parsed_message.message_id_header ≢ ""
  pub readable : parsed env stored s ≡ ok r.parsed_message
  pub found :
      recorded env stored.receipt.inbox_id r.parsed_message.message_id_header s ≡ some r.message
  pub thread : Dict.get s.threads_by_id r.message.thread_id ≡ some r.thread
  pub contact : Dict.get s.contacts_by_id r.message.contact_id ≡ some r.contact

abbrev HasId : Result ParsedMessage → Type 0
HasId (ok p) = p.message_id_header ≢ ""
HasId (err x) = Unit

module _ (env : Env) (stored : StoredInboundMessage) where
  abbrev Kept : Result HandleResult × World → Type 0
  Kept (ok r, w) = IsStored env stored r w.store
  Kept (err x, w) = Unit

  record_new-Kept :
      (p : ProcessResult) (w : World)
      → parsed env stored w.store ≡ ok p.parsed_message
      → stored.receipt.inbox_id ≢ ""
      → p.parsed_message.message_id_header ≢ ""
      → Kept (record_new (inbound_base env) stored p w)
  unfolding record_new record_inbound Records.upsert_by_email Records.save_thread
      Messages.create_message inbound_message touched
  record_new-Kept p w e i h = record {
    identified = h;
    readable = e;
    found = rw (str_ne _ _ i, str_ne _ _ h, get-put_self, get-put_self);
    thread = get-put_self _ _ _;
    contact = get-put_self _ _ _;
  }

  -- An answer of `report_duplicate` comes from a thread and a contact that the store has.
  report-Kept :
      (p : ProcessResult) (m : Message) (w : World)
      → parsed env stored w.store ≡ ok p.parsed_message
      → p.parsed_message.message_id_header ≢ ""
      → recorded env stored.receipt.inbox_id p.parsed_message.message_id_header w.store ≡ some m
      → Kept (report_duplicate (duplicate_lookup env) p m w)
  report-Kept p m w e h f = elim (Option-cases (Dict.get w.store.threads_by_id m.thread_id)) [
    | inl no_thread ↦ unfold report_duplicate Records.get_thread_by_id in rw no_thread tt
    | inr (t, ft) ↦ elim (Option-cases (Dict.get w.store.contacts_by_id m.contact_id)) [
      | inl no_contact ↦
          unfold report_duplicate Records.get_thread_by_id Records.get_contact_by_id in
          rw (ft, no_contact) tt
      | inr (c, fc) ↦
          rw (report_known env p m t c w ft fc)
            (record { identified = h; readable = e; found = f; thread = ft; contact = fc })
    ]
  ]

  handle-Kept :
      (w : World)
      → stored.receipt.inbox_id ≢ ""
      → (o : Result ParsedMessage) → parsed env stored w.store ≡ o
      → HasId o
      → Kept (handle_stored_message (inbound_base env) stored w)
  handle-Kept w i (err x) e h =
      rw (handle-fails (inbound_base env) stored w x w (process_err env stored w x e)) tt
  handle-Kept w i (ok p) e h =
      let (r, w', run, q, same) = process_ok env stored w p e in
      let readable : parsed env stored w'.store ≡ ok r.parsed_message = rw (q, same.store) e in
      let header : r.parsed_message.message_id_header ≢ "" = rw q h in
      elim (Option-cases
        (recorded env stored.receipt.inbox_id r.parsed_message.message_id_header w'.store)) [
          | inl unknown ↦
              rw
                (handle-new (inbound_base env) stored w r w' w' run
                  (find_unknown env _ _ w' header unknown))
                (record_new-Kept r w' readable i header)
          | inr (m, known) ↦
              rw
                (handle-duplicate (inbound_base env) stored w r w' w' run (duplicate_lookup env) m
                  (find_known env _ _ w' m header known))
                (report-Kept r m w' readable header known)
        ]

-- When the handling of a message with a Message-ID returns, whether it was new or a duplicate, the
-- store has the message under its inbox and Message-ID, with the thread and the contact that were
-- returned, and the raw text that it was parsed from.
pub handle-IsStored :
    (env : Env) (stored : StoredInboundMessage) (w w' : World) (p : ParsedMessage)
    (r : HandleResult)
    → stored.receipt.inbox_id ≢ ""
    → parsed env stored w.store ≡ ok p
    → p.message_id_header ≢ ""
    → handle_stored_message (inbound_base env) stored w ≡ (ok r, w')
    → IsStored env stored r w'.store
handle-IsStored env stored w w' p r i e h run =
    subst (Kept env stored) run (handle-Kept env stored w i (ok p) e h)

-- Handling the same stored message again, in the state that the first handling left, returns it as
-- a duplicate, with the same message, thread and contact, and writes nothing: the store and what was
-- sent are as before. It is assumed that the message has an inbox and a Message-ID.
pub handle_again :
    (env : Env) (stored : StoredInboundMessage) (w w' : World) (p : ParsedMessage)
    (r : HandleResult)
    → stored.receipt.inbox_id ≢ ""
    → parsed env stored w.store ≡ ok p
    → p.message_id_header ≢ ""
    → handle_stored_message (inbound_base env) stored w ≡ (ok r, w')
    → (w'' : World) × (handle_stored_message (inbound_base env) stored w'
        ≡ (ok (duplicate_result r.parsed_message r.contact r.thread r.message), w''))
      × Same w' w''
handle_again env stored w w' p r i e h run =
    let kept = handle-IsStored env stored w w' p r i e h run in
    handle_known env stored w' r.parsed_message r.contact r.thread r.message kept.readable
      kept.identified kept.found kept.thread kept.contact
