-- ===== src/Memory/Reachable.antt =====
-- The states of internal/store/memory/store.go: what its maps satisfy after any calls of its methods.
use agent_layer.Prelude.{
  String, ◌==◌, ◌||◌, Option, none, some, Bool-cases, inl, inr, List, [], ◌∷◌, All, ◌≡◌, ◌∙◌, refl,
}
use agent_layer.Prelude.Dict
use agent_layer.Prelude.Dict.{Dict, All-put, get-put, get-put_self}
use agent_layer.Domain.{
  Bytes, Organization, Agent, Inbox, Contact, Thread, Message, ContactMemoryEntry,
  SuppressedAddress, WebhookDelivery,
}
use agent_layer.Inbound.Receipt.{DurableReceiptRequest}
use agent_layer.Platform.{Platform, inbound_message_key}
use agent_layer.Memory.State.{Store, new_store}
use agent_layer.Memory.Records
use agent_layer.Memory.Records.{merge_thread}
use agent_layer.Memory.Messages
use agent_layer.Memory.Messages.{index_inbound}

-- One call of a method that writes.
pub data Step (platform : Platform) : Store → Store → Type 0 where
  organization : (o : Organization) (s : Store) → Step platform s (Records.save_organization o s).1
  agent : (a : Agent) (s : Store) → Step platform s (Records.save_agent a s).1
  inbox : (i : Inbox) (s : Store) → Step platform s (Records.save_inbox i s).1
  raw : (k : String) (b : Bytes) (s : Store) → Step platform s (Records.put_raw k b s).1
  receipt :
      (r : DurableReceiptRequest) (s : Store) → Step platform s (Records.save_inbound_receipt r s).1
  contact : (c : Contact) (s : Store) → Step platform s (Records.upsert_by_email c s).1
  thread : (t : Thread) (s : Store) → Step platform s (Records.save_thread t s).1
  created : (m : Message) (s : Store) → Step platform s (Messages.create_message platform m s).1
  saved : (m : Message) (s : Store) → Step platform s (Messages.save_message platform m s).1
  submission :
      (k id : String) (s : Store) → Step platform s (Messages.save_reply_submission k id s).1
  memory : (e : ContactMemoryEntry) (s : Store) → Step platform s (Records.create_memory e s).1
  suppression :
      (r : SuppressedAddress) (s : Store) → Step platform s (Records.save_suppression r s).1
  delivery :
      (d : WebhookDelivery) (s : Store) → Step platform s (Records.save_webhook_delivery d s).1

pub data Reachable (platform : Platform) : Store → Type 0 where
  begin : Reachable platform new_store
  next : (s s' : Store) → Reachable platform s → Step platform s s' → Reachable platform s'

abbrev pub Holds : Dict Message → String → Type 0
Holds d id = (m : Message) × (Dict.get d id ≡ some m)

-- Threads, messages and contacts stand under their own ids, and the index of inbound messages leads
-- to messages that the store has.
pub record IsKeyed (s : Store) : Type 0 where
  pub threads : All (λ p. p.1.id ≡ p.0) s.threads_by_id
  pub messages : All (λ p. p.1.id ≡ p.0) s.messages_by_id
  pub contacts : All (λ p. p.1.id ≡ p.0) s.contacts_by_id
  pub indexed : All (λ p. Holds s.messages_by_id p.1) s.messages_by_inbound_key

All-imp : {A : Type 0} (P Q : A → Type 0) → ((a : A) → P a → Q a) → (l : List A) → All P l → All Q l
All-imp P Q f [] h = tt
All-imp P Q f (a ∷ l) (p, h) = (f a p, All-imp P Q f l h)

Holds-put :
    (d : Dict Message) (k : String) (m : Message) (id : String)
    → Holds d id
    → Holds (Dict.put d k m) id
Holds-put d k m id (o, h) = elim (Bool-cases (k == id)) [
  | inl e ↦ (m, get-put d k m id ∙ rw e refl)
  | inr e ↦ (o, get-put d k m id ∙ rw e h)
]

merged-id : (o : Option Thread) (t : Thread) → (merge_thread o t).id ≡ t.id
unfolding merge_thread
merged-id none t = refl
merged-id (some e) t = refl

unchanged :
    (s s' : Store)
    → IsKeyed s
    → s'.threads_by_id ≡ s.threads_by_id
    → s'.messages_by_id ≡ s.messages_by_id
    → s'.contacts_by_id ≡ s.contacts_by_id
    → s'.messages_by_inbound_key ≡ s.messages_by_inbound_key
    → IsKeyed s'
unchanged s s' h t m c i = record {
  threads = rw t h.threads;
  messages = rw m h.messages;
  contacts = rw c h.contacts;
  indexed = rw (m, i) h.indexed;
}

module _ (platform : Platform) where
  index-Holds :
      (m : Message) (d : Dict Message) (l : Dict String)
      → All (λ p. Holds d p.1) l
      → All (λ p. Holds (Dict.put d m.id m) p.1) (index_inbound platform m l)
  index-Holds m d l h =
      let kept = All-imp _ _ (λ p. Holds-put d m.id m p.1) l h in
      elim (Bool-cases (m.inbox_id == "" || m.message_id_header == "")) [
        | inl e ↦ rw e kept
        | inr e ↦ rw e (
            All-put (λ p. Holds (Dict.put d m.id m) p.1) l
              (inbound_message_key platform m.inbox_id m.message_id_header) m.id kept
              (m, get-put_self d m.id m))
      ]

  message-IsKeyed :
      (m : Message) (s s' : Store)
      → IsKeyed s
      → s'.threads_by_id ≡ s.threads_by_id
      → s'.contacts_by_id ≡ s.contacts_by_id
      → s'.messages_by_id ≡ Dict.put s.messages_by_id m.id m
      → s'.messages_by_inbound_key ≡ index_inbound platform m s.messages_by_inbound_key
      → IsKeyed s'
  message-IsKeyed m s s' h t c e i = record {
    threads = rw t h.threads;
    messages = rw e (All-put (λ p. p.1.id ≡ p.0) s.messages_by_id m.id m h.messages refl);
    contacts = rw c h.contacts;
    indexed = rw (e, i) (index-Holds m s.messages_by_id s.messages_by_inbound_key h.indexed);
  }

  Step-IsKeyed : (s s' : Store) → Step platform s s' → IsKeyed s → IsKeyed s'
  unfolding Records.save_organization Records.save_agent Records.save_inbox Records.put_raw
      Records.save_inbound_receipt Records.upsert_by_email Records.save_thread
      Messages.create_message Messages.save_message Messages.save_reply_submission
      Records.create_memory Records.save_suppression Records.save_webhook_delivery
  Step-IsKeyed _ _ (organization o s) h = unchanged s _ h refl refl refl refl
  Step-IsKeyed _ _ (agent a s) h = unchanged s _ h refl refl refl refl
  Step-IsKeyed _ _ (inbox i s) h = unchanged s _ h refl refl refl refl
  Step-IsKeyed _ _ (raw k b s) h = unchanged s _ h refl refl refl refl
  Step-IsKeyed _ _ (receipt r s) h = unchanged s _ h refl refl refl refl
  Step-IsKeyed _ _ (contact c s) h = record {
    threads = h.threads;
    messages = h.messages;
    indexed = h.indexed;
    contacts = All-put (λ p. p.1.id ≡ p.0) s.contacts_by_id c.id c h.contacts refl;
  }
  Step-IsKeyed _ _ (thread t s) h = record {
    messages = h.messages;
    contacts = h.contacts;
    indexed = h.indexed;
    threads =
        All-put (λ p. p.1.id ≡ p.0) s.threads_by_id t.id
          (merge_thread (Dict.get s.threads_by_id t.id) t) h.threads (merged-id _ t);
  }
  Step-IsKeyed _ _ (created m s) h = message-IsKeyed m s _ h refl refl refl refl
  Step-IsKeyed _ _ (saved m s) h = message-IsKeyed m s _ h refl refl refl refl
  Step-IsKeyed _ _ (submission k id s) h = unchanged s _ h refl refl refl refl
  Step-IsKeyed _ _ (memory e s) h = unchanged s _ h refl refl refl refl
  Step-IsKeyed _ _ (suppression r s) h = unchanged s _ h refl refl refl refl
  Step-IsKeyed _ _ (delivery d s) h = unchanged s _ h refl refl refl refl

  -- After any sequence of calls on a new store, threads, messages and contacts stand under their own
  -- ids, and whatever the index of inbound messages names is a message that the store has.
  pub Reachable-IsKeyed : (s : Store) → Reachable platform s → IsKeyed s
  Reachable-IsKeyed _ begin = record { threads = tt; messages = tt; contacts = tt; indexed = tt }
  Reachable-IsKeyed _ (next s s' r t) = Step-IsKeyed s s' t (Reachable-IsKeyed s r)
