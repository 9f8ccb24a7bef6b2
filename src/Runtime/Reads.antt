-- ===== src/Runtime/Reads.antt =====
-- Actions of the process that always return and change neither the store nor what was sent: the
-- lookups of the inbound side, with the draws of fresh ids.
use agent_layer.Prelude.{
  String, Bool, true, false, none, some, List, [], ◌∷◌, ◌≡◌, ◌∙◌, refl, ap, if◌then◌else◌, ◌==◌,
}
use agent_layer.Prelude.Exec.{Exec, ok, pure, continue, ◌>>=◌}
use agent_layer.Core.{ThreadResolutionInput, ContactResolutionInput, ContactResolutionResult}
use agent_layer.Contacts
use agent_layer.Threading
use agent_layer.Memory.Records
use agent_layer.Memory.Messages
use agent_layer.Memory.Listing
use agent_layer.Runtime.World.{Env, World, ambient}
use agent_layer.Runtime.Wiring.{
  thread_lookup, contact_repository, contact_resolver, thread_resolver,
}

pub record Same (w w' : World) : Type 0 where
  pub store : w'.store ≡ w.store
  pub sent : w'.sent ≡ w.sent
  pub posts : w'.posts ≡ w.posts

pub Same-trans : {w₁ w₂ w₃ : World} → Same w₁ w₂ → Same w₂ w₃ → Same w₁ w₃
Same-trans s₁ s₂ = record {
  store = s₂.store ∙ s₁.store;
  sent = s₂.sent ∙ s₁.sent;
  posts = s₂.posts ∙ s₁.posts;
}

pub record Reads {A : Type 0} (m : Exec World A) : Type 0 where
  pub at : (w : World) → (a : A) × (w' : World) × (m w ≡ (ok a, w')) × Same w w'

Reads-pure : {A : Type 0} (a : A) → Reads (pure {S = World} a)
Reads-pure a = record { at = λ w. (a, w, refl, record { store = refl; sent = refl; posts = refl }) }

Reads-bind :
    {A B : Type 0} (m : Exec World A) (f : A → Exec World B)
    → Reads m
    → ((a : A) → Reads (f a))
    → Reads (m >>= f)
Reads-bind m f rm rf = record {
  at = λ w.
      let (a, w₁, e₁, s₁) = rm.at w in
      let (b, w₂, e₂, s₂) = (rf a).at w₁ in
      (b, w₂, ap (λ p. continue p.0 f p.1) e₁ ∙ e₂, Same-trans s₁ s₂);
}

Reads-if :
    {A : Type 0} (b : Bool) (m n : Exec World A) → Reads m → Reads n → Reads (if b then m else n)
Reads-if true m n rm rn = rm
Reads-if false m n rm rn = rn

module _ (env : Env) where
  Reads-find_by_message_id : (h : String) → Reads ((thread_lookup env).find_by_message_id h)
  unfolding Messages.find_by_message_id
  Reads-find_by_message_id h = record {
    at = λ w. (_, _, refl, record { store = refl; sent = refl; posts = refl });
  }

  Reads-find_most_recent :
      (o i c n : String) → Reads ((thread_lookup env).find_most_recent_by_subject o i c n)
  unfolding Listing.find_most_recent_by_subject
  Reads-find_most_recent o i c n = record {
    at = λ w. (_, _, refl, record { store = refl; sent = refl; posts = refl });
  }

  Reads-find_by_email : (o e : String) → Reads ((contact_repository env).find_by_email o e)
  unfolding Records.find_by_email
  Reads-find_by_email o e = record {
    at = λ w. (_, _, refl, record { store = refl; sent = refl; posts = refl });
  }

  Reads-by_references :
      (refs : List String) → Reads (Threading.by_references (thread_lookup env) refs)
  unfolding Threading.by_references
  Reads-by_references [] = Reads-pure none
  Reads-by_references (r ∷ refs) =
      Reads-bind _ _ (Reads-find_by_message_id r)
        (elim [ some t ↦ Reads-pure (some t) | none ↦ Reads-by_references refs ])

  Reads-by_in_reply_to : (h : String) → Reads (Threading.by_in_reply_to (thread_lookup env) h)
  unfolding Threading.by_in_reply_to
  Reads-by_in_reply_to h = Reads-if (h == "") _ _ (Reads-pure none) (Reads-find_by_message_id h)

  Reads-by_subject :
      (config : Threading.Config) (input : ThreadResolutionInput)
      → Reads (Threading.by_subject (thread_lookup env) config input)
  unfolding Threading.by_subject
  Reads-by_subject config input =
      Reads-if (input.parsed_message.subject_normalized == "") _ _ (Reads-pure none) (
        Reads-bind _ _ (Reads-find_most_recent _ _ _ _)
          (elim [ some t ↦ Reads-pure _ | none ↦ Reads-pure none ]))

  Reads-create : (input : ThreadResolutionInput) → Reads (Threading.create (ambient env) input)
  unfolding Threading.create
  Reads-create input = record {
    at = λ w. (_, _, refl, record { store = refl; sent = refl; posts = refl });
  }

  -- Resolving a thread always returns, and writes nothing to the store.
  pub Reads-thread_resolver :
      (input : ThreadResolutionInput) → Reads ((thread_resolver env).resolve input)
  unfolding Threading.resolve
  Reads-thread_resolver input = Reads-bind _ _ (Reads-by_in_reply_to _) (elim [
    | some t ↦ Reads-pure _
    | none ↦ Reads-bind _ _ (Reads-by_references _) (elim [
      | some t ↦ Reads-pure _
      | none ↦
          Reads-bind _ _ (Reads-by_subject _ input)
            (elim [ some t ↦ Reads-pure _ | none ↦ Reads-create input ])
    ])
  ])

  Reads-new_contact :
      (input : ContactResolutionInput)
      → Reads {A = ContactResolutionResult} (
          (ambient env).random_hex >>= λ hex. pure (record {
            contact = Contacts.first_seen (Contacts.new_contact_id hex) input;
            created = true;
          }))
  Reads-new_contact input = record {
    at = λ w. (_, _, refl, record { store = refl; sent = refl; posts = refl });
  }

  -- So does resolving a contact.
  pub Reads-contact_resolver :
      (input : ContactResolutionInput) → Reads ((contact_resolver env).resolve input)
  unfolding Contacts.resolve
  Reads-contact_resolver input =
      Reads-bind _ _ (Reads-find_by_email _ _)
        (elim [ some c ↦ Reads-pure _ | none ↦ Reads-new_contact input ])
