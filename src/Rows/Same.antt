-- ===== src/Rows/Same.antt =====
-- internal/store/convert.go: the conversions that lose nothing.
use std.Path.{transport, transport⁻¹}
use std.Equiv.{iso_to_equiv}
use std.Univalence.{ua, ua-β, ua-β⁻¹}
use agent_layer.Prelude.{◌≡◌, refl}
use agent_layer.Rows.Parties.{
  organization_to_model, organization_from_model, agent_to_model, agent_from_model, inbox_to_model,
  inbox_from_model, contact_to_model, contact_from_model,
}
use agent_layer.Rows.Mail.{thread_to_model, thread_from_model, message_to_model, message_from_model}
use agent_layer.Rows.Delivery.{suppressed_address_to_model, suppressed_address_from_model}

-- The type of the rows is that of the records, along a path whose two transports are the conversions.
pub record AreRows {A B : Type 0} (to_model : A → B) (from_model : B → A) : Type 1 where
  pub path : A ≡ B
  pub stores : (a : A) → transport path a ≡ to_model a
  pub loads : (b : B) → transport⁻¹ path b ≡ from_model b

by_inverse :
    {A B : Type 0} (to_model : A → B) (from_model : B → A)
    → ((b : B) → to_model (from_model b) ≡ b)
    → ((a : A) → from_model (to_model a) ≡ a)
    → AreRows to_model from_model
by_inverse to_model from_model r l =
    let e = iso_to_equiv (record { fun = to_model; inv = from_model; rinv = r; linv = l }) in
    record { path = ua e; stores = ua-β e; loads = ua-β⁻¹ e }

pub record DomainRows : Type 1 where
  pub organizations : AreRows organization_to_model organization_from_model
  pub agents : AreRows agent_to_model agent_from_model
  pub inboxes : AreRows inbox_to_model inbox_from_model
  pub contacts : AreRows contact_to_model contact_from_model
  pub threads : AreRows thread_to_model thread_from_model
  pub messages : AreRows message_to_model message_from_model
  pub suppressions : AreRows suppressed_address_to_model suppressed_address_from_model

-- The rows of organizations, agents, inboxes, contacts, threads, messages and suppressions are the
-- records of the domain under another name: there is a path from the type of the records to that of
-- the rows, transport along it is the conversion to a row, and back along it the conversion from one.
domain-rows : DomainRows
unfolding organization_to_model organization_from_model agent_to_model agent_from_model
    inbox_to_model inbox_from_model contact_to_model contact_from_model thread_to_model
    thread_from_model message_to_model message_from_model suppressed_address_to_model
    suppressed_address_from_model
domain-rows = record {
  organizations = by_inverse _ _ (λ b. refl) (λ a. refl);
  agents = by_inverse _ _ (λ b. refl) (λ a. refl);
  inboxes = by_inverse _ _ (λ b. refl) (λ a. refl);
  contacts = by_inverse _ _ (λ b. refl) (λ a. refl);
  threads = by_inverse _ _ (λ b. refl) (λ a. refl);
  messages = by_inverse _ _ (λ b. refl) (λ a. refl);
  suppressions = by_inverse _ _ (λ b. refl) (λ a. refl);
}
