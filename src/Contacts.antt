-- ===== src/Contacts.antt =====
-- internal/contacts/resolver.go: the contact that an inbound message comes from.
use agent_layer.Prelude.{String, true, false, ◌==◌, Option, none, some, if◌then◌else◌}
use agent_layer.Prelude.Exec.{Exec, pure, ◌>>=◌}
use agent_layer.Domain.{Contact}
use agent_layer.Core.{ContactResolutionInput, ContactResolutionResult, Ambient, generated_id}

pub record Repository (S : Type 0) : Type 0 where
  pub find_by_email : String → String → Exec S (Option Contact)

-- newContactID
unfoldable pub new_contact_id : Option String → String
unfolding generated_id
new_contact_id = generated_id "contact-" "contact-generated"

-- The update of an existing contact; a message without a display name keeps the old one.
unfoldable pub seen_again : ContactResolutionInput → Contact → Contact
seen_again input existing = record existing {
  display_name =
      if input.parsed_message.from.display_name == ""
      then existing.display_name
      else input.parsed_message.from.display_name;
  last_seen_at = input.received_at;
  updated_at = input.received_at;
}

unfoldable pub first_seen : String → ContactResolutionInput → Contact
first_seen id input = record {
  id = id;
  organization_id = input.organization_id;
  email_address = input.parsed_message.from.email;
  display_name = input.parsed_message.from.display_name;
  last_seen_at = input.received_at;
  created_at = input.received_at;
  updated_at = input.received_at;
}

unfoldable pub resolve :
    {S : Type 0}
    → Repository S
    → Ambient S
    → ContactResolutionInput
    → Exec S ContactResolutionResult
unfolding seen_again first_seen new_contact_id
resolve repository ambient input = do
  found ← repository.find_by_email input.organization_id input.parsed_message.from.email
  elim found [
    | some existing ↦ pure (record { contact = seen_again input existing; created = false })
    | none ↦ do
      hex ← ambient.random_hex
      pure (record { contact = first_seen (new_contact_id hex) input; created = true })
  ]
