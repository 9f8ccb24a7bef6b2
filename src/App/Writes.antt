-- ===== src/App/Writes.antt =====
-- internal/app/write_services.go, with the adapters of cmd/agentlayer/main.go that stand before it:
-- the escalation of a thread and the notes on a contact.
use agent_layer.Prelude.{String, ◌==◌, Option, List, if◌then◌else◌}
use agent_layer.Prelude.Exec.{Exec, pure, ◌>>=◌, ◌>>◌}
use agent_layer.Domain.{
  Time, Thread, Contact, ContactMemoryEntry, zero_thread, thread_state_escalated,
}
use agent_layer.Core.{Ambient, generated_id}

unfoldable pub escalated : String → Time → Thread
escalated thread_id now = record zero_thread {
  id = thread_id;
  state = thread_state_escalated;
  updated_at = now;
}

-- newContactMemoryID
unfoldable pub new_contact_memory_id : Option String → String
unfolding generated_id
new_contact_memory_id = generated_id "memory-" "memory-generated"

pub record CreateContactMemoryInput : Type 0 where
  pub thread_id : String
  pub note : String
  pub tags : List String

unfoldable pub memory_entry : String → String → CreateContactMemoryInput → Time → ContactMemoryEntry
memory_entry id contact_id input now = record {
  id = id;
  contact_id = contact_id;
  thread_id = input.thread_id;
  note = input.note;
  tags = input.tags;
  created_at = now;
}

module _ {S : Type 0} where
  -- threadEscalationServiceAdapter.EscalateThread over ThreadEscalationService.EscalateThread. The
  -- reason is not used by either.
  unfoldable pub escalate_thread :
      (String → Exec S Thread) → (Thread → Exec S Thread) → Exec S Time → String → Exec S Thread
  unfolding escalated
  escalate_thread get_thread save clock thread_id = do
    get_thread thread_id
    now ← clock
    save (escalated thread_id now)

  unfoldable pub check_thread : (String → Exec S Thread) → String → Exec S Unit
  check_thread get_thread thread_id =
      if thread_id == "" then pure tt else get_thread thread_id >>= λ _. pure tt

  -- contactMemoryServiceAdapter.CreateContactMemory over ContactMemoryService.CreateContactMemory
  unfoldable pub create_contact_memory :
      (String → Exec S Contact)
      → (String → Exec S Thread)
      → (ContactMemoryEntry → Exec S ContactMemoryEntry)
      → Ambient S
      → String
      → CreateContactMemoryInput
      → Exec S ContactMemoryEntry
  unfolding check_thread memory_entry new_contact_memory_id
  create_contact_memory get_contact get_thread create ambient contact_id input = do
    get_contact contact_id
    check_thread get_thread input.thread_id
    hex ← ambient.random_hex
    now ← ambient.now
    create (memory_entry (new_contact_memory_id hex) contact_id input now)
