-- ===== src/Memory/Listing.antt =====
-- The methods of internal/store/memory/store.go that go through a map or a list of ids. `sort.Slice`
-- is an insertion sort here; the orders that the code sorts by leave no ties between distinct keys.
use Prim.Native.Nat.{Ordering}
use Prim.Native.String.{compare}
use agent_layer.Prelude.{
  String, Bool, true, false, ◌==◌, ◌&&◌, Option, none, some, List, [], ◌∷◌, map, length, take,
  if◌then◌else◌,
}
use agent_layer.Prelude.Int.{ℤ, pos, pos_part, ltb_ℤ, eqb_ℤ}
use agent_layer.Prelude.Exec.{Exec, ok}
use agent_layer.Prelude.Dict
use agent_layer.Prelude.Dict.{Dict}
use agent_layer.Domain.{
  Time, Thread, Message, ContactMemoryEntry, SuppressedAddress, WebhookDelivery, after,
  zero_message, zero_time,
}
use agent_layer.Inbound.Receipt.{DurableReceiptRequest}
use agent_layer.Platform.{Platform}
use agent_layer.Memory.State.{Store, or_nil}

-- a > b on Go strings
abbrev pub string_after : String → String → Bool
string_after a b = elim (compare a b) [ Ordering.gt ↦ true | _ ↦ false ]

-- Newest first, and by descending key at the same time.
abbrev pub newer : Time → String → Time → String → Bool
newer t a u b = if eqb_ℤ t u then string_after a b else after t u

module _ {A : Type 0} (less : A → A → Bool) where
  unfoldable pub insert : A → List A → List A
  insert a [] = a ∷ []
  insert a (b ∷ l) = if less b a then b ∷ insert a l else a ∷ b ∷ l

  -- sort.Slice
  unfoldable pub sort_slice : List A → List A
  unfolding insert
  sort_slice [] = []
  sort_slice (a ∷ l) = insert a (sort_slice l)

-- `if limit > 0 && len(out) > limit { out = out[:limit] }`
unfoldable pub limited : {A : Type 0} → ℤ → List A → List A
limited limit out =
    if ltb_ℤ (pos 0) limit && ltb_ℤ limit (pos (length out)) then take (pos_part limit) out else out

-- m[id] of a map of structs: the zero value where the key is missing.
abbrev pub or_zero : {A : Type 0} → A → Option A → A
or_zero zero none = zero
or_zero zero (some a) = a

abbrev pub zero_memory : ContactMemoryEntry
zero_memory = record {
  id = "";
  contact_id = "";
  thread_id = "";
  note = "";
  tags = [];
  created_at = zero_time;
}

unfoldable pub list_by_thread_id : String → ℤ → Exec Store (List Message)
list_by_thread_id thread_id limit s = (
  ok (
      map (λ id. or_zero zero_message (Dict.get s.messages_by_id id))
        (limited limit (or_nil (Dict.get s.messages_by_thread_id thread_id)))),
  s,
)

unfoldable pub list_memory_by_contact_id : String → ℤ → Exec Store (List ContactMemoryEntry)
list_memory_by_contact_id contact_id limit s = (
  ok (
      map (λ id. or_zero zero_memory (Dict.get s.memories_by_id id))
        (limited limit (or_nil (Dict.get s.memories_by_contact_id contact_id)))),
  s,
)

abbrev pub same_subject : String → String → String → String → Thread → Bool
same_subject organization_id inbox_id contact_id subject_normalized thread =
    (thread.organization_id == organization_id
      && thread.inbox_id == inbox_id
      && thread.contact_id == contact_id)
    && thread.subject_normalized == subject_normalized

-- `if !bestFound || thread.LastActivityAt.After(best.LastActivityAt) { best = thread }`
abbrev pub better : Option Thread → Thread → Option Thread
better none thread = some thread
better (some best) thread =
    if after thread.last_activity_at best.last_activity_at then some thread else some best

-- The loop over the threads, with `best` and `bestFound` as an optional thread.
unfoldable pub scan_subject : (Thread → Bool) → Option Thread → List Thread → Option Thread
scan_subject matches best [] = best
scan_subject matches best (thread ∷ rest) =
    scan_subject matches (if matches thread then better best thread else best) rest

abbrev pub suppresses : String → String → SuppressedAddress → Bool
suppresses organization_id email_address suppression =
    suppression.organization_id == organization_id && suppression.email_address == email_address

unfoldable pub scan_suppressed : String → String → List SuppressedAddress → Bool
scan_suppressed organization_id email_address [] = false
scan_suppressed organization_id email_address (suppression ∷ rest) =
    let later = scan_suppressed organization_id email_address rest in
    if suppresses organization_id email_address suppression then true else later

abbrev pub newer_receipt : DurableReceiptRequest → DurableReceiptRequest → Bool
newer_receipt a b =
    newer a.received_at a.raw_message_object_key b.received_at b.raw_message_object_key

abbrev pub newer_suppression : SuppressedAddress → SuppressedAddress → Bool
newer_suppression a b = newer a.updated_at a.id b.updated_at b.id

abbrev pub newer_delivery : WebhookDelivery → WebhookDelivery → Bool
newer_delivery a b = newer a.updated_at a.id b.updated_at b.id

module _ (platform : Platform) where
  unfoldable pub find_most_recent_by_subject :
      String → String → String → String → Exec Store (Option Thread)
  unfolding scan_subject
  find_most_recent_by_subject organization_id inbox_id contact_id subject_normalized s = (
    ok (
        scan_subject (same_subject organization_id inbox_id contact_id subject_normalized) none
          (platform.visit Thread s.threads_by_id)),
    s,
  )

  unfoldable pub is_suppressed : String → String → Exec Store Bool
  unfolding scan_suppressed
  is_suppressed organization_id email_address s = (
    ok (
        scan_suppressed organization_id email_address
          (platform.visit SuppressedAddress s.suppressions_by_id)),
    s,
  )

  unfoldable pub list_inbound_receipts : ℤ → Exec Store (List DurableReceiptRequest)
  unfolding limited sort_slice
  list_inbound_receipts limit s = (
    ok (
        limited limit (
          sort_slice newer_receipt
            (platform.visit DurableReceiptRequest s.inbound_receipts_by_key))),
    s,
  )

  unfoldable pub list_suppressions : ℤ → Exec Store (List SuppressedAddress)
  unfolding limited sort_slice
  list_suppressions limit s = (
    ok (
        limited limit
          (sort_slice newer_suppression (platform.visit SuppressedAddress s.suppressions_by_id))),
    s,
  )

  unfoldable pub list_webhook_deliveries : ℤ → Exec Store (List WebhookDelivery)
  unfolding limited sort_slice
  list_webhook_deliveries limit s = (
    ok (
        limited limit
          (sort_slice newer_delivery (platform.visit WebhookDelivery s.webhook_deliveries_by_id))),
    s,
  )
