-- ===== src/Threading.antt =====
-- internal/threading/resolver.go: which thread an inbound message belongs to.
pub mod Order
pub mod Dormancy
use agent_layer.Prelude.{
  String, Bool, true, false, ◌==◌, Option, none, some, List, [], ◌∷◌, if◌then◌else◌, ◌*◌,
}
use agent_layer.Prelude.Int.{ℤ, pos, negsuc, ◌-ℤ◌, ltb_ℤ, leb_ℤ, max_int64}
use agent_layer.Prelude.Exec.{Exec, pure, ◌>>=◌}
use agent_layer.Domain.{
  Time, Thread, zero_thread, is_zero, thread_state_active, thread_state_dormant,
}
use agent_layer.Core.{ThreadResolutionInput, ThreadResolutionResult, Ambient, generated_id}

abbrev pub match_strategy_in_reply_to : String
match_strategy_in_reply_to = "in_reply_to"

abbrev pub match_strategy_references : String
match_strategy_references = "references"

abbrev pub match_strategy_subject_recent : String
match_strategy_subject_recent = "subject_recent"

abbrev pub match_strategy_new_thread : String
match_strategy_new_thread = "new_thread"

-- A `(thread, found, err)` result is an optional thread, or an error.
pub record ThreadLookupRepository (S : Type 0) : Type 0 where
  pub find_by_message_id : String → Exec S (Option Thread)
  pub find_most_recent_by_subject : String → String → String → String → Exec S (Option Thread)

-- A duration is a number of nanoseconds.
pub record Config : Type 0 where
  pub dormant_threshold : ℤ

-- 30 * 24 * time.Hour
abbrev pub thirty_days : ℤ
thirty_days = pos (30 * 24 * 3_600_000_000_000)

-- NewResolverWithConfig
unfoldable pub new_config : Config → Config
new_config config =
    if leb_ℤ config.dormant_threshold (pos 0)
    then record { dormant_threshold = thirty_days }
    else config

-- t.Sub(u), which saturates at the ends of an int64.
unfoldable pub time_sub : Time → Time → ℤ
time_sub t u =
    let d = t -ℤ u in
    if ltb_ℤ (pos max_int64) d
    then pos max_int64
    else if ltb_ℤ d (negsuc max_int64)
    then negsuc max_int64
    else d

unfoldable pub is_dormant : Config → Thread → Time → Bool
is_dormant config thread received_at =
    if thread.state == thread_state_dormant
    then true
    else if is_zero thread.last_activity_at
    then false
    else ltb_ℤ config.dormant_threshold (time_sub received_at thread.last_activity_at)

unfoldable pub new_thread : String → ThreadResolutionInput → Thread
new_thread id input = record zero_thread {
  id = id;
  organization_id = input.organization_id;
  agent_id = input.agent_id;
  inbox_id = input.inbox_id;
  contact_id = input.contact_id;
  subject_normalized = input.parsed_message.subject_normalized;
  state = thread_state_active;
  last_activity_at = input.received_at;
  created_at = input.received_at;
  updated_at = input.received_at;
}

abbrev pub matched : String → Thread → ThreadResolutionResult
matched strategy thread = record { thread = thread; matched_by = strategy; created = false }

-- newThreadID
unfoldable pub new_thread_id : Option String → String
unfolding generated_id
new_thread_id = generated_id "thread-" "thread-generated"

module _ {S : Type 0} (lookup : ThreadLookupRepository S) where
  -- `if header != "" { … }` around the lookup of In-Reply-To
  unfoldable pub by_in_reply_to : String → Exec S (Option Thread)
  by_in_reply_to header = if header == "" then pure none else lookup.find_by_message_id header

  -- The loop over References: the first that is found.
  unfoldable pub by_references : List String → Exec S (Option Thread)
  by_references [] = pure none
  by_references (reference ∷ rest) = do
    found ← lookup.find_by_message_id reference
    elim found [ some thread ↦ pure (some thread) | none ↦ by_references rest ]

  -- The lookup by subject, with the test for a dormant thread.
  unfoldable pub by_subject : Config → ThreadResolutionInput → Exec S (Option Thread)
  unfolding is_dormant
  by_subject config input = if input.parsed_message.subject_normalized == "" then pure none else do
    found ←
        lookup.find_most_recent_by_subject input.organization_id input.inbox_id input.contact_id
          input.parsed_message.subject_normalized
    elim found [
      | some thread ↦
          pure (if is_dormant config thread input.received_at then none else some thread)
      | none ↦ pure none
    ]

unfoldable pub create :
    {S : Type 0} → Ambient S → ThreadResolutionInput → Exec S ThreadResolutionResult
unfolding new_thread_id new_thread
create ambient input = do
  hex ← ambient.random_hex
  pure (record {
    thread = new_thread (new_thread_id hex) input;
    matched_by = match_strategy_new_thread;
    created = true;
  })

module _ {S : Type 0} (lookup : ThreadLookupRepository S) (ambient : Ambient S) (config : Config)
    (input : ThreadResolutionInput) where
  -- What follows each of the three stages, by whether it found a thread.
  unfoldable pub after_subject : Option Thread → Exec S ThreadResolutionResult
  after_subject (some thread) = pure (matched match_strategy_subject_recent thread)
  after_subject none = create ambient input

  unfoldable pub after_references : Option Thread → Exec S ThreadResolutionResult
  after_references (some thread) = pure (matched match_strategy_references thread)
  after_references none = do recent ← by_subject lookup config input; after_subject recent

  unfoldable pub after_in_reply_to : Option Thread → Exec S ThreadResolutionResult
  after_in_reply_to (some thread) = pure (matched match_strategy_in_reply_to thread)
  after_in_reply_to none = do
    referenced ← by_references lookup input.parsed_message.references
    after_references referenced

  unfoldable pub resolve : Exec S ThreadResolutionResult
  unfolding after_in_reply_to after_references after_subject
  resolve = do
    direct ← by_in_reply_to lookup input.parsed_message.in_reply_to
    after_in_reply_to direct
