-- ===== src/Threading/Order.antt =====
-- The order in which `Resolve` of internal/threading/resolver.go asks its lookups, and what it
-- does when none answers.
use agent_layer.Prelude.{
  String, Bool, true, false, ◌==◌, Option, none, some, List, [], ◌∷◌, ◌++◌, if◌then◌else◌, ◌≡◌, ◌∙◌,
  refl, All, arith, str_append,
}
use agent_layer.Prelude.Exec.{ok}
use agent_layer.Domain.{Thread}
use agent_layer.Core.{ThreadResolutionInput, Ambient, generated_id}
use agent_layer.Threading.{
  ThreadLookupRepository, Config, is_dormant, new_thread, new_thread_id, by_in_reply_to,
  by_references, by_subject, resolve, after_subject, match_strategy_references,
  match_strategy_in_reply_to, matched, match_strategy_subject_recent, create,
}

-- The id of a thread that is opened: made of what the random source drew.
abbrev pub opened_id : Option String → String
opened_id (some hex) = str_append "thread-" hex
opened_id none = "thread-generated"

drawn-id : (hex : Option String) → new_thread_id hex ≡ opened_id hex
unfolding new_thread_id generated_id
drawn-id (some hex) = refl
drawn-id none = refl

-- A thread that is opened for a message: active, of the message's parties, subject and time.
pub record IsOpened (input : ThreadResolutionInput) (hex : Option String) (t : Thread)
    : Type 0 where
  pub id : t.id ≡ opened_id hex
  pub organization : t.organization_id ≡ input.organization_id
  pub agent : t.agent_id ≡ input.agent_id
  pub inbox : t.inbox_id ≡ input.inbox_id
  pub contact : t.contact_id ≡ input.contact_id
  pub subject : t.subject_normalized ≡ input.parsed_message.subject_normalized
  pub state : t.state ≡ "ACTIVE"
  pub no_inbound : t.last_inbound_id ≡ ""
  pub no_outbound : t.last_outbound_id ≡ ""
  pub last_activity_at : t.last_activity_at ≡ input.received_at
  pub created_at : t.created_at ≡ input.received_at
  pub updated_at : t.updated_at ≡ input.received_at

-- In the state `s` the lookups answer by the two functions, and change nothing.
pub record Answers {S : Type 0} (lookup : ThreadLookupRepository S) (s : S)
    (by_id : String → Option Thread) (recent : String → String → String → String → Option Thread)
    : Type 0 where
  pub id_answer : (h : String) → lookup.find_by_message_id h s ≡ (ok (by_id h), s)
  pub recent_answer :
      (o i c n : String) → lookup.find_most_recent_by_subject o i c n s ≡ (ok (recent o i c n), s)

-- The message ids that a message names, the most specific first.
abbrev pub chain : ThreadResolutionInput → List String
chain input =
    (if input.parsed_message.in_reply_to == "" then [] else input.parsed_message.in_reply_to ∷ [])
    ++ input.parsed_message.references

-- The answer by subject that counts: the subject is not empty and the thread not dormant.
abbrev pub live_recent :
    Config
    → (String → String → String → String → Option Thread)
    → ThreadResolutionInput
    → Option Thread
live_recent config recent input =
    if input.parsed_message.subject_normalized == ""
    then none
    else elim (recent input.organization_id input.inbox_id input.contact_id
        input.parsed_message.subject_normalized) [
          | some thread ↦ if is_dormant config thread input.received_at then none else some thread
          | none ↦ none
        ]

abbrev pub strategy_at : ThreadResolutionInput → List String → String
strategy_at input before =
    if input.parsed_message.in_reply_to == ""
    then match_strategy_references
    else elim before [ [] ↦ match_strategy_in_reply_to | _ ∷ _ ↦ match_strategy_references ]

abbrev pub Misses : (String → Option Thread) → List String → Type 0
Misses by_id = All (λ h. by_id h ≡ none)

module _ {S : Type 0} (lookup : ThreadLookupRepository S) (s : S) (by_id : String → Option Thread)
    (recent : String → String → String → String → Option Thread)
    (a : Answers lookup s by_id recent) where
  by_references_miss :
      (refs : List String) → Misses by_id refs → by_references lookup refs s ≡ (ok none, s)
  unfolding by_references
  by_references_miss [] h = refl
  by_references_miss (r ∷ refs) (m, h) = ground (arith, a.id_answer r, by_references_miss refs h)

  by_references_hit :
      (before after : List String) (r : String) (t : Thread)
      → Misses by_id before
      → by_id r ≡ some t
      → by_references lookup (before ++ r ∷ after) s ≡ (ok (some t), s)
  unfolding by_references
  by_references_hit [] after r t h e = ground (arith, a.id_answer r)
  by_references_hit (b ∷ before) after r t (m, h) e =
      ground (arith, a.id_answer b, by_references_hit before after r t h e)

  by_in_reply_to_given :
      (h : String) → (h == "") ≡ false → by_in_reply_to lookup h s ≡ (ok (by_id h), s)
  unfolding by_in_reply_to
  by_in_reply_to_given h given = rw given (a.id_answer h)

  by_in_reply_to_absent : (h : String) → (h == "") ≡ true → by_in_reply_to lookup h s ≡ (ok none, s)
  unfolding by_in_reply_to
  by_in_reply_to_absent h absent = rw absent

  by_subject_answer :
      (config : Config) (input : ThreadResolutionInput)
      → by_subject lookup config input s ≡ (ok (live_recent config recent input), s)
  unfolding by_subject
  by_subject_answer config input = ground (
    arith,
    a.recent_answer input.organization_id input.inbox_id input.contact_id
        input.parsed_message.subject_normalized,
  )

-- What `resolve` does with the answers of its three stages.
module _ {S : Type 0} (lookup : ThreadLookupRepository S) (ambient : Ambient S) (config : Config)
    (input : ThreadResolutionInput) (s : S) where
  resolve_direct :
      (t : Thread)
      → by_in_reply_to lookup input.parsed_message.in_reply_to s ≡ (ok (some t), s)
      → resolve lookup ambient config input s ≡ (ok (matched match_strategy_in_reply_to t), s)
  unfolding resolve
  resolve_direct t e = rw e

  resolve_referenced :
      (t : Thread)
      → by_in_reply_to lookup input.parsed_message.in_reply_to s ≡ (ok none, s)
      → by_references lookup input.parsed_message.references s ≡ (ok (some t), s)
      → resolve lookup ambient config input s ≡ (ok (matched match_strategy_references t), s)
  unfolding resolve
  resolve_referenced t e r = rw (e, r)

  resolve_unreferenced :
      (o : Option Thread)
      → by_in_reply_to lookup input.parsed_message.in_reply_to s ≡ (ok none, s)
      → by_references lookup input.parsed_message.references s ≡ (ok none, s)
      → by_subject lookup config input s ≡ (ok o, s)
      → resolve lookup ambient config input s ≡ after_subject lookup ambient config input o s
  unfolding resolve
  resolve_unreferenced (some t) e r q = rw (e, r, q)
  resolve_unreferenced none e r q = rw (e, r, q)

module _ {S : Type 0} (lookup : ThreadLookupRepository S) (ambient : Ambient S) (config : Config)
    (input : ThreadResolutionInput) (s : S) (by_id : String → Option Thread)
    (recent : String → String → String → String → Option Thread)
    (a : Answers lookup s by_id recent) where
  in_chain :
      (before after : List String) (h : String) (t : Thread)
      → chain input ≡ before ++ h ∷ after
      → Misses by_id before
      → by_id h ≡ some t
      → (given : Bool) → (input.parsed_message.in_reply_to == "") ≡ given
      → resolve lookup ambient config input s ≡ (ok (matched (strategy_at input before) t), s)
  in_chain before after h t e m hit true g = rw g (
      resolve_referenced lookup ambient config input s t
        (by_in_reply_to_absent lookup s by_id recent a _ g)
        (rw (rw g at e) (by_references_hit lookup s by_id recent a before after h t m hit)))
  in_chain [] after h t e m hit false g = rw g (
      resolve_direct lookup ambient config input s t
        (cc (rw g at e, by_in_reply_to_given lookup s by_id recent a _ g)))
  in_chain (b ∷ before) after h t e m hit false g = rw g (
      resolve_referenced lookup ambient config input s t
        (cc (rw g at e, m.0, by_in_reply_to_given lookup s by_id recent a _ g))
        (cc (rw g at e, by_references_hit lookup s by_id recent a before after h t m.1 hit)))

  -- A message whose In-Reply-To and References miss up to some point and then name a known message
  -- is put on that message's thread, whatever the later references and the subject say: the first
  -- hit in the order In-Reply-To, References wins. No thread is created and the state is as before.
  pub resolve-first :
      (before after : List String) (h : String) (t : Thread)
      → chain input ≡ before ++ h ∷ after
      → Misses by_id before
      → by_id h ≡ some t
      → resolve lookup ambient config input s ≡ (ok (matched (strategy_at input before) t), s)
  resolve-first before after h t e m hit =
      in_chain before after h t e m hit (input.parsed_message.in_reply_to == "") refl

  chain-Misses :
      Misses by_id (chain input)
      → (given : Bool) → (input.parsed_message.in_reply_to == "") ≡ given
      → (by_in_reply_to lookup input.parsed_message.in_reply_to s ≡ (ok none, s))
        × Misses by_id input.parsed_message.references
  chain-Misses m true g = (by_in_reply_to_absent lookup s by_id recent a _ g, rw g at m)
  chain-Misses m false g =
      let m' = rw g at m in (cc (m'.0, by_in_reply_to_given lookup s by_id recent a _ g), m'.1)

  chain_missed :
      Misses by_id (chain input)
      → resolve lookup ambient config input s
        ≡ after_subject lookup ambient config input (live_recent config recent input) s
  chain_missed m =
      let (direct, rest) = chain-Misses m (input.parsed_message.in_reply_to == "") refl in
      resolve_unreferenced lookup ambient config input s (live_recent config recent input) direct
        (by_references_miss lookup s by_id recent a _ rest)
        (by_subject_answer lookup s by_id recent a config input)

  -- If no id that the message names is known, the most recent thread of the same inbox, contact and
  -- subject is taken, provided that the subject is not empty and the thread not dormant.
  pub resolve_recent :
      (t : Thread)
      → Misses by_id (chain input)
      → live_recent config recent input ≡ some t
      → resolve lookup ambient config input s ≡ (ok (matched match_strategy_subject_recent t), s)
  unfolding after_subject
  resolve_recent t m e = chain_missed m ∙ rw e

  -- If no id that the message names is known, and no live thread has its subject, a new thread is
  -- made, active, with an id drawn from the random source, the message's organization, agent, inbox,
  -- contact and subject, and its time as that of the last activity. The lookups change nothing, so only the draw changes the state.
  pub resolve_creates :
      (hex : Option String) (s' : S)
      → Misses by_id (chain input)
      → live_recent config recent input ≡ none
      → ambient.random_hex s ≡ (ok hex, s')
      → (t : Thread) × (resolve lookup ambient config input s
          ≡ (ok (record { thread = t; matched_by = "new_thread"; created = true }), s'))
        × IsOpened input hex t
  unfolding after_subject create new_thread new_thread_id generated_id
  resolve_creates hex s' m e r = (
    _,
    chain_missed m ∙ rw (e, r) refl,
    record {
      id = drawn-id hex;
      organization = refl;
      agent = refl;
      inbox = refl;
      contact = refl;
      subject = refl;
      state = refl;
      no_inbound = refl;
      no_outbound = refl;
      last_activity_at = refl;
      created_at = refl;
      updated_at = refl;
    },
  )
