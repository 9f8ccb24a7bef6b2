-- ===== src/Threading/Dormancy.antt =====
-- `isDormant` and the threshold of internal/threading/resolver.go.
use agent_layer.Prelude.{
  String, true, false, ◌==◌, eq_iff, Option, none, some, ◌≡◌, ◌≢◌, sym, ap, ◌∙◌, ◌⊎◌, ◌↔◌, arith,
  if◌then◌else◌, Bool-cases, inl, inr,
}
use agent_layer.Prelude.Int.{ℤ, pos, negsuc, ltb_ℤ, eq_of_parts, ◌-ℤ◌, ◌≤ℤ◌, ◌<ℤ◌, max_int64}
use agent_layer.Domain.{Time, Thread, zero_time, is_zero, thread_state_dormant}
use agent_layer.Core.{ThreadResolutionInput, ThreadResolutionResult, Ambient}
use agent_layer.Prelude.Exec.{ok, bind-result}
use agent_layer.Threading.{
  Config, new_config, time_sub, is_dormant, ThreadLookupRepository, by_in_reply_to, by_references,
  by_subject, resolve, create, after_subject, after_references, after_in_reply_to,
  match_strategy_subject_recent, match_strategy_new_thread, match_strategy_references,
  match_strategy_in_reply_to,
}

-- Whatever threshold a resolver is built with, the one that it uses is positive.
pub new_config_pos : (config : Config) → pos 0 <ℤ (new_config config).dormant_threshold
unfolding new_config
new_config_pos config = ground arith

ltb_ℤ_iff : (a b : ℤ) → (ltb_ℤ a b ≡ true) ↔ (a <ℤ b)
ltb_ℤ_iff a b = ground arith

-- Saturation never changes the comparison with a threshold inside an int64.
time_sub-threshold :
    (k : ℤ) (t u : Time)
    → pos 0 <ℤ k
    → k <ℤ pos max_int64
    → ltb_ℤ k (time_sub t u) ≡ ltb_ℤ k (t -ℤ u)
unfolding time_sub
time_sub-threshold k t u h m = saturated (t -ℤ u)
  where
    saturated :
        (d : ℤ)
        → ltb_ℤ k (
            if ltb_ℤ (pos max_int64) d
            then pos max_int64
            else if ltb_ℤ d (negsuc max_int64)
            then negsuc max_int64
            else d)
          ≡ ltb_ℤ k d
    saturated d = ground arith

not_zero : (t : Time) → t ≢ zero_time → is_zero t ≡ false
not_zero (pos n) h = elim (Bool-cases (is_zero (pos n))) [
  | inl y ↦ absurd (h (eq_of_parts (pos n) zero_time (ground arith)))
  | inr n ↦ n
]
not_zero (negsuc n) h = ground arith

not_eq : (s t : String) → s ≢ t → (s == t) ≡ false
not_eq s t h = ground (arith, eq_iff s t)

-- For a threshold inside an int64, a thread whose state is not DORMANT and whose last activity is
-- recorded is dormant exactly when more than the threshold has passed since that activity: the
-- saturating subtraction of Go's times decides as the exact difference does.
pub is_dormant_iff :
    (config : Config) (thread : Thread) (at : Time)
    → pos 0 <ℤ config.dormant_threshold
    → config.dormant_threshold <ℤ pos max_int64
    → thread.state ≢ thread_state_dormant
    → thread.last_activity_at ≢ zero_time
    → (is_dormant config thread at ≡ true)
      ↔ (config.dormant_threshold <ℤ (at -ℤ thread.last_activity_at))
unfolding is_dormant
is_dormant_iff config thread at h k n z =
    rw (not_eq _ _ n, not_zero _ z, time_sub-threshold _ _ _ h k)
      (ltb_ℤ_iff config.dormant_threshold (at -ℤ thread.last_activity_at))

new_thread-ne-subject_recent :
    ◌≢◌ {A = String} match_strategy_new_thread match_strategy_subject_recent
new_thread-ne-subject_recent = ground (arith, eq_iff "new_thread" "subject_recent")

references-ne-subject_recent :
    ◌≢◌ {A = String} match_strategy_references match_strategy_subject_recent
references-ne-subject_recent = ground (arith, eq_iff "references" "subject_recent")

in_reply_to-ne-subject_recent :
    ◌≢◌ {A = String} match_strategy_in_reply_to match_strategy_subject_recent
in_reply_to-ne-subject_recent = ground (arith, eq_iff "in_reply_to" "subject_recent")

abbrev pub IsLive : Config → Time → Thread → Type 0
IsLive config at thread =
    (thread.state ≢ thread_state_dormant)
    × ((thread.last_activity_at ≡ zero_time)
        ⊎ ((at -ℤ thread.last_activity_at) ≤ℤ config.dormant_threshold))

not_dormant-IsLive :
    (config : Config) (thread : Thread) (at : Time)
    → pos 0 <ℤ config.dormant_threshold
    → config.dormant_threshold <ℤ pos max_int64
    → is_dormant config thread at ≡ false
    → IsLive config at thread
unfolding is_dormant
not_dormant-IsLive config thread at h k e = (
  ground (arith, eq_iff thread.state thread_state_dormant),
  ground (
    arith,
    eq_of_parts thread.last_activity_at zero_time,
    time_sub-threshold config.dormant_threshold at thread.last_activity_at h k,
  ),
)

module _ {S : Type 0} (lookup : ThreadLookupRepository S) (config : Config)
    (input : ThreadResolutionInput) where
  by_subject_live :
      (s : S) (t : Thread)
      → (by_subject lookup config input s).0 ≡ ok (some t)
      → is_dormant config t input.received_at ≡ false
  unfolding by_subject
  by_subject_live s t e = ground arith

  created_matched_by :
      (ambient : Ambient S) (s : S) (r : ThreadResolutionResult)
      → (create ambient input s).0 ≡ ok r
      → r.matched_by ≡ match_strategy_new_thread
  unfolding create
  created_matched_by ambient s r e = ground arith

  module _ (ambient : Ambient S) (r : ThreadResolutionResult)
      (m : r.matched_by ≡ match_strategy_subject_recent) where
    after_subject_live :
        (o : Option Thread) (s : S)
        → (after_subject lookup ambient config input o s).0 ≡ ok r
        → o ≡ some r.thread
    unfolding after_subject
    after_subject_live (some t) s e = ground arith
    after_subject_live none s e =
        absurd (new_thread-ne-subject_recent (sym (created_matched_by ambient s r e) ∙ m))

    after_references_live :
        (o : Option Thread) (s : S)
        → (after_references lookup ambient config input o s).0 ≡ ok r
        → is_dormant config r.thread input.received_at ≡ false
    unfolding after_references
    after_references_live (some t) s e = absurd (references-ne-subject_recent (ground arith))
    after_references_live none s e =
        let (o, p, q) =
          bind-result (by_subject lookup config input) (after_subject lookup ambient config input) s
            r e in
        by_subject_live s r.thread (p ∙ ap ok (after_subject_live o _ q))

    after_in_reply_to_live :
        (o : Option Thread) (s : S)
        → (after_in_reply_to lookup ambient config input o s).0 ≡ ok r
        → is_dormant config r.thread input.received_at ≡ false
    unfolding after_in_reply_to
    after_in_reply_to_live (some t) s e = absurd (in_reply_to-ne-subject_recent (ground arith))
    after_in_reply_to_live none s e =
        let (o, p, q) =
          bind-result (by_references lookup input.parsed_message.references)
            (after_references lookup ambient config input) s r e in
        after_references_live o _ q

  -- A thread that `resolve` returns as found by its subject is never in the state DORMANT, and it
  -- either has no recorded activity or was active within the threshold, whatever the lookups do.
  -- The threshold is assumed positive and inside an int64.
  pub resolve-IsLive :
      (ambient : Ambient S) (s : S) (r : ThreadResolutionResult)
      → pos 0 <ℤ config.dormant_threshold
      → config.dormant_threshold <ℤ pos max_int64
      → (resolve lookup ambient config input s).0 ≡ ok r
      → r.matched_by ≡ match_strategy_subject_recent
      → IsLive config input.received_at r.thread
  unfolding resolve
  resolve-IsLive ambient s r h k e m =
      let (o, p, q) =
        bind-result (by_in_reply_to lookup input.parsed_message.in_reply_to)
          (after_in_reply_to lookup ambient config input) s r e in
      not_dormant-IsLive config r.thread input.received_at h k
        (after_in_reply_to_live ambient r m o _ q)
