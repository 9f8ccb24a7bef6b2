-- ===== src/Webhooks/Lifecycle.antt =====
-- The attempts of a webhook delivery, one after the other: internal/webhooks/recorder.go.
use agent_layer.Prelude.{
  ℕ, suc, ◌+◌, ◌-◌, ◌*◌, ◌^◌, ◌≤◌, ◌<◌, true, false, List, [], ◌∷◌, ◌++◌, length, leb,
  if◌then◌else◌, ◌≡◌, ◌∙◌, inl, inr, Bool-cases, refl, ap, arith,
}
use mathlib.Core.Path.{subst}
use agent_layer.Prelude.Int.{pos, ◌+ℤ◌, wrap64, wrap64-pos, max_int64}
use agent_layer.Domain.{Time, WebhookDelivery, zero_time}
use agent_layer.Core.{WebhookDispatchResult}
use agent_layer.Webhooks.Attempts.{
  delivery_status_retrying, delivery_status_dead_letter, minute, is_success, attempted,
}
use agent_layer.Webhooks.Backoff.{default_backoff_lem}

-- The delivery after a number of answered attempts.
abbrev pub after_attempts : WebhookDelivery → List WebhookDispatchResult → WebhookDelivery
after_attempts delivery [] = delivery
after_attempts delivery (response ∷ rest) = after_attempts (attempted delivery response) rest

-- Every answer is a failure.
abbrev pub AllFail : List WebhookDispatchResult → Type 0
AllFail [] = Unit
AllFail (response ∷ rest) = (is_success response.status_code ≡ false) × AllFail rest

-- Where a delivery stands whose `n` attempts have failed, the last at `at`.
pub record HasFailed (n : ℕ) (at : Time) (d : WebhookDelivery) : Type 0 where
  pub count : d.attempt_count ≡ pos n
  pub status :
      d.status ≡ (if leb n 3 then delivery_status_retrying else delivery_status_dead_letter)
  pub next : d.next_attempt_at ≡ (if leb n 3 then at +ℤ pos (minute * 2 ^ (n - 1)) else zero_time)
  pub last : d.last_attempt_at ≡ at

plus_one : (n : ℕ) → pos n +ℤ pos 1 ≡ pos (suc n)
unfolding ◌+ℤ◌
plus_one n = ground arith

succ_ℤ : (n : ℕ) → n < max_int64 → wrap64 (pos n +ℤ pos 1) ≡ pos (suc n)
succ_ℤ n h = ap wrap64 (plus_one n) ∙ wrap64-pos (suc n) (omega (arith, h))

at_most_three : (n : ℕ) → leb (suc n + 0) 3 ≡ leb (suc n) 3
at_most_three n = ap (λ k. leb k 3) (omega arith)

leb_le : (n : ℕ) → leb (suc n) 3 ≡ true → suc n ≤ 28
leb_le n h = ground arith

attempted-HasFailed :
    (d : WebhookDelivery) (r : WebhookDispatchResult) (n : ℕ)
    → d.attempt_count ≡ pos n
    → n < max_int64
    → is_success r.status_code ≡ false
    → HasFailed (suc n) r.delivered_at (attempted d r)
unfolding attempted
attempted-HasFailed d r n c h f =
    let eq : wrap64 (d.attempt_count +ℤ pos 1) ≡ pos (suc n) = rw c (succ_ℤ n h) in
    elim (Bool-cases (leb (suc n) 3)) [
      | inl e ↦
          rw (f, eq, at_most_three n, e)
            (record {
              count = refl;
              status = rw e refl;
              next = rw e (
                  ap (λ z. r.delivered_at +ℤ z)
                    (default_backoff_lem (pos (suc n)) (omega (arith, leb_le n e))));
              last = refl;
            })
      | inr e ↦
          rw (f, eq, at_most_three n, e)
            (record { count = refl; status = rw e refl; next = rw e refl; last = refl })
    ]

HasFailed-eq :
    {n m : ℕ} {at : Time} {d : WebhookDelivery} → n ≡ m → HasFailed n at d → HasFailed m at d
HasFailed-eq {at = at} {d = d} e h = subst (λ k. HasFailed k at d) e h

-- A delivery with the count `n`, whose further answered attempts all fail, has a count of `n` and
-- their number. If that is at most three, it waits for a retry, which is due a minute (two, four
-- minutes) after the last answer; otherwise it is a dead letter. (The count stays below the largest
-- int64.)
pub after_failures :
    (d : WebhookDelivery) (l : List WebhookDispatchResult) (r : WebhookDispatchResult) (n : ℕ)
    → d.attempt_count ≡ pos n
    → AllFail (l ++ r ∷ [])
    → n + length l < max_int64
    → HasFailed (n + suc (length l)) r.delivered_at (after_attempts d (l ++ r ∷ []))
after_failures d [] r n c (f, _) h =
    HasFailed-eq (omega arith) (attempted-HasFailed d r n c (omega (arith, h)) f)
after_failures d (x ∷ l) r n c (f, g) h =
    let here = attempted-HasFailed d x n c (omega (arith, h)) f in
    HasFailed-eq (omega arith)
      (after_failures (attempted d x) l r (suc n) here.count g (omega (arith, h)))
