-- ===== src/Webhooks/SweepLaws.antt =====
-- What `RetryDueDeliveries` of internal/webhooks/retry_sweep_service.go counts.
use agent_layer.Prelude.{
  ℕ, suc, String, Bool, not, ◌&&◌, ◌==◌, ◌+◌, false, List, [], ◌∷◌, ◌++◌, length, ◌≡◌, refl, arith,
  inl, inr, Bool-cases, ◌∙◌, ap, sym, if◌then◌else◌,
}
use agent_layer.Prelude.Int.{pos, eqb_ℤ, leb_ℤ}
use agent_layer.Prelude.Exec.{Exec, Result, ok, err}
use agent_layer.Domain.{Time, WebhookDelivery}
use agent_layer.Webhooks.Delivery.{DeliveryResult}
use agent_layer.Webhooks.Sweep.{RetrySweepResult, is_retry_due, skip, tally, sweep}

-- A delivery is due at a time: it waits for a retry whose time is set and has come.
abbrev pub is_due : WebhookDelivery → Time → Bool
is_due delivery at =
    delivery.status == "retrying"
    && not (eqb_ℤ delivery.next_attempt_at (pos 0))
    && leb_ℤ delivery.next_attempt_at at

is_retry_due_lem : (d : WebhookDelivery) (at : Time) → is_retry_due d at ≡ is_due d at
unfolding is_retry_due
is_retry_due_lem d at = ground arith

-- The deliveries that are due at a time.
abbrev pub due : Time → List WebhookDelivery → List WebhookDelivery
due at [] = []
due at (delivery ∷ rest) =
    let later = due at rest in if is_due delivery at then delivery ∷ later else later

-- What replaying deliveries one after the other gives, and the state that it leaves.
abbrev pub replays :
    {S : Type 0}
    → (String → Exec S DeliveryResult)
    → List WebhookDelivery
    → S
    → List (Result DeliveryResult) × S
replays replay [] s = ([], s)
replays replay (delivery ∷ rest) s =
    let (results, s') = replays replay rest (replay delivery.id s).1 in
    ((replay delivery.id s).0 ∷ results, s')

-- The deliveries of the replays that returned, and the number of the others.
abbrev pub delivered : List (Result DeliveryResult) → List WebhookDelivery
delivered [] = []
delivered (ok replayed ∷ rest) = replayed.delivery ∷ delivered rest
delivered (err e ∷ rest) = delivered rest

abbrev pub failures : List (Result DeliveryResult) → ℕ
failures [] = 0
failures (ok replayed ∷ rest) = failures rest
failures (err e ∷ rest) = suc (failures rest)

-- What a sweep adds to a result: `n` deliveries were looked at, and the due ones were replayed.
pub record Accounts (n : ℕ) (results : List (Result DeliveryResult)) (r r' : RetrySweepResult)
    : Type 0 where
  pub attempted : r'.attempted ≡ r.attempted + length results
  pub succeeded : r'.succeeded ≡ r.succeeded + length (delivered results)
  pub failed : r'.failed ≡ r.failed + failures results
  pub skipped : r'.skipped + length results ≡ r.skipped + n
  pub returned : r'.deliveries ≡ r.deliveries ++ delivered results

skip-Accounts :
    (n : ℕ) (results : List (Result DeliveryResult)) (r r' : RetrySweepResult)
    → Accounts n results (skip r) r'
    → Accounts (suc n) results r r'
skip-Accounts n results r r' a = record {
  attempted = a.attempted;
  succeeded = a.succeeded;
  failed = a.failed;
  skipped = omega (arith, a.skipped);
  returned = a.returned;
}

append_assoc : {A : Type 0} (k l m : List A) → (k ++ l) ++ m ≡ k ++ (l ++ m)
append_assoc [] l m = refl
append_assoc (x ∷ k) l m = ap (λ t. x ∷ t) (append_assoc k l m)

append_nil : {A : Type 0} (l : List A) → l ≡ l ++ []
append_nil [] = refl
append_nil (a ∷ l) = ap (λ t. a ∷ t) (append_nil l)

tally-Accounts :
    (o : Result DeliveryResult) (n : ℕ) (results : List (Result DeliveryResult))
    (r r' : RetrySweepResult)
    → Accounts n results (tally o r) r'
    → Accounts (suc n) (o ∷ results) r r'
tally-Accounts (err e) n results r r' a = record {
  attempted = omega (arith, a.attempted);
  succeeded = a.succeeded;
  failed = omega (arith, a.failed);
  skipped = omega (arith, a.skipped);
  returned = a.returned;
}
tally-Accounts (ok d) n results r r' a = record {
  attempted = omega (arith, a.attempted);
  succeeded = omega (arith, a.succeeded);
  failed = a.failed;
  skipped = omega (arith, a.skipped);
  returned = a.returned ∙ append_assoc r.deliveries (d.delivery ∷ []) (delivered results);
}

due_none :
    (at : Time) (d : WebhookDelivery) (l : List WebhookDelivery)
    → due at (d ∷ l) ≡ []
    → (is_due d at ≡ false) × (due at l ≡ [])
due_none at d l h = elim (Bool-cases (is_due d at)) [
  | inl e ↦ let k : d ∷ due at l ≡ [] = rw e at h in absurd (cc)
  | inr e ↦ (e, rw e at h)
]

module _ {S : Type 0} (replay : String → Exec S DeliveryResult) (at : Time) where
  -- Sweeping deliveries replays those that are due, each once and in their order, and nothing else: a
  -- delivery is due if it waits for a retry whose time is set and has come. Each replay counts as
  -- attempted; one that returned counts as succeeded and its delivery is returned, in the same order;
  -- one that failed counts as failed and ends nothing; every other delivery counts as skipped.
  pub sweep-Accounts :
      (l : List WebhookDelivery) (r : RetrySweepResult) (s : S)
      → Accounts (length l) (replays replay (due at l) s).0 r (sweep replay at l r s).0
        × ((sweep replay at l r s).1 ≡ (replays replay (due at l) s).1)
  unfolding sweep
  sweep-Accounts [] r s = (
    record {
      attempted = omega arith;
      succeeded = omega arith;
      failed = omega arith;
      skipped = omega arith;
      returned = append_nil r.deliveries;
    },
    refl,
  )
  sweep-Accounts (d ∷ l) r s = elim (Bool-cases (is_retry_due d at)) [
    | inl e ↦
        let (a, same) = sweep-Accounts l (tally (replay d.id s).0 r) (replay d.id s).1 in
        rw (sweep, e, sym (is_retry_due_lem d at) ∙ e)
          (tally-Accounts (replay d.id s).0 (length l) _ r _ a, same)
    | inr e ↦
        let (a, same) = sweep-Accounts l (skip r) s in
        rw (sweep, e, sym (is_retry_due_lem d at) ∙ e) (skip-Accounts (length l) _ r _ a, same)
  ]

  -- A sweep that finds nothing due replays nothing: the state is as before.
  pub sweep_idle :
      (l : List WebhookDelivery) (r : RetrySweepResult) (s : S)
      → due at l ≡ []
      → (sweep replay at l r s).1 ≡ s
  unfolding sweep
  sweep_idle [] r s h = refl
  sweep_idle (d ∷ l) r s h =
      let (none_due, later) = due_none at d l h in
      rw (sweep, is_retry_due_lem d at ∙ none_due) (sweep_idle l (skip r) s later)
