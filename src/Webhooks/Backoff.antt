-- ===== src/Webhooks/Backoff.antt =====
-- `defaultBackoff` of internal/webhooks/recorder.go is exact as long as an int64 can hold it.
use native.Mathlib.Nat.{pow-suc, one-le-pow, pow-le-pow_right, le_trans}
use agent_layer.Prelude.{
  ℕ, zero, suc, ltb, true, false, ◌+◌, ◌-◌, ◌*◌, ◌^◌, ◌≤◌, ◌≡◌, ◌∙◌, refl, ap, arith,
}
use agent_layer.Prelude.Int.{ℤ, pos, negsuc, pos_part, ◌+ℤ◌, ◌≤ℤ◌, wrap64-pos, max_int64}
use agent_layer.Webhooks.Attempts.{doubled, minute, default_backoff}

double : (d : ℕ) → pos d +ℤ pos d ≡ pos (d + d)
unfolding ◌+ℤ◌
double d = ground arith

le_times_pow : (n k : ℕ) → n ≤ n * 2 ^ k
le_times_pow n k = let one : 1 ≤ 2 ^ k = one-le-pow k 2 (omega arith) in grind arith

-- Doubling `k` times, while the result fits an int64.
doubled-pos : (k d : ℕ) → d * 2 ^ k ≤ max_int64 → doubled k (pos d) ≡ pos (d * 2 ^ k)
unfolding doubled
doubled-pos zero d h = ap pos (omega arith)
doubled-pos (suc k) d h =
    let eq : (d + d) * 2 ^ k ≡ d * 2 ^ suc k = grind (arith, pow-suc 2 k) in
    let fits : (d + d) * 2 ^ k ≤ max_int64 = rw eq h in
    let small : d + d ≤ max_int64 = le_trans (le_times_pow (d + d) k) fits in
    rw (double d, wrap64-pos (d + d) small) (doubled-pos k (d + d) fits ∙ ap pos eq)

at_least_one : (n : ℕ) → ltb (suc n + 0) 1 ≡ false
at_least_one n = ground arith

below_one : (n : ℕ) → ltb 0 (1 + suc n) ≡ true
below_one n = ground arith

pred_suc : (n : ℕ) → suc n - 1 ≡ n
pred_suc n = omega arith

backoff-pos : (n : ℕ) → n ≤ 28 → default_backoff (pos n) ≡ pos (minute * 2 ^ (n - 1))
unfolding default_backoff
backoff-pos zero h = unfold doubled in refl
backoff-pos (suc n) h =
    let small : 2 ^ n ≤ 2 ^ 27 =
      pow-le-pow_right {n = 2} (omega arith) {i = n} {j = 27} (omega arith) in
    let bound : minute * 2 ^ n ≤ max_int64 = omega (arith, small) in
    rw (at_least_one n, pred_suc n) (doubled-pos n minute bound)

-- Up to attempt 28 the delay is a minute, doubled for each attempt after the first; an attempt
-- number below one counts as one. (From attempt 29 on the product passes an int64.)
pub default_backoff_lem :
    (attempt : ℤ)
    → attempt ≤ℤ pos 28
    → default_backoff attempt ≡ pos (minute * 2 ^ (pos_part attempt - 1))
default_backoff_lem (pos n) h = backoff-pos n (omega (arith, h))
default_backoff_lem (negsuc n) h = unfold default_backoff doubled in rw (below_one n) refl
