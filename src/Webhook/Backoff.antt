-- ===== src/Webhook/Backoff.antt =====
-- The wait after a failed delivery.
use marginalis.Prelude.{ℕ, ◌-◌, ◌*◌, ◌^◌, ◌≡◌, ◌≤◌, min, arith, inl, inr, leb, Bool-cases}
use native.Mathlib.Nat.{pow-le-pow_right}
use marginalis.Webhook.Delivery.{
  webhook_backoff_ms, webhook_backoff_base_ms, webhook_backoff_max_ms,
}

two_pow_le : (a b : ℕ) → a ≤ b → 2 ^ a ≤ 2 ^ b
two_pow_le a b h = pow-le-pow_right (omega arith) h

-- The wait after so many failures is the base doubled for each failure after the first, at most the
-- maximum: neither the bound on the exponent nor the saturation of the product is ever noticed. The wait
-- never falls with more failures, and lies between the base and the maximum.
pub webhook_backoff_ms_lem :
    (n m : ℕ)
    → n ≤ m
    → (webhook_backoff_ms n ≡ min (webhook_backoff_base_ms * 2 ^ (n - 1)) webhook_backoff_max_ms)
      × (webhook_backoff_ms n ≤ webhook_backoff_ms m)
      × (webhook_backoff_base_ms ≤ webhook_backoff_ms n)
      × (webhook_backoff_ms n ≤ webhook_backoff_max_ms)
unfolding webhook_backoff_ms
webhook_backoff_ms_lem n m h =
    let top = two_pow_le (min (n - 1) 30) 30 (omega arith) in
    let more = two_pow_le (min (n - 1) 30) (min (m - 1) 30) (omega arith) in
    let top_m = two_pow_le (min (m - 1) 30) 30 (omega arith) in
    let least = two_pow_le 0 (min (n - 1) 30) (omega arith) in
    (formula, ground (arith, top, more, top_m), ground (arith, top, least), omega arith)
  where
    formula :
        min (min (5000 * 2 ^ min (n - 1) 30) 9223372036854775807) 3600000
        ≡ min (5000 * 2 ^ (n - 1)) 3600000
    formula = elim (Bool-cases (leb (n - 1) 30)) [
      | inl q ↦
          let same : min (n - 1) 30 ≡ n - 1 = ground arith in
          rw same (omega (arith, two_pow_le (n - 1) 30 (ground arith)))
      | inr q ↦
          let same : min (n - 1) 30 ≡ 30 = ground arith in
          rw same (omega (arith, two_pow_le 30 (n - 1) (ground arith)))
    ]
