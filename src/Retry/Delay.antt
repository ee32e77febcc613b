-- ===== src/Retry/Delay.antt =====
-- crates/sovalune-model-runtime/src/retry.rs: `delay_for_attempt`, for floats with monotone operations.
use sovalune_core.Common.{ℕ, ◌-◌, ◌^◌, ◌≤◌, ◌<◌, arith}
use sovalune_core.Float.{Float, FloatLaws}
use sovalune_core.Retry.{Duration, RetryConfig, delay_for_attempt, rand}

module _ (fl : Float) (laws : FloatLaws fl) where
  open fl use {F, of_ℕ, add, sub, mul, div, minf, maxf, powi, to_u64}
  open laws use {LeF}

  -- the largest delay: the cap and the jitter on it
  pub longest : RetryConfig fl → Duration
  longest c = let cap = of_ℕ c.max_delay_ms in to_u64 (maxf (add cap (mul cap c.jitter)) (of_ℕ 0))

  -- a factor of at most 1, of either sign, takes a value of at least 0 to at most that value
  scaled_le : (r x : F) → LeF r (of_ℕ 1) → LeF (of_ℕ 0) x → LeF (mul r x) x
  scaled_le r x le pos = laws.trans (laws.mul_mono pos le) (laws.one_mul x)

  centred_le :
      (bits : ℕ) → bits < 2 ^ 64 → LeF (sub (mul (rand fl bits) (of_ℕ 2)) (of_ℕ 1)) (of_ℕ 1)
  unfolding rand
  centred_le bits h =
      laws.trans
        (laws.sub_mono
          (laws.mul_mono (laws.of_ℕ_nonneg 2) (laws.div_le_one bits (2 ^ 64 - 1) (omega arith))))
        laws.centred

  -- For floats whose operations are monotone, a multiplier and a jitter of at least 0, and random
  -- bits below 2^64, the delay is at most the cap with the jitter on it, whatever the attempt.
  pub delay-le-longest :
      (c : RetryConfig fl) (attempt bits : ℕ)
      → LeF (of_ℕ 0) c.multiplier
      → LeF (of_ℕ 0) c.jitter
      → bits < 2 ^ 64
      → delay_for_attempt fl c attempt bits ≤ longest c
  unfolding delay_for_attempt longest
  delay-le-longest c attempt bits pos jpos h =
      let base = mul (of_ℕ c.base_delay_ms) (powi c.multiplier attempt) in
      let capped = minf base (of_ℕ c.max_delay_ms) in
      let capped_pos : LeF (of_ℕ 0) capped =
        laws.min_nonneg (laws.mul_nonneg (laws.of_ℕ_nonneg _) (laws.powi_nonneg attempt pos))
          (laws.of_ℕ_nonneg _) in
      let capped_le : LeF capped (of_ℕ c.max_delay_ms) = laws.min_right _ _ in
      laws.to_u64_mono (
        laws.max_mono (
          laws.add_mono capped_le (
            laws.trans (scaled_le _ _ (centred_le bits h) (laws.mul_nonneg capped_pos jpos))
              (laws.mul_mono jpos capped_le))))
