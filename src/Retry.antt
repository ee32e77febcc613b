-- ===== src/Retry.antt =====
-- crates/sovalune-model-runtime/src/retry.rs: the configuration and the state of a row of attempts,
-- which errors are retried, and the delay that an error text asks for.
-- Durations are in milliseconds. `to_lowercase` follows the tables of Unicode and is a parameter.
pub mod Policy
pub mod Positions
pub mod Delay
pub mod Loop
use sovalune_core.Common.{
  ℕ, ◌+◌, ◌-◌, ◌*◌, ◌%◌, ◌^◌, Bool, true, false, ◌&&◌, ◌||◌, Option, none, some, Outcome, returns,
  panics, ltb, if◌then◌else◌,
}
use sovalune_core.Float.{Float}
use sovalune_core.Text.{Text, codes, contains, find, slice_from, first_word}
use sovalune_core.Text.Decimal.{parse_u64}

abbrev pub Duration : Type 0
Duration = ℕ

-- the number of seconds at the head of `rest`
seconds_of : Text → Option Duration
seconds_of rest = elim (first_word rest) [
  | none ↦ none
  | some seconds_str ↦ elim (parse_u64 seconds_str) [
    | none ↦ none
    | some seconds ↦ some (seconds * 1000)
  ]
]

module _ (to_lowercase : Text → Text) where
  -- which errors are worth another attempt
  unfoldable pub should_retry : Text → Bool
  should_retry error =
      let lower = to_lowercase error in
      if contains lower (codes "rate") && contains lower (codes "limit")
      then true
      else if contains lower (codes "429")
      then true
      else if contains lower (codes "timeout")
      then true
      else if contains lower (codes "500")
          || contains lower (codes "502")
          || contains lower (codes "503")
          || contains lower (codes "504")
      then true
      else if contains lower (codes "connection") && contains lower (codes "reset")
      then true
      else contains lower (codes "eof")

  -- one of the two searches: the position is found in `lower` and sliced out of `error`
  unfoldable pub search_after : Text → ℕ → Text → Outcome (Option Duration)
  unfolding seconds_of
  search_after error skip pattern' = elim (find (to_lowercase error) pattern') [
    | none ↦ returns none
    | some pos ↦ elim (slice_from error (pos + skip)) [
      | none ↦ panics
      | some rest ↦ returns (seconds_of rest)
    ]
  ]

  -- the second search runs only if the first finds no number
  unfoldable pub extract_retry_after : Text → Outcome (Option Duration)
  extract_retry_after error = elim (search_after error 11 (codes "retry after")) [
    | panics ↦ panics
    | returns (some d) ↦ returns (some d)
    | returns none ↦ search_after error 12 (codes "retry-after:")
  ]

module _ (fl : Float) where
  open fl use {F, of_ℕ, ratio, add, sub, mul, div, minf, maxf, powi, to_u64}

  pub record RetryConfig : Type 0 where
    pub max_retries : ℕ
    pub base_delay_ms : ℕ
    pub max_delay_ms : ℕ
    pub multiplier : F
    pub jitter : F

  unfoldable pub default : RetryConfig
  default = record {
    max_retries = 3;
    base_delay_ms = 1000;
    max_delay_ms = 60000;
    multiplier = of_ℕ 2;
    jitter = ratio 2 10;
  }

  unfoldable pub for_rate_limit : RetryConfig
  for_rate_limit = record {
    max_retries = 5;
    base_delay_ms = 2000;
    max_delay_ms = 120000;
    multiplier = of_ℕ 2;
    jitter = ratio 3 10;
  }

  unfoldable pub for_timeout : RetryConfig
  for_timeout = record {
    max_retries = 2;
    base_delay_ms = 500;
    max_delay_ms = 5000;
    multiplier = of_ℕ 2;
    jitter = ratio 1 10;
  }

  unfoldable pub for_server_error : RetryConfig
  for_server_error = record {
    max_retries = 3;
    base_delay_ms = 1000;
    max_delay_ms = 30000;
    multiplier = of_ℕ 2;
    jitter = ratio 2 10;
  }

  -- the hasher's output over its largest value
  unfoldable pub rand : ℕ → F
  rand bits = div (of_ℕ bits) (of_ℕ (2 ^ 64 - 1))

  unfoldable pub delay_for_attempt : RetryConfig → ℕ → ℕ → Duration
  unfolding rand
  delay_for_attempt c attempt bits =
      let base = mul (of_ℕ c.base_delay_ms) (powi c.multiplier attempt) in
      let capped = minf base (of_ℕ c.max_delay_ms) in
      let jitter_range = mul capped c.jitter in
      let jitter = mul (sub (mul (rand bits) (of_ℕ 2)) (of_ℕ 1)) jitter_range in
      to_u64 (maxf (add capped jitter) (of_ℕ 0))

  pub record RetryState : Type 0 where
    pub config : RetryConfig
    pub attempt : ℕ

  unfoldable pub new : RetryConfig → RetryState
  new config = record { config = config; attempt = 0 }

  unfoldable pub with_default : RetryState
  unfolding new default
  with_default = new default

  unfoldable pub has_retries_left : RetryState → Bool
  has_retries_left s = ltb s.attempt s.config.max_retries

  unfoldable pub next_delay : RetryState → ℕ → Duration
  next_delay s bits = delay_for_attempt s.config s.attempt bits

  -- the counter is a `u32`
  unfoldable pub increment : RetryState → ℕ → RetryState × Duration
  unfolding next_delay
  increment s bits = (record s { attempt = (s.attempt + 1) % 2 ^ 32 }, next_delay s bits)

  unfoldable pub reset : RetryState → RetryState
  reset s = record s { attempt = 0 }
