-- ===== src/Retry/Loop.antt =====
-- crates/sovalune-model-runtime/src/retry.rs, the loop of `retry_with_backoff!`.
-- Call number `n` of the operation answers `operation n`. A `warn!` evaluates its arguments only if
-- its level is enabled, which `logs` says. The run keeps the number of calls and the delays slept.
pub mod Budget
use sovalune_core.Common.{
  ℕ, zero, suc, ◌+◌, Bool, true, false, not, ◌||◌, Option, none, some, List, [], ◌∷◌, ◌++◌, Outcome,
  returns, panics, Result, ok, err, leb, min, if◌then◌else◌,
}
use sovalune_core.Float.{Float}
use sovalune_core.Text.{Text, byte_len, slice_to}
use sovalune_core.Retry.{
  Duration, should_retry, extract_retry_after, RetryConfig, RetryState, new, has_retries_left,
  increment,
}

pub data Run (A E : Type 0) : Type 0 where
  finished : Result A E → ℕ → List Duration → Run A E
  panicked : ℕ → Run A E
  out_of_fuel : Run A E

-- `&error_str[..100.min(error_str.len())]`, evaluated only where the message is logged
unfoldable pub logged_prefix : Bool → ℕ → Text → Outcome Text
logged_prefix false n s = returns []
logged_prefix true n s = elim (slice_to s (min n (byte_len s))) [
  | none ↦ panics
  | some t ↦ returns t
]

module _ (fl : Float) (to_lowercase : Text → Text) (logs : Bool)
    -- the hasher's output at each call of `rand`
    (bits : ℕ → ℕ) {A E : Type 0} (display : E → Text) (operation : ℕ → Result A E) where
  -- what the error handler does before it goes round again: the new state and the delay slept
  unfoldable pub wait : RetryState fl → ℕ → Text → Outcome (RetryState fl × Duration)
  unfolding logged_prefix
  wait s n error_str = elim (extract_retry_after to_lowercase error_str) [
    | panics ↦ panics
    | returns (some retry_after) ↦ elim (logged_prefix logs 100 error_str) [
      | panics ↦ panics
      | returns _ ↦ returns (s, retry_after)
    ]
    | returns none ↦ elim (logged_prefix logs 100 error_str) [
      | panics ↦ panics
      | returns _ ↦ returns (increment fl s (bits n))
    ]
  ]

  unfoldable pub loop : ℕ → RetryState fl → ℕ → List Duration → Run A E
  unfolding wait
  loop zero s n slept = out_of_fuel
  loop (suc f) s n slept = elim (operation n) [
    | ok a ↦ finished (ok a) (suc n) slept
    | err e ↦ elim (not (has_retries_left fl s) || not (should_retry to_lowercase (display e))) [
      | true ↦ finished (err e) (suc n) slept
      | false ↦ elim (wait s n (display e)) [
        | panics ↦ panicked (suc n)
        | returns (s', delay) ↦ loop f s' (suc n) (slept ++ delay ∷ [])
      ]
    ]
  ]

  unfoldable pub retry_with_backoff : ℕ → RetryConfig fl → Run A E
  unfolding loop new
  retry_with_backoff f config = loop f (new fl config) 0 []
