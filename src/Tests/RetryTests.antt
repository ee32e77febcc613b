-- ===== src/Tests/RetryTests.antt =====
-- The retry policy at concrete inputs, with numbers of three decimals in the place of floats.
use sovalune_core.Common.{
  ℕ, ◌≤◌, ◌≡◌, refl, true, none, some, List, [], ◌∷◌, map, ltb, returns, Result, ok, err,
  if◌then◌else◌, ◌==◌, Bool-cases, inl, inr, arith,
}
use sovalune_core.Tests.Thousandths.{thousandths}
use sovalune_core.Text.{Text, codes, find, byte_len}
use sovalune_core.Text.Ascii.{ascii_lower, LowercaseLaws}
use sovalune_core.Retry.{
  Duration, RetryConfig, RetryState, default, new, should_retry, extract_retry_after,
  has_retries_left, delay_for_attempt,
}
use sovalune_core.Retry.Loop.{finished, out_of_fuel, loop}
use sovalune_core.Retry.Loop.Budget.{loop_ends, loop_never_ends}

abbrev lower : Text → Text
lower t = map ascii_lower t

lower_laws : LowercaseLaws lower
lower_laws = record { ascii = λ t h. refl }

-- two calls time out, the third answers
abbrev flaky : ℕ → Result ℕ Text
flaky n = if ltb n 2 then err (codes "timeout") else ok n

-- every call is told to wait for two seconds
abbrev limited : ℕ → Result ℕ Text
limited n = err (codes "429 retry after 2 s")

abbrev state : RetryState thousandths
state = record { config = default thousandths; attempt = 0 }

asked : extract_retry_after lower (codes "429 retry after 2 s") ≡ returns (some 2000)
unfolding extract_retry_after sovalune_core.Retry.search_after find ascii_lower
    sovalune_core.Text.slice_from sovalune_core.Text.first_word sovalune_core.Text.take_word
    sovalune_core.Text.skip_whitespace sovalune_core.Text.is_whitespace
    sovalune_core.Text.Decimal.parse_u64
asked = refl

-- the capital I with a dot becomes an i and a combining dot
abbrev dotted_lower : Text → Text
dotted_lower [] = []
dotted_lower (c ∷ t) =
    let rest = dotted_lower t in if c == 304 then 105 ∷ 775 ∷ rest else ascii_lower c ∷ rest

flaky_err : (n : ℕ) (e : Text) → flaky n ≡ err e → e ≡ codes "timeout"
flaky_err n e h = elim (Bool-cases (ltb n 2)) [ inl k ↦ ground arith | inr k ↦ ground arith ]

quiet_timeout : extract_retry_after lower (codes "timeout") ≡ returns none
unfolding extract_retry_after sovalune_core.Retry.search_after find ascii_lower
quiet_timeout = refl

loop_ends_example :
    (r : Result ℕ Text) × (calls : ℕ) × (delays : List Duration) × (loop thousandths lower true
        (λ n. n)
        (λ t. t)
        flaky
        4
        state
        0
        []
      ≡ finished r calls delays)
    × (calls ≤ 4)
unfolding default
loop_ends_example =
    loop_ends thousandths lower true (λ n. n) (λ t. t) flaky
      (λ n e h. rw (flaky_err n e h) quiet_timeout) 4 state 0 []
      (λ n e h. rw (flaky_err n e h) (omega arith)) (unfold default in omega arith)
      (unfold default in omega arith)

limited_retried : should_retry lower (codes "429 retry after 2 s") ≡ true
unfolding should_retry sovalune_core.Text.contains ascii_lower
limited_retried = refl

loop_never_ends_example :
    loop thousandths lower true (λ n. n) (λ t. t) limited 1000 state 0 [] ≡ out_of_fuel
loop_never_ends_example =
    loop_never_ends thousandths lower true (λ n. n) (λ t. t) limited
      (λ n. (codes "429 retry after 2 s", refl, omega arith, limited_retried, (2000, asked))) 1000
      state 0 [] (unfold has_retries_left default in refl)

flaky_run :
    loop thousandths lower true (λ n. n) (λ t. t) flaky 4 state 0 []
    ≡ finished (ok 2) 3 (1000 ∷ 2000 ∷ [])
unfolding loop has_retries_left default should_retry sovalune_core.Text.contains ascii_lower
    extract_retry_after sovalune_core.Retry.search_after find sovalune_core.Text.slice_to byte_len
    sovalune_core.Retry.increment delay_for_attempt
flaky_run = refl
