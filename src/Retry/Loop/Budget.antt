-- ===== src/Retry/Loop/Budget.antt =====
-- crates/sovalune-model-runtime/src/retry.rs: the number of rounds of `retry_with_backoff!`.
use sovalune_core.Common.{
  ℕ, zero, suc, ◌+◌, ◌-◌, ◌^◌, ◌≤◌, ◌<◌, ◌≡◌, refl, Bool, true, false, not, ◌||◌, none, some, List,
  [], ◌∷◌, ◌++◌, length, length-append, returns, Result, ok, err, min, Bool-cases, Outcome-cases,
  Result-cases, inl, inr, arith,
}
use sovalune_core.Float.{Float}
use sovalune_core.Text.{Text, byte_len}
use sovalune_core.Text.Ascii.{IsAscii}
use sovalune_core.Text.Slices.{byte_len-ascii, slice_to-ascii}
use sovalune_core.Retry.{
  Duration, should_retry, extract_retry_after, RetryState, has_retries_left, increment,
}
use sovalune_core.Retry.Loop.{finished, out_of_fuel, logged_prefix, wait, loop}

pub logged_prefix-ascii :
    (logs : Bool) (n : ℕ) (t : Text) → IsAscii t → (s : Text) × (logged_prefix logs n t ≡ returns s)
unfolding logged_prefix
logged_prefix-ascii false n t h = ([], refl)
logged_prefix-ascii true n t h =
    let (s, e) = slice_to-ascii t (min n (byte_len t)) h (omega (arith, byte_len-ascii t h)) in
    (s, rw (e, logged_prefix))

-- `increment` uses up one of the retries left
pub increment-left :
    (fl : Float) (s : RetryState fl) (b : ℕ)
    → s.config.max_retries < 2 ^ 32
    → has_retries_left fl s ≡ true
    → ((increment fl s b).0.config ≡ s.config)
      × ((increment fl s b).0.config.max_retries - (increment fl s b).0.attempt + 1
          ≡ s.config.max_retries - s.attempt)
unfolding increment has_retries_left
increment-left fl s b small left = (refl, ground arith)

both_of_not : (a b : Bool) → (not a || not b) ≡ false → (a ≡ true) × (b ≡ true)
both_of_not a b h = ground arith

module _ (fl : Float) (lower : Text → Text) (logs : Bool) (bits : ℕ → ℕ) {A E : Type 0}
    (display : E → Text) (operation : ℕ → Result A E) where
  -- Where the loop answers, the answer is that of the last call, and the loop slept once before
  -- each later call.
  pub loop_answer :
      (f : ℕ) (s : RetryState fl) (n : ℕ) (slept : List Duration) (r : Result A E) (calls : ℕ)
      (delays : List Duration)
      → loop fl lower logs bits display operation f s n slept ≡ finished r calls delays
      → (m : ℕ) × (calls ≡ suc m)
        × (n ≤ m)
        × (operation m ≡ r)
        × (length delays + n ≡ length slept + m)
  unfolding loop
  loop_answer zero s n slept r calls delays h = cc
  loop_answer (suc f) s n slept r calls delays h = elim (Result-cases (operation n)) [
    | inl (a, e) ↦ (n, ground arith, ground arith, ground arith, ground arith)
    | inr (x, e) ↦
        elim (Bool-cases (not (has_retries_left fl s) || not (should_retry lower (display x)))) [
          | inl stop ↦ (n, ground arith, ground arith, ground arith, ground arith)
          | inr more ↦
              elim (Outcome-cases (wait fl lower logs bits display operation s n (display x))) [
                | inl fault ↦ absurd (ground arith)
                | inr ((s', delay), again) ↦
                    let (m, c, le, answer, count) =
                      loop_answer f s' (suc n) (slept ++ delay ∷ []) r calls delays
                        (ground arith) in
                    (m, c, omega arith, answer, omega (arith, length-append slept (delay ∷ [])))
              ]
        ]
  ]

  -- a call that fails without asking for a delay uses up one retry
  wait-increment :
      (s : RetryState fl) (n : ℕ) (t u : Text)
      → logged_prefix logs 100 t ≡ returns u
      → extract_retry_after lower t ≡ returns none
      → wait fl lower logs bits display operation s n t ≡ returns (increment fl s (bits n))
  unfolding wait
  wait-increment s n t u e quiet = rw (quiet, e, wait)

  wait-header :
      (s : RetryState fl) (n : ℕ) (t : Text) (d : Duration)
      → IsAscii t
      → extract_retry_after lower t ≡ returns (some d)
      → wait fl lower logs bits display operation s n t ≡ returns (s, d)
  unfolding wait
  wait-header s n t d a asks = let (u, e) = logged_prefix-ascii logs 100 t a in rw (asks, e, wait)

  module _
      (quiet : (n : ℕ) (e : E)
        → operation n ≡ err e
        → extract_retry_after lower (display e) ≡ returns none) where
    -- as `loop_ends`, where the texts can be logged
    pub loop_ends_logged :
        ((n : ℕ) (e : E)
          → operation n ≡ err e
          → (u : Text) × (logged_prefix logs 100 (display e) ≡ returns u))
        → (f : ℕ) (s : RetryState fl) (n : ℕ) (slept : List Duration)
        → s.config.max_retries < 2 ^ 32
        → s.config.max_retries - s.attempt < f
        → (r : Result A E) × (calls : ℕ) × (delays : List Duration) × (loop fl lower logs bits
              display operation f s n slept
            ≡ finished r calls delays)
          × (calls ≤ suc n + (s.config.max_retries - s.attempt))
    unfolding loop
    loop_ends_logged logged zero s n slept small h = absurd (omega arith)
    loop_ends_logged logged (suc f) s n slept small h = elim (Result-cases (operation n)) [
      | inl (a, e) ↦ (ok a, suc n, slept, ground arith, omega arith)
      | inr (x, e) ↦
          elim (Bool-cases (not (has_retries_left fl s) || not (should_retry lower (display x)))) [
            | inl stop ↦ (err x, suc n, slept, ground arith, omega arith)
            | inr more ↦
                let (u, prefix) = logged n x e in
                let again = wait-increment s n (display x) u prefix (quiet n x e) in
                let s' = (increment fl s (bits n)).0 in
                let delay = (increment fl s (bits n)).1 in
                let (_, left) = increment-left fl s (bits n) small (both_of_not _ _ more).0 in
                let (r, calls, delays, run, le) =
                  loop_ends_logged logged f s' (suc n) (slept ++ delay ∷ [])
                    (unfold increment in small) (omega arith) in
                (r, calls, delays, ground arith, omega arith)
          ]
    ]

    -- Where the error texts are ASCII and none of them asks for a delay, and the limit is below
    -- 2^32, fuel above the number of retries left is enough: the loop ends, after at most one call
    -- more than the retries left.
    pub loop_ends :
        (f : ℕ) (s : RetryState fl) (n : ℕ) (slept : List Duration)
        → ((n : ℕ) (e : E) → operation n ≡ err e → IsAscii (display e))
        → s.config.max_retries < 2 ^ 32
        → s.config.max_retries - s.attempt < f
        → (r : Result A E) × (calls : ℕ) × (delays : List Duration) × (loop fl lower logs bits
              display operation f s n slept
            ≡ finished r calls delays)
          × (calls ≤ suc n + (s.config.max_retries - s.attempt))
    loop_ends f s n slept ascii =
        loop_ends_logged (λ k e h. logged_prefix-ascii logs 100 (display e) (ascii k e h)) f s n
          slept

  module _
      (failing : (n : ℕ)
        → (e : E) × (operation n ≡ err e)
          × IsAscii (display e)
          × (should_retry lower (display e) ≡ true)
          × ((d : Duration) × (extract_retry_after lower (display e) ≡ returns (some d)))) where
    -- Where every call fails with an error that is retried and asks for a delay, in an ASCII text,
    -- the loop never ends, as long as one retry is allowed: such an error uses up none of the
    -- retries.
    pub loop_never_ends :
        (f : ℕ) (s : RetryState fl) (n : ℕ) (slept : List Duration)
        → has_retries_left fl s ≡ true
        → loop fl lower logs bits display operation f s n slept ≡ out_of_fuel
    unfolding loop
    loop_never_ends zero s n slept left = refl
    loop_never_ends (suc f) s n slept left =
        let (x, e, ascii, retried, (d, asks)) = failing n in
        ground (
          arith,
          wait-header s n (display x) d ascii asks,
          loop_never_ends f s (suc n) (slept ++ d ∷ []) left,
        )
