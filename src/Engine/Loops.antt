-- ===== src/Engine/Loops.antt =====
-- crates/sovalune-model-runtime/src/engine.rs: the retry loops of `stream_infer` and `infer` beside the
-- macro `retry_with_backoff!` of retry.rs.
use sovalune_core.Common.{
  ℕ, zero, suc, ◌-◌, ◌≡◌, refl, ◌∙◌, Bool, true, false, not, ◌||◌, none, some, List, [], ◌∷◌, ◌++◌,
  returns, panics, Result, ok, err, Bool-cases, Outcome-cases, Result-cases, inl, inr, arith,
}
use sovalune_core.Float.{Float}
use sovalune_core.Text.{Text}
use sovalune_core.Types.{InferenceRequest, InferenceResult, InferenceError, display}
use sovalune_core.Retry.{Duration, should_retry, RetryState, has_retries_left}
use sovalune_core.Retry.Loop.{Run, finished, panicked, out_of_fuel, logged_prefix, wait, loop}
use sovalune_core.Engine.{InferenceEngine}
use sovalune_core.Engine.Stream.{delay_after, stream_wait, stream_loop}
use sovalune_core.Engine.Infer.{collect, retry_or_return, result_of, infer_loop}

module _ (fl : Float) (lower : Text → Text) (bits elapsed : ℕ → ℕ) (engine : InferenceEngine fl)
    (request : InferenceRequest fl) where
  module _ (logs : Bool) where
    stream_wait-eq :
        (s : RetryState fl) (n : ℕ) (t : Text)
        → stream_wait fl lower logs bits s n t
          ≡ wait fl lower logs bits display (λ k. engine.backend.stream_inference k request) s n t
    unfolding stream_wait wait
    stream_wait-eq s n t = ground arith

    -- The loop of `stream_infer` is that of the macro, round for round: with the same fuel both
    -- answer the same, after as many calls and the same delays, or both panic or go on.
    pub stream_loop-loop :
        (f : ℕ) (s : RetryState fl) (n : ℕ) (slept : List Duration)
        → stream_loop fl lower logs bits engine request f s n slept
          ≡ loop fl lower logs bits display
              (λ k. engine.backend.stream_inference k request)
              f
              s
              n
              slept
    unfolding stream_loop loop
    stream_loop-loop zero s n slept = refl
    stream_loop-loop (suc f) s n slept =
        elim (Result-cases (engine.backend.stream_inference n request)) [
          | inl (a, e) ↦ ground arith
          | inr (x, e) ↦
              elim (Bool-cases
                (not (has_retries_left fl s) || not (should_retry lower (display x)))) [
                  | inl stop ↦ ground arith
                  | inr more ↦
                      elim (Outcome-cases (stream_wait fl lower logs bits s n (display x))) [
                        | inl fault ↦ ground (arith, stream_wait-eq s n (display x))
                        | inr ((s', delay), again) ↦ ground (
                          arith,
                          stream_wait-eq s n (display x),
                          stream_loop-loop f s' (suc n) (slept ++ delay ∷ []),
                        )
                      ]
                ]
        ]

  -- one call of the backend, with the reading of its stream
  unfoldable pub attempt : ℕ → Result (Text × ℕ) InferenceError
  attempt n = elim (engine.backend.stream_inference n request) [
    | ok stream ↦ collect stream [] 0
    | err e ↦ err e
  ]

  -- the run of the macro over the attempts, with the results as `infer` returns them
  unfoldable pub answered : Run (Text × ℕ) InferenceError → Run InferenceResult InferenceError
  answered (finished (ok collected) calls delays) =
      finished (ok (result_of fl lower bits elapsed engine request (calls - 1) collected)) calls
        delays
  answered (finished (err e) calls delays) = finished (err e) calls delays
  answered (panicked calls) = panicked calls
  answered out_of_fuel = out_of_fuel

  wait-delay_after :
      (s : RetryState fl) (n : ℕ) (t : Text)
      → wait fl lower false bits display attempt s n t ≡ delay_after fl lower bits s n t
  unfolding wait delay_after logged_prefix
  wait-delay_after s n t = ground arith

  retry_or_return_stop :
      (s : RetryState fl) (n : ℕ) (x : InferenceError)
      → (not (has_retries_left fl s) || not (should_retry lower (display x))) ≡ true
      → retry_or_return fl lower bits elapsed engine request s n x ≡ returns none
  unfolding retry_or_return
  retry_or_return_stop s n x h = ground arith

  module _ (s : RetryState fl) (n : ℕ) (x : InferenceError)
      (more : (not (has_retries_left fl s) || not (should_retry lower (display x))) ≡ false) where
    retry_or_return_panics :
        delay_after fl lower bits s n (display x) ≡ panics
        → retry_or_return fl lower bits elapsed engine request s n x ≡ panics
    unfolding retry_or_return
    retry_or_return_panics h = ground arith

    retry_or_return_again :
        (next : RetryState fl × Duration)
        → delay_after fl lower bits s n (display x) ≡ returns next
        → retry_or_return fl lower bits elapsed engine request s n x ≡ returns (some next)
    unfolding retry_or_return
    retry_or_return_again next h = ground arith

  -- one round of the loop of `infer`, by what its attempt comes to
  infer_loop_ok :
      (f : ℕ) (s : RetryState fl) (n : ℕ) (slept : List Duration) (c : Text × ℕ)
      → attempt n ≡ ok c
      → infer_loop fl lower bits elapsed engine request (suc f) s n slept
        ≡ finished (ok (result_of fl lower bits elapsed engine request n c)) (suc n) slept
  unfolding infer_loop attempt
  infer_loop_ok f s n slept c h = ground arith

  infer_loop_err :
      (f : ℕ) (s : RetryState fl) (n : ℕ) (slept : List Duration) (x : InferenceError)
      → attempt n ≡ err x
      → infer_loop fl lower bits elapsed engine request (suc f) s n slept
        ≡ (elim (retry_or_return fl lower bits elapsed engine request s n x)
            as (λ _. Run InferenceResult InferenceError) [
              | panics ↦ panicked (suc n)
              | returns none ↦ finished (err x) (suc n) slept
              | returns (some next) ↦
                  infer_loop fl lower bits elapsed engine request f next.0
                    (suc n)
                    (slept ++ next.1 ∷ [])
            ])
  unfolding infer_loop attempt
  infer_loop_err f s n slept x h = elim (Result-cases (engine.backend.stream_inference n request)) [
    | inl (stream, e) ↦ ground arith
    | inr (y, e) ↦ ground arith
  ]

  -- The loop of `infer` is that of the macro over the attempts, an attempt being a call of the
  -- backend and the reading of its stream: with the same fuel it answers the same, after as many
  -- calls and the same delays, or panics or goes on with it. Its `warn!` prints no head of a text.
  pub infer_loop-loop :
      (f : ℕ) (s : RetryState fl) (n : ℕ) (slept : List Duration)
      → infer_loop fl lower bits elapsed engine request f s n slept
        ≡ answered (loop fl lower false bits display attempt f s n slept)
  unfolding infer_loop loop answered
  infer_loop-loop zero s n slept = refl
  infer_loop-loop (suc f) s n slept = elim (Result-cases (attempt n)) [
    | inl (c, e) ↦ ground (arith, infer_loop_ok f s n slept c)
    | inr (x, e) ↦
        elim (Bool-cases (not (has_retries_left fl s) || not (should_retry lower (display x)))) [
          | inl stop ↦
              infer_loop_err f s n slept x e ∙ rw (retry_or_return_stop s n x stop) (ground arith)
          | inr more ↦ elim (Outcome-cases (delay_after fl lower bits s n (display x))) [
            | inl fault ↦
                infer_loop_err f s n slept x e
                ∙ rw (retry_or_return_panics s n x more fault)
                    (ground (arith, wait-delay_after s n (display x)))
            | inr ((s', delay), again) ↦
                infer_loop_err f s n slept x e
                ∙ rw (retry_or_return_again s n x more (s', delay) again) (
                    ground (
                      arith,
                      wait-delay_after s n (display x),
                      infer_loop-loop f s' (suc n) (slept ++ delay ∷ []),
                    ))
          ]
        ]
  ]
