-- ===== src/Engine/Stream.antt =====
-- crates/sovalune-model-runtime/src/engine.rs: `stream_infer`. The loop is on fuel, as that of the
-- macro in retry.rs. `bits` is the hasher's output at each call of `rand`, `logs` says whether a
-- `warn!` evaluates its arguments, `fresh` makes the message identifiers.
use sovalune_core.Common.{
  ℕ, zero, suc, ◌+◌, Bool, true, false, not, ◌||◌, none, some, List, [], ◌∷◌, ◌++◌, Outcome,
  returns, panics, ok, err, if◌then◌else◌,
}
use sovalune_core.Float.{Float}
use sovalune_core.Text.{Text, codes}
use sovalune_core.Types.{InferenceRequest, InferenceError, backend_unavailable, display}
use sovalune_core.Retry.{
  Duration, should_retry, extract_retry_after, RetryState, new, default, has_retries_left,
  increment,
}
use sovalune_core.Retry.Loop.{Run, finished, panicked, out_of_fuel, logged_prefix}
use sovalune_core.Backend.{TokenStream}
use sovalune_core.Engine.{InferenceEngine}

-- the stream that the caller reads: the event that ends it carries a new message's identifier
unfoldable pub wrapped_stream : (ℕ → Text) → ℕ → ℕ → TokenStream → TokenStream
wrapped_stream fresh id k [] = []
wrapped_stream fresh id k (err e ∷ events) = err e ∷ wrapped_stream fresh id k events
wrapped_stream fresh id k (ok token ∷ events) = elim (token.finished) [
  | true ↦
      ok (record { request_id = id; delta = []; finished = true; message_id = some (fresh k) })
      ∷ wrapped_stream fresh id (k + 1) events
  | false ↦ ok token ∷ wrapped_stream fresh id k events
]

-- the state after the delay is known, and the delay
unfoldable pub delay_after :
    (fl : Float)
    → (Text → Text)
    → (ℕ → ℕ)
    → RetryState fl
    → ℕ
    → Text
    → Outcome (RetryState fl × Duration)
delay_after fl to_lowercase bits s n error_str = elim (extract_retry_after to_lowercase error_str) [
  | panics ↦ panics
  | returns (some d) ↦ returns (s, d)
  | returns none ↦ returns (increment fl s (bits n))
]

module _ (fl : Float) (to_lowercase : Text → Text) (logs : Bool) (bits : ℕ → ℕ) where
  -- the `warn!` that follows prints the head of the error's text
  unfoldable pub warned : RetryState fl × Duration → Text → Outcome (RetryState fl × Duration)
  warned next error_str = elim (logged_prefix logs 100 error_str) [
    | panics ↦ panics
    | returns _ ↦ returns next
  ]

  unfoldable pub stream_wait : RetryState fl → ℕ → Text → Outcome (RetryState fl × Duration)
  unfolding delay_after warned
  stream_wait s n error_str = elim (delay_after fl to_lowercase bits s n error_str) [
    | panics ↦ panics
    | returns next ↦ warned next error_str
  ]

  module _ (engine : InferenceEngine fl) (request : InferenceRequest fl) where
    unfoldable pub stream_loop :
        ℕ → RetryState fl → ℕ → List Duration → Run TokenStream InferenceError
    unfolding stream_wait
    stream_loop zero s n slept = out_of_fuel
    stream_loop (suc f) s n slept = elim (engine.backend.stream_inference n request) [
      | ok stream ↦ finished (ok stream) (suc n) slept
      | err e ↦ elim (not (has_retries_left fl s) || not (should_retry to_lowercase (display e))) [
        | true ↦ finished (err e) (suc n) slept
        | false ↦ elim (stream_wait s n (display e)) [
          | panics ↦ panicked (suc n)
          | returns (s', delay) ↦ stream_loop f s' (suc n) (slept ++ delay ∷ [])
        ]
      ]
    ]

    -- the stream that the loop got, wrapped
    unfoldable pub wrap_run :
        (ℕ → Text) → Run TokenStream InferenceError → Run TokenStream InferenceError
    unfolding wrapped_stream
    wrap_run fresh (finished (ok stream) calls delays) =
        finished (ok (wrapped_stream fresh request.id 0 stream)) calls delays
    wrap_run fresh (finished (err e) calls delays) = finished (err e) calls delays
    wrap_run fresh (panicked calls) = panicked calls
    wrap_run fresh out_of_fuel = out_of_fuel

    unfoldable pub stream_infer : (ℕ → Text) → ℕ → Run TokenStream InferenceError
    unfolding stream_loop wrap_run new default
    stream_infer fresh f =
        if not engine.backend.health_check
        then finished (err (backend_unavailable (codes "Backend health check failed"))) 0 []
        else wrap_run fresh (stream_loop f (new fl (default fl)) 0 [])
