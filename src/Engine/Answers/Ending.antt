-- ===== src/Engine/Answers/Ending.antt =====
-- crates/sovalune-model-runtime/src/engine.rs: the end of `infer`.
use sovalune_core.Common.{
  ℕ, suc, ◌+◌, ◌-◌, ◌^◌, ◌≤◌, ◌<◌, ◌≡◌, refl, ap, ◌∙◌, false, none, List, [], returns, Result, ok,
  err, Option-cases, inl, inr, arith,
}
use sovalune_core.Float.{Float}
use sovalune_core.HashMap.{HashMap}
use sovalune_core.Text.{Text}
use sovalune_core.Text.Equality.{text_discrete}
use sovalune_core.Types.{InferenceRequest, InferenceResult, InferenceError, display}
use sovalune_core.Retry.{Duration, extract_retry_after, new, default}
use sovalune_core.Retry.Loop.{Run, finished, logged_prefix}
use sovalune_core.Retry.Loop.Budget.{loop_ends_logged}
use sovalune_core.Cache.{CacheEntry, get}
use sovalune_core.Cache.Key.{Hashed}
use sovalune_core.Engine.{InferenceEngine}
use sovalune_core.Engine.Infer.{infer_loop, cache_key, infer, result_of, cached_result}
use sovalune_core.Engine.Loops.{attempt, answered, infer_loop-loop}
use sovalune_core.Engine.Answers.{infer_hit, infer_missed, store_answer_run}

module _ (fl : Float) where
  default_small : (new fl (default fl)).config.max_retries < 2 ^ 32
  unfolding new default
  default_small = omega arith

  default_left : (new fl (default fl)).config.max_retries - (new fl (default fl)).attempt < 4
  unfolding new default
  default_left = omega arith

  default_calls :
      (calls : ℕ)
      → calls ≤ suc 0 + ((new fl (default fl)).config.max_retries - (new fl (default fl)).attempt)
      → calls ≤ 4
  unfolding new default
  default_calls calls le = omega arith

  logged : (e : InferenceError) → logged_prefix false 100 (display e) ≡ returns []
  unfolding logged_prefix
  logged e = refl

module _ (fl : Float) (lower : Text → Text) (bits elapsed : ℕ → ℕ) (engine : InferenceEngine fl)
    (request : InferenceRequest fl) where
  open fl use {F}

  answered_ends :
      (run : Run (Text × ℕ) InferenceError) (r : Result (Text × ℕ) InferenceError) (calls : ℕ)
      (delays : List Duration)
      → run ≡ finished r calls delays
      → (q : Result InferenceResult InferenceError) × (answered fl lower bits elapsed engine request
            run
          ≡ finished q calls delays)
  unfolding answered
  answered_ends run (ok c) calls delays h =
      (ok (result_of fl lower bits elapsed engine request (calls - 1) c), rw h refl)
  answered_ends run (err e) calls delays h = (err e, rw h refl)

  module _ (order : HashMap Text (CacheEntry Text) → ℕ) (finish : List (Hashed F) → ℕ)
      (now later : ℕ) where
    -- Where none of the errors of the attempts asks for a delay, `infer` ends within four calls of the
    -- backend, whatever else happens, and fuel for four rounds is enough.
    pub infer_ends :
        ((n : ℕ) (e : InferenceError)
          → attempt fl lower bits elapsed engine request n ≡ err e
          → extract_retry_after lower (display e) ≡ returns none)
        → (r : Result InferenceResult InferenceError) × (calls : ℕ) × (delays : List Duration)
          × ((infer fl lower bits elapsed engine request order finish now later 4).1
              ≡ finished r calls delays)
          × (calls ≤ 4)
    infer_ends quiet =
        let key = cache_key fl lower bits elapsed engine request finish in
        let s = new fl (default fl) in
        let operation = attempt fl lower bits elapsed engine request in
        elim (Option-cases (get text_discrete now key engine.response_cache)) [
          | inr (cached, hit) ↦ (
            ok (cached_result fl lower bits elapsed engine request cached),
            0,
            [],
            ap (λ p. p.1)
                (infer_hit fl lower bits elapsed engine request order finish now later 4 cached
                  hit),
            omega arith,
          )
          | inl missed ↦
              let (r, calls, delays, run, le) =
                loop_ends_logged fl lower false bits display operation quiet
                  (λ n e h. ([], logged fl e)) 4 s 0 [] (default_small fl) (default_left fl) in
              let (q, ends) = answered_ends _ r calls delays run in
              (
                q,
                calls,
                delays,
                ap (λ p. p.1)
                      (infer_missed fl lower bits elapsed engine request order finish now later 4
                        missed)
                    ∙ store_answer_run fl lower bits elapsed engine request order finish now later
                        key (infer_loop fl lower bits elapsed engine request 4 s 0 [])
                    ∙ infer_loop-loop fl lower bits elapsed engine request 4 s 0 []
                    ∙ ends,
                default_calls fl calls le,
              )
        ]
