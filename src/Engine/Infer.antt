-- ===== src/Engine/Infer.antt =====
-- crates/sovalune-model-runtime/src/engine.rs: `infer`. `elapsed` is the time in milliseconds that a
-- call and its stream take; the cache is read at the time `now` and written at the time `later`.
use sovalune_core.Common.{
  ℕ, zero, suc, ◌+◌, ◌%◌, ◌^◌, true, false, ◌&&◌, Option, none, some, List, [], ◌∷◌, ◌++◌, map,
  Outcome, returns, panics, Result, ok, err,
}
use sovalune_core.Float.{Float}
use sovalune_core.HashMap.{HashMap}
use sovalune_core.Text.{Text, codes}
use sovalune_core.Text.Equality.{text_discrete}
use sovalune_core.Json.{Json, string, object_of}
use sovalune_core.Types.{ContextSection, InferenceRequest, InferenceResult, InferenceError, display}
use sovalune_core.Retry.{Duration, should_retry, RetryState, new, default, has_retries_left}
use sovalune_core.Retry.Loop.{Run, finished, panicked, out_of_fuel}
use sovalune_core.Cache.{CacheEntry, get, insert}
use sovalune_core.Cache.Key.{Hashed, model_cache_key}
use sovalune_core.Backend.{TokenStream, estimate_tokens}
use sovalune_core.Engine.{InferenceEngine}
use sovalune_core.Engine.Stream.{delay_after}

-- the content and the number of tokens of a stream, up to its end, or its first error
unfoldable pub collect : TokenStream → Text → ℕ → Result (Text × ℕ) InferenceError
collect [] content tokens_used = ok (content, tokens_used)
collect (err e ∷ events) content tokens_used = err e
collect (ok token ∷ events) content tokens_used =
    let rest = collect events (content ++ token.delta) ((tokens_used + 1) % 2 ^ 32) in
    elim (token.finished) [ true ↦ ok (content, tokens_used) | false ↦ rest ]

unfoldable pub message_json : Text → Text → Json
message_json role content =
    object_of ((codes "role", string role) ∷ (codes "content", string content) ∷ [])

-- the messages that the key is made of
unfoldable pub key_messages : List ContextSection → Text → List Json
unfolding message_json
key_messages context user_input =
    map (λ (s : ContextSection). message_json s.role s.content) context
    ++ message_json (codes "user") user_input ∷ []

module _ (fl : Float) (to_lowercase : Text → Text) (bits : ℕ → ℕ) (elapsed : ℕ → ℕ)
    (engine : InferenceEngine fl) (request : InferenceRequest fl) where
  open fl use {F}

  -- whether the error of call `n` is retried, and how
  unfoldable pub retry_or_return :
      RetryState fl → ℕ → InferenceError → Outcome (Option (RetryState fl × Duration))
  unfolding delay_after
  retry_or_return s n e = elim (has_retries_left fl s && should_retry to_lowercase (display e)) [
    | false ↦ returns none
    | true ↦ elim (delay_after fl to_lowercase bits s n (display e)) [
      | panics ↦ panics
      | returns next ↦ returns (some next)
    ]
  ]

  unfoldable pub result_of : ℕ → Text × ℕ → InferenceResult
  result_of n (content, tokens_used) = record {
    request_id = request.id;
    content = content;
    tokens_used = tokens_used;
    model = engine.backend.model_name;
    duration_ms = elapsed n;
  }

  unfoldable pub infer_loop :
      ℕ → RetryState fl → ℕ → List Duration → Run InferenceResult InferenceError
  unfolding collect retry_or_return result_of
  infer_loop zero s n slept = out_of_fuel
  infer_loop (suc f) s n slept = elim (engine.backend.stream_inference n request) [
    | ok stream ↦ elim (collect stream [] 0) [
      | ok collected ↦ finished (ok (result_of n collected)) (suc n) slept
      | err e ↦ elim (retry_or_return s n e) [
        | panics ↦ panicked (suc n)
        | returns none ↦ finished (err e) (suc n) slept
        | returns (some (s', delay)) ↦ infer_loop f s' (suc n) (slept ++ delay ∷ [])
      ]
    ]
    | err e ↦ elim (retry_or_return s n e) [
      | panics ↦ panicked (suc n)
      | returns none ↦ finished (err e) (suc n) slept
      | returns (some (s', delay)) ↦ infer_loop f s' (suc n) (slept ++ delay ∷ [])
    ]
  ]

  unfoldable pub cache_key : (List (Hashed F) → ℕ) → Text
  unfolding key_messages
  cache_key finish =
      model_cache_key finish engine.backend.model_name
        (key_messages request.context request.user_input) request.config.temperature
        request.config.max_tokens

  -- the result of a hit
  unfoldable pub cached_result : Text → InferenceResult
  cached_result cached = record {
    request_id = request.id;
    content = cached;
    tokens_used = estimate_tokens cached;
    model = engine.backend.model_name;
    duration_ms = 0;
  }

  module _ (order : HashMap Text (CacheEntry Text) → ℕ) where
    -- an answer of the loop is written to the cache
    unfoldable pub store_answer :
        ℕ
        → Text
        → Run InferenceResult InferenceError
        → InferenceEngine fl × Run InferenceResult InferenceError
    store_answer later key (finished (ok result) calls delays) = (
      record engine {
        response_cache = insert text_discrete order later key result.content engine.response_cache;
      },
      finished (ok result) calls delays,
    )
    store_answer later key (finished (err e) calls delays) = (engine, finished (err e) calls delays)
    store_answer later key (panicked calls) = (engine, panicked calls)
    store_answer later key out_of_fuel = (engine, out_of_fuel)

    unfoldable pub infer :
        (List (Hashed F) → ℕ) → ℕ → ℕ → ℕ → InferenceEngine fl × Run InferenceResult InferenceError
    unfolding infer_loop cache_key cached_result store_answer new default
    infer finish now later f =
        elim (get text_discrete now (cache_key finish) engine.response_cache) [
          | some cached ↦ (engine, finished (ok (cached_result cached)) 0 [])
          | none ↦ store_answer later (cache_key finish) (infer_loop f (new fl (default fl)) 0 [])
        ]
