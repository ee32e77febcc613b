-- ===== src/Engine/Caching.antt =====
-- crates/sovalune-model-runtime/src/engine.rs: `infer` after `infer`, through the response cache.
use sovalune_core.Common.{ℕ, suc, ◌-◌, ◌≤◌, ◌≡◌, refl, ap, some, List, [], ok, arith}
use sovalune_core.Float.{Float}
use sovalune_core.HashMap.{HashMap}
use sovalune_core.Text.{Text}
use sovalune_core.Text.Equality.{text_discrete}
use sovalune_core.Types.{InferenceRequest, InferenceResult}
use sovalune_core.Retry.{Duration}
use sovalune_core.Retry.Loop.{finished}
use sovalune_core.Cache.{CacheEntry, get, insert}
use sovalune_core.Cache.Reads.{get-insert_self}
use sovalune_core.Cache.Key.{Hashed}
use sovalune_core.Engine.{InferenceEngine}
use sovalune_core.Engine.Infer.{cache_key, cached_result, store_answer, infer}
use sovalune_core.Engine.Answers.{infer_called, infer_hit}

module _ (fl : Float) (lower : Text → Text) (bits elapsed : ℕ → ℕ)
    (order : HashMap Text (CacheEntry Text) → ℕ) (finish : List (Hashed fl.F) → ℕ) where
  -- The parts of a request that the cache's key is made of are those of the other.
  pub record SamePrompt (p q : InferenceRequest fl) : Type 0 where
    pub context : q.context ≡ p.context
    pub user_input : q.user_input ≡ p.user_input
    pub temperature : q.config.temperature ≡ p.config.temperature
    pub max_tokens : q.config.max_tokens ≡ p.config.max_tokens

  same_key :
      (engine : InferenceEngine fl) (p q : InferenceRequest fl)
      → SamePrompt p q
      → cache_key fl lower bits elapsed engine q finish
        ≡ cache_key fl lower bits elapsed engine p finish
  unfolding cache_key
  same_key engine p q h = rw (h.context, h.user_input, h.temperature, h.max_tokens) refl

  -- the engine after an answer of the backend
  abbrev after : InferenceEngine fl → InferenceRequest fl → ℕ → Text → InferenceEngine fl
  after engine p later content = record engine {
    response_cache =
        insert text_discrete order later (cache_key fl lower bits elapsed engine p finish) content
          engine.response_cache;
  }

  key-after :
      (engine : InferenceEngine fl) (p q : InferenceRequest fl) (later : ℕ) (content : Text)
      → SamePrompt p q
      → cache_key fl lower bits elapsed (after engine p later content) q finish
        ≡ cache_key fl lower bits elapsed engine p finish
  unfolding cache_key
  key-after engine p q later content h = same_key engine p q h

  engine-after :
      (engine : InferenceEngine fl) (p : InferenceRequest fl) (now later f m : ℕ)
      (result : InferenceResult) (delays : List Duration)
      → (infer fl lower bits elapsed engine p order finish now later f).1
        ≡ finished (ok result) (suc m) delays
      → (infer fl lower bits elapsed engine p order finish now later f).0
        ≡ after engine p later result.content
  unfolding store_answer
  engine-after engine p now later f m result delays h =
      ap (λ r. r.0)
        (infer_called fl lower bits elapsed engine p order finish now later f m (ok result) delays
          h).1

  still_there :
      (engine : InferenceEngine fl) (p : InferenceRequest fl) (later then' : ℕ) (content : Text)
      → then' - later ≤ engine.response_cache.default_ttl
      → get text_discrete then'
          (cache_key fl lower bits elapsed engine p finish)
          (after engine p later content).response_cache
        ≡ some content
  still_there engine p later then' content fresh = ground (
    arith,
    get-insert_self text_discrete order later then'
        (cache_key fl lower bits elapsed engine p finish) content engine.response_cache,
  )

  -- Once the backend has answered a request at the time `later`, a second request with the same
  -- context, input, temperature and limit of tokens, read no later than the time to live after it,
  -- gets that content from the cache: the backend is not called, and the engine stays as it is. The
  -- two requests may differ in `top_p` and `stream`.
  pub infer-infer :
      (engine : InferenceEngine fl) (p q : InferenceRequest fl) (now later then' f g m : ℕ)
      (result : InferenceResult) (delays : List Duration)
      → SamePrompt p q
      → then' - later ≤ engine.response_cache.default_ttl
      → (infer fl lower bits elapsed engine p order finish now later f).1
        ≡ finished (ok result) (suc m) delays
      → infer fl lower bits elapsed
          (infer fl lower bits elapsed engine p order finish now later f).0
          q
          order
          finish
          then'
          then'
          g
        ≡ (
          (infer fl lower bits elapsed engine p order finish now later f).0,
          finished (ok (cached_result fl lower bits elapsed engine q result.content)) 0 [],
        )
  unfolding cached_result
  infer-infer engine p q now later then' f g m result delays same fresh h =
      let engine' = after engine p later result.content in
      rw (engine-after engine p now later f m result delays h) (
        infer_hit fl lower bits elapsed engine' q order finish then' then' g result.content (
          rw (key-after engine p q later result.content same)
            (still_there engine p later then' result.content fresh)))
