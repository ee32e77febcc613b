-- ===== src/Engine.antt =====
-- crates/sovalune-model-runtime/src/engine.rs: `InferenceEngine`, its construction from a
-- configuration, `BackendInfo` and `InferenceEngineFactory`.
pub mod Stream
pub mod Infer
pub mod Loops
pub mod Answers
pub mod Caching
pub mod Streaming
use mathlib.Core.Option
use sovalune_core.Common.{ℕ, Bool, Option, none, some, [], ◌++◌, Result, ok, err, if◌then◌else◌}
use sovalune_core.Float.{Float}
use sovalune_core.HashMap.{HashMap, lookup}
use sovalune_core.HashMap
use sovalune_core.Text.{Text, codes, text_eq}
use sovalune_core.Text.Equality.{text_discrete}
use sovalune_core.Json.{Json}
use sovalune_core.Types.{InferenceError, internal}
use sovalune_core.Cache.{Cache, response_cache}
use sovalune_core.Backend.{BackendConfig, ModelBackend}
use sovalune_core.Backend
use sovalune_core.Backend.Sse.{StreamChunk}
use sovalune_core.Backend.OpenAi.{ChatCompletionRequest, Response, SendError}
use sovalune_core.Backend.OpenAi
use sovalune_core.Backend.Local

pub record BackendInfo : Type 0 where
  pub model : Text
  pub max_context_tokens : ℕ

-- the configurations of the projects
abbrev pub InferenceEngineFactory : Type 0
InferenceEngineFactory = HashMap Text BackendConfig

unfoldable pub new_factory : InferenceEngineFactory
new_factory = []

unfoldable pub register_project :
    Text → BackendConfig → InferenceEngineFactory → InferenceEngineFactory
register_project project_id config configs = HashMap.insert text_discrete project_id config configs

module _ (fl : Float) where
  pub record InferenceEngine : Type 0 where
    pub backend : ModelBackend fl
    pub response_cache : Cache Text Text

  unfoldable pub new : ModelBackend fl → InferenceEngine
  new backend = record { backend = backend; response_cache = response_cache }

  unfoldable pub with_cache : ModelBackend fl → Cache Text Text → InferenceEngine
  with_cache backend response_cache' = record {
    backend = backend;
    response_cache = response_cache';
  }

  unfoldable pub backend_info : InferenceEngine → BackendInfo
  backend_info e = record {
    model = e.backend.model_name;
    max_context_tokens = e.backend.max_context_tokens;
  }

  unfoldable pub health_check : InferenceEngine → Bool
  health_check e = e.backend.health_check

  -- the HTTP client and serde, as the backends take them
  module _ (from_str : Text → Option StreamChunk)
      (send : ℕ → Text → Text → ChatCompletionRequest fl → Result Response SendError)
      (get : Text → Text → Option ℕ) (get_json : Text → Option (ℕ × Option Json)) where
    -- an OpenAI backend, if it has been made
    unfoldable pub openai_engine :
        Result OpenAi.OpenAiBackend InferenceError → Result InferenceEngine InferenceError
    unfolding new
    openai_engine (err e) = err e
    openai_engine (ok b) = ok (new (OpenAi.as_model_backend fl from_str send get b))

    unfoldable pub from_config : BackendConfig → Result InferenceEngine InferenceError
    unfolding new openai_engine
    from_config config =
        if text_eq config.backend_type (codes "openai")
        then openai_engine (OpenAi.from_config config)
        else if text_eq config.backend_type (codes "local")
        then ok (
            new (
              Local.as_model_backend fl from_str send (λ url. get url [])
                (Local.from_config get_json config)))
        else err (internal (codes "Unknown backend type: " ++ config.backend_type))

    unfoldable pub create_engine :
        Text → InferenceEngineFactory → Result InferenceEngine InferenceError
    unfolding from_config
    create_engine project_id configs =
        from_config (Option.get_or (lookup text_discrete project_id configs) Backend.default)

    unfoldable pub create_default_engine : Result InferenceEngine InferenceError
    unfolding from_config
    create_default_engine = from_config Backend.default
