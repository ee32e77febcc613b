-- ===== src/Backend.antt =====
-- crates/sovalune-model-runtime/src/backend/mod.rs: `BackendConfig` and the trait `ModelBackend`.
-- A stream is the list of its events. A backend answers each call of `stream_inference` by its number.
pub mod Sse
pub mod OpenAi
pub mod Local
pub mod Lines
pub mod Requests
use sovalune_core.Common.{ℕ, ◌+◌, ◌/◌, ◌%◌, ◌^◌, Bool, Option, none, List, Result}
use sovalune_core.Float.{Float}
use sovalune_core.Text.{Text, codes, byte_len}
use sovalune_core.Types.{InferenceRequest, TokenEvent, InferenceError}

pub record BackendConfig : Type 0 where
  pub backend_type : Text
  pub api_url : Text
  pub api_key : Option Text
  pub model_name : Text
  pub timeout_secs : ℕ
  pub max_retries : ℕ

unfoldable pub default : BackendConfig
default = record {
  backend_type = codes "openai";
  api_url = codes "https://api.openai.com/v1";
  api_key = none;
  model_name = codes "gpt-4";
  timeout_secs = 120;
  max_retries = 3;
}

abbrev pub TokenStream : Type 0
TokenStream = List (Result TokenEvent InferenceError)

pub record ModelBackend (fl : Float) : Type 0 where
  pub stream_inference : ℕ → InferenceRequest fl → Result TokenStream InferenceError
  pub model_name : Text
  pub max_context_tokens : ℕ
  pub health_check : Bool

-- the trait's own estimate, in `u32`
unfoldable pub estimate_tokens : Text → ℕ
estimate_tokens text = (byte_len text % 2 ^ 32 + 3) / 4
