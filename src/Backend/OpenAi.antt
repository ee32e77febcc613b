-- ===== src/Backend/OpenAi.antt =====
-- crates/sovalune-model-runtime/src/backend/openai.rs: `OpenAIBackend`. The HTTP client is `send`, which
-- answers each call by its number, and `get`, the status that a GET answers within its time, if any.
use mathlib.Core.Option
use sovalune_core.Common.{
  ℕ, ◌+◌, ◌*◌, ◌%◌, ◌^◌, Bool, true, false, not, ◌&&◌, ◌||◌, Option, none, some, List, [], ◌∷◌,
  ◌++◌, Result, ok, err, ltb, leb, ◌==◌, if◌then◌else◌,
}
use sovalune_core.Float.{Float}
use sovalune_core.Text.{Text, codes, text_eq, contains}
use sovalune_core.Text.Pieces.{trim_end_matches}
use sovalune_core.Text.Decimal.{print_nat}
use sovalune_core.Types.{
  ContextSection, InferenceRequest, InferenceError, backend_unavailable, rate_limited, model_error,
  http, timeout, internal,
}
use sovalune_core.Backend.{BackendConfig, TokenStream, ModelBackend}
use sovalune_core.Backend.Sse.{StreamChunk, token_stream}

pub record ChatMessage : Type 0 where
  pub role : Text
  pub content : Text

-- durations in milliseconds
pub record OpenAiBackend : Type 0 where
  pub client_timeout : ℕ
  pub api_url : Text
  pub api_key : Text
  pub model : Text
  pub timeout_ms : ℕ

-- the sum of seconds is a `u64`
unfoldable pub new : Text → Text → Text → ℕ → OpenAiBackend
new api_url api_key model timeout_secs = record {
  client_timeout = ((timeout_secs + 30) % 2 ^ 64) * 1000;
  api_url = trim_end_matches (λ c. c == 47) api_url;
  api_key = api_key;
  model = model;
  timeout_ms = timeout_secs * 1000;
}

unfoldable pub from_config : BackendConfig → Result OpenAiBackend InferenceError
unfolding new
from_config config = elim config.api_key [
  | none ↦ err (internal (codes "API key required for OpenAI backend"))
  | some api_key ↦ ok (new config.api_url api_key config.model_name config.timeout_secs)
]

-- the arm of the `match` on a section's role
unfoldable pub section_messages : ContextSection → List ChatMessage
section_messages s =
    if text_eq s.role (codes "system")
    then record { role = codes "system"; content = s.content } ∷ []
    else if text_eq s.role (codes "memory") || text_eq s.role (codes "history")
    then record { role = codes "system"; content = s.content } ∷ []
    else []

-- the loop over the sections
unfoldable pub context_messages : List ContextSection → List ChatMessage → List ChatMessage
unfolding section_messages
context_messages [] messages = messages
context_messages (s ∷ ss) messages = context_messages ss (messages ++ section_messages s)

unfoldable pub max_context_tokens : OpenAiBackend → ℕ
max_context_tokens b =
    if contains b.model (codes "gpt-4o")
    then 128000
    else if contains b.model (codes "gpt-4")
    then 8192
    else if contains b.model (codes "gpt-3.5")
    then 16385
    else if contains b.model (codes "llama-3")
    then 8192
    else if contains b.model (codes "mixtral")
    then 32768
    else 4096

-- `StatusCode::is_success`
unfoldable pub is_success : ℕ → Bool
is_success status = leb 200 status && ltb status 300

-- the kinds of failure that `reqwest` tells apart, with their texts
pub data SendError : Type 0 where
  is_timeout : SendError
  is_connect : Text → SendError
  other : Text → SendError

-- `text` is the whole body, or nothing if it cannot be read; `bytes_stream` is the body in chunks
pub record Response : Type 0 where
  pub status : ℕ
  pub text : Option Text
  pub bytes_stream : List (Result Text Text)

unfoldable pub send_error : OpenAiBackend → SendError → InferenceError
send_error b is_timeout = timeout (b.timeout_ms % 2 ^ 64)
send_error b (is_connect e) = backend_unavailable e
send_error b (other e) = http e

-- the error of a status that is no success
unfoldable pub api_error : ℕ → Text → InferenceError
api_error status body =
    if status == 429
    then rate_limited 1000
    else model_error (codes "API error " ++ (print_nat status ++ (codes ": " ++ body)))

module _ (fl : Float) where
  open fl use {F}

  pub record ChatCompletionRequest : Type 0 where
    pub model : Text
    pub messages : List ChatMessage
    pub max_tokens : ℕ
    pub temperature : F
    pub top_p : F
    pub stream : Bool

  unfoldable pub build_request : OpenAiBackend → InferenceRequest fl → ChatCompletionRequest
  unfolding context_messages
  build_request b request = record {
    model = b.model;
    messages =
        context_messages request.context []
        ++ record { role = codes "user"; content = request.user_input } ∷ [];
    max_tokens = request.config.max_tokens;
    temperature = request.config.temperature;
    top_p = request.config.top_p;
    stream = true;
  }

  module _ (from_str : Text → Option StreamChunk) where
    -- what comes back for a request
    unfoldable pub read_response :
        OpenAiBackend → ℕ → Result Response SendError → Result TokenStream InferenceError
    unfolding send_error is_success api_error
    read_response b id (err e) = err (send_error b e)
    read_response b id (ok response) =
        if not (is_success response.status)
        then err (api_error response.status (Option.get_or response.text []))
        else ok (token_stream id from_str response.bytes_stream)

    -- the arguments of `send`: the URL, the key in the header `Authorization`, the body
    module _ (send : ℕ → Text → Text → ChatCompletionRequest → Result Response SendError)
        (get : Text → Text → Option ℕ) where
      unfoldable pub stream_inference :
          OpenAiBackend → ℕ → InferenceRequest fl → Result TokenStream InferenceError
      unfolding build_request read_response
      stream_inference b n request = read_response b request.id (
          send n (b.api_url ++ codes "/chat/completions") (codes "Bearer " ++ b.api_key)
            (build_request b request))

      unfoldable pub health_check : OpenAiBackend → Bool
      unfolding is_success
      health_check b = elim (get (b.api_url ++ codes "/models") (codes "Bearer " ++ b.api_key)) [
        | some status ↦ is_success status
        | none ↦ false
      ]

      -- `impl ModelBackend for OpenAIBackend`
      unfoldable pub as_model_backend : OpenAiBackend → ModelBackend fl
      unfolding stream_inference max_context_tokens health_check
      as_model_backend b = record {
        stream_inference = stream_inference b;
        model_name = b.model;
        max_context_tokens = max_context_tokens b;
        health_check = health_check b;
      }
