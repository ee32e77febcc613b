-- ===== src/Backend/Local.antt =====
-- crates/sovalune-model-runtime/src/backend/local.rs: `LocalBackend`. `get` is the status that a GET
-- answers within its time, if any; `get_json` also has the body, if it is JSON.
use mathlib.Core.Option
use sovalune_core.Common.{
  ℕ, Bool, false, ◌||◌, Option, none, some, ◌∷◌, ◌++◌, Result, if◌then◌else◌, ◌==◌,
}
use sovalune_core.Float.{Float}
use sovalune_core.Text.{Text, codes, is_empty}
use sovalune_core.Text.Pieces.{trim_end_matches}
use sovalune_core.Json.{Json, as_str, as_array, at}
use sovalune_core.Backend.{BackendConfig, ModelBackend}
use sovalune_core.Backend.Sse.{StreamChunk}
use sovalune_core.Backend.OpenAi.{
  OpenAiBackend, ChatCompletionRequest, Response, SendError, is_success, max_context_tokens,
  stream_inference,
}
use sovalune_core.Backend.OpenAi

pub record LocalBackend : Type 0 where
  pub inner : OpenAiBackend
  pub server_url : Text

unfoldable pub new : Text → Text → ℕ → LocalBackend
new server_url model timeout_secs = record {
  inner =
      OpenAi.new (trim_end_matches (λ c. c == 47) server_url ++ codes "/v1") (codes "no-key") model
        timeout_secs;
  server_url = server_url;
}

-- the name of the first model in the server's list
unfoldable pub first_model : Json → Option Text
first_model body = elim (as_array (at (codes "models") body)) [
  | some (first ∷ _) ↦ as_str (at (codes "name") first)
  | _ ↦ none
]

unfoldable pub detect_model : (Text → Option (ℕ × Option Json)) → Text → Text
unfolding first_model
detect_model get_json server_url = elim (get_json (server_url ++ codes "/api/tags")) [
  | none ↦ codes "llama3"
  | some (status, none) ↦ codes "llama3"
  | some (status, some body) ↦
      if is_success status
      then Option.get_or (first_model body) (codes "llama3")
      else codes "llama3"
]

-- whether a GET answers with a success
unfoldable pub answers : Option ℕ → Bool
answers none = false
answers (some status) = is_success status

unfoldable pub check_server : (Text → Option ℕ) → Text → Bool
unfolding answers
check_server get server_url =
    answers (get (server_url ++ codes "/api/tags"))
    || answers (get (server_url ++ codes "/v1/models"))

unfoldable pub from_config : (Text → Option (ℕ × Option Json)) → BackendConfig → LocalBackend
unfolding new detect_model
from_config get_json config =
    new config.api_url
      (if is_empty config.model_name
        then detect_model get_json config.api_url
        else config.model_name)
      config.timeout_secs

-- `impl ModelBackend for LocalBackend`
module _ (fl : Float) (from_str : Text → Option StreamChunk)
    (send : ℕ → Text → Text → ChatCompletionRequest fl → Result Response SendError)
    (get : Text → Option ℕ) where
  unfoldable pub as_model_backend : LocalBackend → ModelBackend fl
  unfolding check_server
  as_model_backend b = record {
    stream_inference = stream_inference fl from_str send (λ url key. get url) b.inner;
    model_name = b.inner.model;
    max_context_tokens = max_context_tokens b.inner;
    health_check = check_server get b.server_url;
  }
