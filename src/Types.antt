-- ===== src/Types.antt =====
-- crates/sovalune-model-runtime/src/types.rs: requests, sections of a context, token events,
-- results and errors of inference. Identifiers are numbers.
use sovalune_core.Common.{ℕ, ◌++◌, Option, List, Bool, true}
use sovalune_core.Float.{Float}
use sovalune_core.Text.{Text, codes}
use sovalune_core.Text.Decimal.{print_nat}

pub record ContextSection : Type 0 where
  pub role : Text
  pub content : Text
  pub priority : ℕ
  pub token_estimate : ℕ

module _ (fl : Float) where
  open fl use {F, ratio}

  pub record GenerationConfig : Type 0 where
    pub max_tokens : ℕ
    pub temperature : F
    pub top_p : F
    pub stream : Bool

  pub record InferenceRequest : Type 0 where
    pub id : ℕ
    pub session_id : Text
    pub project_id : Text
    pub context : List ContextSection
    pub user_input : Text
    pub config : GenerationConfig

  unfoldable pub default : GenerationConfig
  default = record {
    max_tokens = 2048;
    temperature = ratio 7 10;
    top_p = ratio 9 10;
    stream = true;
  }

pub record TokenEvent : Type 0 where
  pub request_id : ℕ
  pub delta : Text
  pub finished : Bool
  pub message_id : Option Text

pub record InferenceResult : Type 0 where
  pub request_id : ℕ
  pub content : Text
  pub tokens_used : ℕ
  pub model : Text
  pub duration_ms : ℕ

-- The errors of serde_json and reqwest are kept as the texts that they print.
pub data InferenceError : Type 0 where
  backend_unavailable : Text → InferenceError
  rate_limited : ℕ → InferenceError
  context_too_long : ℕ → ℕ → InferenceError
  model_error : Text → InferenceError
  serialization : Text → InferenceError
  http : Text → InferenceError
  timeout : ℕ → InferenceError
  internal : Text → InferenceError

-- `Display`, as `thiserror` derives it
unfoldable pub display : InferenceError → Text
display (backend_unavailable s) = codes "Backend unavailable: " ++ s
display (rate_limited retry_after_ms) =
    codes "Rate limited, retry after " ++ (print_nat retry_after_ms ++ codes "ms")
display (context_too_long tokens max_tokens) =
    codes "Context too long: "
    ++ (print_nat tokens ++ (codes " tokens exceeds max " ++ print_nat max_tokens))
display (model_error s) = codes "Model error: " ++ s
display (serialization s) = codes "Serialization error: " ++ s
display (http s) = codes "HTTP error: " ++ s
display (timeout ms) = codes "Timeout after " ++ (print_nat ms ++ codes "ms")
display (internal s) = codes "Internal error: " ++ s
