-- ===== src/Bus.antt =====
-- crates/sovalune-bus/src/lib.rs: the subjects and the messages of the bus, with what the derived
-- `Serialize` writes of each and what the derived `Deserialize` of those that are subscribed reads.
-- `serde_json` prints and parses a `Json`; it cannot fail to print one of these messages. A float is a
-- parameter with what it prints.
pub mod Reading
pub mod Client
pub mod Wire
pub mod Delivery
use sovalune_core.Common.{ℕ, Bool, Option, none, some, List, [], ◌∷◌, if◌then◌else◌}
use sovalune_core.Text.{Text, codes, text_eq}
use sovalune_core.Json.{
  Json, null, boolean, number, string, array, object, Items, nil, cons, Fields, end, field, items,
  object_of,
}

pub data Subject : Type 0 where
  inference_request : Subject
  inference_response : Subject
  tool_call : Subject
  tool_result : Subject
  learning_cycle_started : Subject
  learning_cycle_stage_completed : Subject
  learning_cycle_finished : Subject
  training_job_request : Subject
  training_job_result : Subject
  memory_decay_tick : Subject

unfoldable pub display : Subject → Text
display inference_request = codes "inference.request"
display inference_response = codes "inference.response"
display tool_call = codes "tools.call"
display tool_result = codes "tools.result"
display learning_cycle_started = codes "learning.cycle.started"
display learning_cycle_stage_completed = codes "learning.cycle.stage_changed"
display learning_cycle_finished = codes "learning.cycle.finished"
display training_job_request = codes "training.job.request"
display training_job_result = codes "training.job.result"
display memory_decay_tick = codes "memory.decay.tick"

-- an `Option` is written as its value or null
unfoldable pub optional : {A : Type 0} → (A → Json) → Option A → Json
optional write none = null
optional write (some a) = write a

pub record MemorySection : Type 0 where
  pub tier : Text
  pub content : Text

pub record HistoryEntry : Type 0 where
  pub role : Text
  pub content : Text

pub record PromptContext : Type 0 where
  pub system : Text
  pub memory_sections : List MemorySection
  pub history : List HistoryEntry

pub record GenerationConfig (F : Type 0) : Type 0 where
  pub max_tokens : ℕ
  pub temperature : F

pub record InferenceRequest (F : Type 0) : Type 0 where
  pub request_id : Text
  pub session_id : Text
  pub project_id : Text
  pub prompt_context : PromptContext
  pub generation_config : GenerationConfig F

unfoldable pub section_json : MemorySection → Json
section_json s =
    object_of ((codes "tier", string s.tier) ∷ (codes "content", string s.content) ∷ [])

unfoldable pub entry_json : HistoryEntry → Json
entry_json e = object_of ((codes "role", string e.role) ∷ (codes "content", string e.content) ∷ [])

unfoldable pub written : {A : Type 0} → (A → Json) → List A → Items
written write [] = nil
written write (a ∷ rest) = cons (write a) (written write rest)

unfoldable pub context_json : PromptContext → Json
context_json c = object_of (
    (codes "system", string c.system)
    ∷ (codes "memory_sections", array (written section_json c.memory_sections))
    ∷ (codes "history", array (written entry_json c.history))
    ∷ [])

unfoldable pub config_json : {F : Type 0} → (F → Json) → GenerationConfig F → Json
config_json print c =
    object_of
      ((codes "max_tokens", number c.max_tokens) ∷ (codes "temperature", print c.temperature) ∷ [])

unfoldable pub request_json : {F : Type 0} → (F → Json) → InferenceRequest F → Json
request_json print r = object_of (
    (codes "request_id", string r.request_id)
    ∷ (codes "session_id", string r.session_id)
    ∷ (codes "project_id", string r.project_id)
    ∷ (codes "prompt_context", context_json r.prompt_context)
    ∷ (codes "generation_config", config_json print r.generation_config)
    ∷ [])

pub data InferencePayload : Type 0 where
  delta : Text → InferencePayload
  done : Bool → Text → InferencePayload

pub record InferenceResponse : Type 0 where
  pub request_id : Text
  pub payload : InferencePayload

unfoldable pub payload_fields : InferencePayload → Fields
payload_fields (delta text) = field (codes "delta") (string text) end
payload_fields (done finished message_id) =
    field (codes "done") (boolean finished) (field (codes "message_id") (string message_id) end)

unfoldable pub response_json : InferenceResponse → Json
unfolding payload_fields
response_json r =
    object (field (codes "request_id") (string r.request_id) (payload_fields r.payload))

pub record ToolCall : Type 0 where
  pub request_id : Text
  pub cycle_id : Option Text
  pub tool : Text
  pub arguments : Json

unfoldable pub call_json : ToolCall → Json
call_json c = object_of (
    (codes "request_id", string c.request_id)
    ∷ (codes "cycle_id", optional string c.cycle_id)
    ∷ (codes "tool", string c.tool)
    ∷ (codes "arguments", c.arguments)
    ∷ [])

pub record ToolResult : Type 0 where
  pub request_id : Text
  pub ok : Bool
  pub result : Option Json
  pub error : Option Text

unfoldable pub result_json : ToolResult → Json
result_json r = object_of (
    (codes "request_id", string r.request_id)
    ∷ (codes "ok", boolean r.ok)
    ∷ (codes "result", optional (λ j. j) r.result)
    ∷ (codes "error", optional string r.error)
    ∷ [])

pub record LearningCycleEvent : Type 0 where
  pub cycle_id : Text
  pub project_id : Text
  pub from_status : Option Text
  pub to_status : Option Text
  pub detail : Json

unfoldable pub event_json : LearningCycleEvent → Json
event_json e = object_of (
    (codes "cycle_id", string e.cycle_id)
    ∷ (codes "project_id", string e.project_id)
    ∷ (codes "from_status", optional string e.from_status)
    ∷ (codes "to_status", optional string e.to_status)
    ∷ (codes "detail", e.detail)
    ∷ [])

pub record TrainingLimits : Type 0 where
  pub max_steps : ℕ
  pub timeout_seconds : ℕ

pub record TrainingJobRequest : Type 0 where
  pub job_id : Text
  pub cycle_id : Option Text
  pub job_type : Text
  pub dataset_uri : Text
  pub base_artifact_uri : Option Text
  pub limits : TrainingLimits

unfoldable pub limits_json : TrainingLimits → Json
limits_json l = object_of (
    (codes "max_steps", number l.max_steps)
    ∷ (codes "timeout_seconds", number l.timeout_seconds)
    ∷ [])

unfoldable pub job_json : TrainingJobRequest → Json
job_json j = object_of (
    (codes "job_id", string j.job_id)
    ∷ (codes "cycle_id", optional string j.cycle_id)
    ∷ (codes "job_type", string j.job_type)
    ∷ (codes "dataset_uri", string j.dataset_uri)
    ∷ (codes "base_artifact_uri", optional string j.base_artifact_uri)
    ∷ (codes "limits", limits_json j.limits)
    ∷ [])

pub record TrainingJobResult : Type 0 where
  pub job_id : Text
  pub ok : Bool
  pub artifact_uri : Option Text
  pub metrics : Json
  pub error : Option Text

unfoldable pub job_result_json : TrainingJobResult → Json
job_result_json r = object_of (
    (codes "job_id", string r.job_id)
    ∷ (codes "ok", boolean r.ok)
    ∷ (codes "artifact_uri", optional string r.artifact_uri)
    ∷ (codes "metrics", r.metrics)
    ∷ (codes "error", optional string r.error)
    ∷ [])
