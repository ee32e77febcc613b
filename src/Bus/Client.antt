-- ===== src/Bus/Client.antt =====
-- crates/sovalune-bus/src/lib.rs: `NatsClient` over the client of `async_nats`, which is a parameter.
-- What other processes publish while a wait goes on is a list of messages, in their order. A task that
-- reads a subscription until its end is the list of what it hands to its callback.
use sovalune_core.Common.{ℕ, Bool, Option, none, some, List, [], ◌∷◌, ◌++◌, Result, ok, err}
use sovalune_core.Text.{Text, codes}
use sovalune_core.Json.{Json, string, object_of}
use sovalune_core.Bus.{
  InferenceRequest, request_json, InferenceResponse, call_json, ToolResult, result_json,
  LearningCycleEvent, event_json, TrainingJobRequest, job_json, TrainingJobResult, optional,
}
use sovalune_core.Bus.Reading.{read_response, read_result, read_job_result}

pub record Message : Type 0 where
  pub subject : Text
  pub payload : Json

-- what a subscription that is waited for gives
pub data Next : Type 0 where
  arrived : Json → Next
  ended : Next
  timed_out : Next

pub record Client : Type 1 where
  pub State : Type 0
  pub Subscriber : Type 0
  pub publish : Message → State → Result (Unit {0}) Text × State
  pub subscribe : Text → State → Result Subscriber Text × State
  -- the next message within some milliseconds, while the messages of the list are published
  pub next : ℕ → List Message → Subscriber → State → Next
  pub connected : State → Bool
  -- the error of `serde_json::from_slice`
  pub parse_error : Json → Text

-- `callback` for each message that parses
unfoldable pub read_all : {A : Type 0} → (Json → Option A) → List Json → List A
read_all read [] = []
read_all read (j ∷ js) =
    let rest = read_all read js in elim (read j) [ some a ↦ a ∷ rest | none ↦ rest ]

unfoldable pub inference_request_message : {F : Type 0} → (F → Json) → InferenceRequest F → Message
inference_request_message print request = record {
  subject = codes "inference.request." ++ request.project_id;
  payload = request_json print request;
}

unfoldable pub tool_call_message : Text → Option Text → Text → Json → Message
tool_call_message request_id cycle_id tool_name arguments = record {
  subject = codes "tools.call." ++ tool_name;
  payload = call_json (record {
    request_id = request_id;
    cycle_id = cycle_id;
    tool = tool_name;
    arguments = arguments;
  });
}

-- the subject that a result is published on and waited for
unfoldable pub result_subject : Text → Text
result_subject request_id = codes "tools.result." ++ request_id

unfoldable pub tool_result_message : Text → Bool → Option Json → Option Text → Message
tool_result_message request_id succeeded result error = record {
  subject = result_subject request_id;
  payload =
      result_json
        (record { request_id = request_id; ok = succeeded; result = result; error = error });
}

unfoldable pub event_message : Text → LearningCycleEvent → Message
event_message subject event = record {
  subject = subject ++ codes "." ++ event.project_id;
  payload = event_json event;
}

unfoldable pub job_request_message : TrainingJobRequest → Message
job_request_message request = record {
  subject = codes "training.job.request";
  payload = job_json request;
}

unfoldable pub decay_tick_message : Option Text → Message
decay_tick_message project_id = record {
  subject = codes "memory.decay.tick";
  payload = object_of ((codes "project_id", optional string project_id) ∷ []);
}

module _ (client : Client) where
  open client use {State, Subscriber, publish, subscribe, next, connected, parse_error}

  unfoldable pub health_check : State → Bool
  health_check w = connected w

  unfoldable pub publish_inference_request :
      {F : Type 0} → (F → Json) → InferenceRequest F → State → Result (Unit {0}) Text × State
  publish_inference_request print request w = publish (inference_request_message print request) w

  unfoldable pub publish_tool_call :
      Text → Option Text → Text → Json → State → Result (Unit {0}) Text × State
  publish_tool_call request_id cycle_id tool_name arguments w =
      publish (tool_call_message request_id cycle_id tool_name arguments) w

  unfoldable pub publish_tool_result :
      Text → Bool → Option Json → Option Text → State → Result (Unit {0}) Text × State
  publish_tool_result request_id succeeded result error w =
      publish (tool_result_message request_id succeeded result error) w

  unfoldable pub publish_learning_cycle_event :
      Text → LearningCycleEvent → State → Result (Unit {0}) Text × State
  publish_learning_cycle_event subject event w = publish (event_message subject event) w

  unfoldable pub publish_training_job_request :
      TrainingJobRequest → State → Result (Unit {0}) Text × State
  publish_training_job_request request w = publish (job_request_message request) w

  unfoldable pub publish_memory_decay_tick : Option Text → State → Result (Unit {0}) Text × State
  publish_memory_decay_tick project_id w = publish (decay_tick_message project_id) w

  -- the payloads that arrive until the subscription ends are given; `none` where there is no
  -- subscription
  unfoldable pub delivered :
      {A : Type 0} → (Json → Option A) → Text → List Json → State → Result (List A) Text × State
  delivered read subject payloads w =
      let (subscribed, w') = subscribe subject w in
      elim subscribed [ ok sub ↦ (ok (read_all read payloads), w') | err e ↦ (err e, w') ]

  unfoldable pub subscribe_inference_response :
      Text → List Json → State → Result (List InferenceResponse) Text × State
  subscribe_inference_response request_id payloads w =
      delivered read_response (codes "inference.response." ++ request_id) payloads w

  unfoldable pub subscribe_training_job_result :
      List Json → State → Result (List TrainingJobResult) Text × State
  subscribe_training_job_result payloads w =
      delivered read_job_result (codes "training.job.result") payloads w

  unfoldable pub parsed : Json → Option ToolResult → Result ToolResult Text
  parsed payload (some result) = ok result
  parsed payload none = err (parse_error payload)

  unfoldable pub received : Next → Result ToolResult Text
  received (arrived payload) = parsed payload (read_result payload)
  received ended = err (codes "Subscription ended")
  received timed_out = err (codes "Timeout waiting for tool result")

  unfoldable pub wait_from :
      ℕ → List Message → Result Subscriber Text × State → Result ToolResult Text
  wait_from timeout_ms during (ok sub, w) = received (next timeout_ms during sub w)
  wait_from timeout_ms during (err e, w) = err e

  unfoldable pub wait_for_tool_result : Text → ℕ → List Message → State → Result ToolResult Text
  wait_for_tool_result request_id timeout_ms during w =
      wait_from timeout_ms during (subscribe (result_subject request_id) w)
