-- ===== src/Chat/Generation.antt =====
-- crates/sovalune-api/src/routes/ws.rs: the spawned task of a generation. `stream_infer` is the engine's
-- answer in each round, `polls` what each look at the token of cancellation finds, `to_string` and
-- `pretty` serde's printing, `fresh` the digits of the identifiers that the parser makes in a round.
pub mod Transcript
pub mod Endings
pub mod Results
use sovalune_core.Common.{
  ℕ, zero, suc, ◌+◌, Bool, true, false, Option, none, some, List, [], ◌∷◌, ◌++◌, Outcome, returns,
  panics, Result, ok, err, min, if◌then◌else◌,
}
use sovalune_core.Float.{Float}
use sovalune_core.HashMap.{HashMap}
use sovalune_core.HashMap
use sovalune_core.Text.{Text, codes, byte_len, slice_to}
use sovalune_core.Text.Equality.{text_discrete}
use sovalune_core.Json.{Json}
use sovalune_core.Types.{
  ContextSection, InferenceRequest, InferenceError, TokenEvent, GenerationConfig,
}
use sovalune_core.Types
use sovalune_core.Backend.{TokenStream}
use sovalune_core.Tools.{ToolCall, ToolResult, ToolRegistry, execute, failed_result, display}
use sovalune_core.Tools
use sovalune_core.Tools.Parser.{parse_text_tool_calls}
use sovalune_core.Chat.{
  Task, ServerMessage, token, tool_call_started, tool_call_finished, message_complete, error,
}
use sovalune_core.Chat.Prompt.{system_prompt, context_for, tool_input}

-- `polled` counts the looks at the token of cancellation
pub record State : Type 0 where
  pub full_response : Text
  pub sent : List ServerMessage
  pub polled : ℕ

-- `ok` where the code goes on, `err` where the task returns
abbrev pub Step : Type 0 → Type 0
Step A = Outcome (Result A State)

unfoldable pub send : ServerMessage → State → State
send message s = record s { sent = s.sent ++ message ∷ [] }

module _ (session_id : Text) (polls : ℕ → Bool) where
  -- the loop over the events of a stream: the text of this round
  unfoldable pub read_stream : TokenStream → Text → State → Result (Text × State) State
  unfolding send
  read_stream [] response_chunk s = ok (response_chunk, s)
  read_stream (event ∷ events) response_chunk s = elim (polls s.polled) [
    | true ↦ ok (response_chunk, record s { polled = s.polled + 1 })
    | false ↦ elim event [
      | err e ↦ err (
          send (error (codes "INFERENCE_ERROR") (Types.display e))
            (record s { polled = s.polled + 1 }))
      | ok t ↦ elim (t.finished) [
        | true ↦ ok (response_chunk, record s { polled = s.polled + 1 })
        | false ↦ read_stream events (response_chunk ++ t.delta) (record s {
          full_response = s.full_response ++ t.delta;
          sent = s.sent ++ token session_id t.delta ∷ [];
          polled = s.polled + 1;
        })
      ]
    ]
  ]

  module _ (to_string : Json → Text) (error_json : Text → Json) where
    -- `&output.to_string()[..100.min(len)]`
    unfoldable pub result_summary : ToolResult Json → Outcome Text
    result_summary result =
        elim (slice_to (to_string result.output) (min 100 (byte_len (to_string result.output)))) [
          | none ↦ panics
          | some head ↦ returns (
              codes "success="
              ++ ((if result.success then codes "true" else codes "false")
                  ++ (codes ", output=" ++ head)))
        ]

    -- what is done with the answer of a tool
    unfoldable pub finish_call :
        ToolCall Json
        → Outcome (Result (ToolResult Json) Tools.ToolError)
        → List (ToolResult Json)
        → State
        → Outcome (List (ToolResult Json) × State)
    unfolding result_summary send
    finish_call tc panics results s = panics
    finish_call tc (returns (err e)) results s =
        returns (results ++ failed_result (λ c. 0) error_json tc e ∷ [], s)
    finish_call tc (returns (ok result)) results s = elim (result_summary result) [
      | panics ↦ panics
      | returns summary ↦
          returns (results ++ result ∷ [], send (tool_call_finished session_id tc.name summary) s)
    ]

    module _ (elapsed : ToolCall Json → ℕ) (registry : ToolRegistry Json) where
      -- the loop over the calls
      unfoldable pub run_calls :
          List (ToolCall Json)
          → List (ToolResult Json)
          → State
          → Outcome (List (ToolResult Json) × State)
      unfolding finish_call send
      run_calls [] results s = returns (results, s)
      run_calls (tc ∷ tcs) results s =
          elim (finish_call tc (execute elapsed error_json registry tc (codes "ws_user")) results
            (send (tool_call_started session_id tc.name tc.arguments) s)) [
              | panics ↦ panics
              | returns (results', s') ↦ run_calls tcs results' s'
            ]

-- everything that the task uses
pub record Environment (fl : Float) : Type 0 where
  pub to_uppercase : Text → Text
  pub polls : ℕ → Bool
  pub to_string : Json → Text
  pub pretty : Json → Text
  pub error_json : Text → Json
  pub from_str : Text → Option Json
  pub fresh : ℕ → ℕ → Text
  pub elapsed : ToolCall Json → ℕ
  pub registry : ToolRegistry Json
  pub request_id : ℕ → ℕ
  pub stream_infer : ℕ → InferenceRequest fl → Outcome (Result TokenStream InferenceError)
  -- the store's answer to a message of a role and a content
  pub create_message : Text → Text → Result (Unit {0}) Text

module _ (fl : Float) (env : Environment fl) (task : Task) where
  open fl use {ratio}
  open env use {
    to_uppercase, polls, to_string, pretty, error_json, from_str, fresh, elapsed, registry,
    request_id, stream_infer, create_message,
  }

  abbrev pub prompt : Text
  prompt = system_prompt (Tools.definitions registry) task.project_id

  unfoldable pub inference_request : ℕ → List ContextSection → InferenceRequest fl
  inference_request round context = record {
    id = request_id round;
    session_id = task.session_id;
    project_id = task.project_id;
    context = context;
    user_input = [];
    config = record {
      max_tokens = 4096;
      temperature = ratio 7 10;
      top_p = ratio 9 10;
      stream = true;
    };
  }

  -- the context of the next round, after the tools have run
  unfoldable pub next_context :
      List (ToolResult Json) × State → Outcome (List ContextSection × State)
  next_context (results, s) =
      elim (context_for to_uppercase prompt task
        (tool_input pretty results task.content s.full_response)) [
          | panics ↦ panics
          | returns context ↦ returns (context, s)
        ]

  -- the calls found in a round's text: `none` where there are none and the loop ends
  unfoldable pub use_tools :
      List (ToolCall Json) → State → Outcome (Option (List ContextSection) × State)
  unfolding next_context
  use_tools [] s = returns (none, s)
  use_tools (tc ∷ tcs) s =
      elim (run_calls task.session_id polls to_string error_json elapsed registry (tc ∷ tcs) [] s) [
        | panics ↦ panics
        | returns ran ↦ elim (next_context ran) [
          | panics ↦ panics
          | returns (context, s') ↦ returns (some context, s')
        ]
      ]

  unfoldable pub after_reading : ℕ → Text × State → Outcome (Option (List ContextSection) × State)
  unfolding use_tools
  after_reading round (response_chunk, s) =
      use_tools (parse_text_tool_calls from_str (fresh round) response_chunk) s

  -- one round: the request, the reading of its stream, the calls of tools
  unfoldable pub run_round :
      ℕ → List ContextSection → State → Step (Option (List ContextSection) × State)
  unfolding inference_request after_reading send
  run_round round context s = elim (stream_infer round (inference_request round context)) [
    | panics ↦ panics
    | returns (err e) ↦ returns (err (send (error (codes "INFERENCE_FAILED") (Types.display e)) s))
    | returns (ok stream) ↦ elim (read_stream task.session_id polls stream [] s) [
      | err s' ↦ returns (err s')
      | ok read ↦ elim (after_reading round read) [
        | panics ↦ panics
        | returns next ↦ returns (ok next)
      ]
    ]
  ]

  -- the loop, on the rounds that are left of `MAX_TOOL_ITERATIONS`
  unfoldable pub generate_loop : ℕ → ℕ → List ContextSection → State → Step State
  unfolding run_round
  generate_loop zero round context s = returns (ok (record s { polled = s.polled + 1 }))
  generate_loop (suc left) round context s = elim (polls s.polled) [
    | true ↦ returns (ok (record s { polled = s.polled + 1 }))
    | false ↦ elim (run_round round context (record s { polled = s.polled + 1 })) [
      | panics ↦ panics
      | returns (err s') ↦ returns (err s')
      | returns (ok (none, s')) ↦ returns (ok s')
      | returns (ok (some context', s')) ↦ generate_loop left (round + 1) context' s'
    ]
  ]

  abbrev pub max_tool_iterations : ℕ
  max_tool_iterations = 10

  -- what the task leaves: the messages sent, the message that the store has taken, and whether the
  -- token of cancellation has been taken out of the map
  pub record Generated : Type 0 where
    pub sent : List ServerMessage
    pub saved : Option (Text × Text)
    pub cleaned : Bool

  -- the message in the store after its answer; a failure is only logged
  unfoldable pub kept : Text → Text → Result (Unit {0}) Text → Option (Text × Text)
  kept role content (ok _) = some (role, content)
  kept role content (err e) = none

  unfoldable pub conclude : Text → Result State State → Generated
  unfolding kept
  conclude message_id (err s) = record { sent = s.sent; saved = none; cleaned = false }
  conclude message_id (ok s) = record {
    sent = s.sent ++ message_complete task.session_id message_id ∷ [];
    saved =
        kept (codes "assistant") s.full_response
          (create_message (codes "assistant") s.full_response);
    cleaned = true;
  }

  unfoldable pub generate : Text → Outcome Generated
  unfolding generate_loop conclude
  generate message_id = elim (context_for to_uppercase prompt task task.content) [
    | panics ↦ panics
    | returns context ↦
        elim (generate_loop max_tool_iterations 1 context
          (record { full_response = []; sent = []; polled = 0 })) [
            | panics ↦ panics
            | returns outcome ↦ returns (conclude message_id outcome)
          ]
  ]

-- the map of the tokens after the task
unfoldable pub clean_up : Bool → Text → HashMap Text ℕ → HashMap Text ℕ
clean_up true session_id tokens = HashMap.remove text_discrete session_id tokens
clean_up false session_id tokens = tokens
