-- ===== src/Tools.antt =====
-- crates/sovalune-model-runtime/src/tools.rs: `ToolRegistry` and `ToolCallManager`.
-- The values of JSON are a parameter, with the object that carries an error text. An executor answers
-- each call and caller; `elapsed` is the time in milliseconds that a call takes.
pub mod Execution
pub mod Parser
pub mod Parsing
pub mod Executors
use sovalune_core.Common.{
  ℕ, Bool, true, false, not, Option, none, some, List, [], ◌∷◌, ◌++◌, map, length, ◌==◌, Outcome,
  returns, panics, Result, ok, err,
}
use mathlib.Core.Option
use mathlib.Core.List.{reverse}
use sovalune_core.HashMap.{HashMap, lookup}
use sovalune_core.HashMap
use sovalune_core.Text.{Text, codes}
use sovalune_core.Text.Decimal.{print_nat}
use sovalune_core.Text.Equality.{text_discrete}

pub data ToolError : Type 0 where
  not_found : Text → ToolError
  invalid_arguments : Text → ToolError
  execution_failed : Text → ToolError
  permission_denied : Text → ToolError
  timeout : ℕ → ToolError
  internal : Text → ToolError

-- `Display`, as `thiserror` derives it
unfoldable pub display : ToolError → Text
display (not_found s) = codes "Tool not found: " ++ s
display (invalid_arguments s) = codes "Invalid arguments: " ++ s
display (execution_failed s) = codes "Execution failed: " ++ s
display (permission_denied s) = codes "Permission denied: " ++ s
display (timeout ms) = codes "Timeout after " ++ (print_nat ms ++ codes "ms")
display (internal s) = codes "Internal error: " ++ s

pub record ToolDefinition (Json : Type 0) : Type 0 where
  pub name : Text
  pub description : Text
  pub parameters : Json
  pub permissions : List Text

pub record ToolCall (Json : Type 0) : Type 0 where
  pub id : Text
  pub name : Text
  pub arguments : Json

pub record ToolResult (Json : Type 0) : Type 0 where
  pub call_id : Text
  pub tool_name : Text
  pub success : Bool
  pub output : Json
  pub duration_ms : ℕ
  pub side_effects : List Text

pub record ToolExecutor (Json : Type 0) : Type 0 where
  pub definition : ToolDefinition Json
  pub check_permission : Text → Result (Unit {0}) ToolError
  pub execute : ToolCall Json → Text → Outcome (Result (ToolResult Json) ToolError)

abbrev pub ToolRegistry : Type 0 → Type 0
ToolRegistry Json = HashMap Text (ToolExecutor Json)

module _ {Json : Type 0} where
  unfoldable pub new_registry : ToolRegistry Json
  new_registry = []

  unfoldable pub register : ToolExecutor Json → ToolRegistry Json → ToolRegistry Json
  register executor tools = HashMap.insert text_discrete executor.definition.name executor tools

  unfoldable pub get_definition : Text → ToolRegistry Json → Option (ToolDefinition Json)
  get_definition name tools =
      Option.map (λ (e : ToolExecutor Json). e.definition) (lookup text_discrete name tools)

  -- in the order in which the map iterates
  unfoldable pub definitions : ToolRegistry Json → List (ToolDefinition Json)
  definitions tools = map (λ (e : Text × ToolExecutor Json). e.1.definition) tools

  unfoldable pub len : ToolRegistry Json → ℕ
  len tools = length tools

  unfoldable pub is_empty : ToolRegistry Json → Bool
  unfolding len
  is_empty tools = len tools == 0

-- the calls that wait, the oldest first
pub record ToolCallManager (Json : Type 0) : Type 0 where
  pub registry : ToolRegistry Json
  pub pending_calls : List (ToolCall Json)

module _ {Json : Type 0} where
  unfoldable pub new : ToolRegistry Json → ToolCallManager Json
  new registry = record { registry = registry; pending_calls = [] }

  unfoldable pub enqueue : ToolCall Json → ToolCallManager Json → ToolCallManager Json
  enqueue call m = record m { pending_calls = m.pending_calls ++ call ∷ [] }

  unfoldable pub enqueue_batch : List (ToolCall Json) → ToolCallManager Json → ToolCallManager Json
  enqueue_batch [] m = m
  enqueue_batch (call ∷ calls) m = enqueue_batch calls (enqueue call m)

  -- `Vec::pop`: the last call, and the list without it
  unfoldable pub pop : List (ToolCall Json) → Option (ToolCall Json) × List (ToolCall Json)
  pop [] = (none, [])
  pop (call ∷ []) = (some call, [])
  pop (call ∷ next ∷ calls) = let rest = pop (next ∷ calls) in (rest.0, call ∷ rest.1)

  unfoldable pub next_call : ToolCallManager Json → ToolCallManager Json × Option (ToolCall Json)
  unfolding pop
  next_call m = (record m { pending_calls = (pop m.pending_calls).1 }, (pop m.pending_calls).0)

  unfoldable pub pending_count : ToolCallManager Json → ℕ
  pending_count m = length m.pending_calls

  unfoldable pub has_pending : ToolCallManager Json → Bool
  has_pending m = not (length m.pending_calls == 0)

  unfoldable pub clear : ToolCallManager Json → ToolCallManager Json
  clear m = record m { pending_calls = [] }

  module _ (elapsed : ToolCall Json → ℕ) (error_json : Text → Json) where
    -- the permission is asked for before the tool runs; the executor's code may panic
    unfoldable pub run_tool :
        ToolExecutor Json → ToolCall Json → Text → Outcome (Result (ToolResult Json) ToolError)
    run_tool executor call caller_id = elim (executor.check_permission caller_id) [
      | err e ↦ returns (err e)
      | ok _ ↦ elim (executor.execute call caller_id) [
        | panics ↦ panics
        | returns (err e) ↦ returns (err e)
        | returns (ok result) ↦ returns (ok (record result { duration_ms = elapsed call }))
      ]
    ]

    unfoldable pub execute :
        ToolRegistry Json → ToolCall Json → Text → Outcome (Result (ToolResult Json) ToolError)
    execute tools call caller_id = elim (lookup text_discrete call.name tools) [
      | none ↦ returns (err (not_found call.name))
      | some executor ↦ run_tool executor call caller_id
    ]

    -- the result of a call that failed
    unfoldable pub failed_result : ToolCall Json → ToolError → ToolResult Json
    failed_result call e = record {
      call_id = call.id;
      tool_name = call.name;
      success = false;
      output = error_json (display e);
      duration_ms = 0;
      side_effects = [];
    }

    unfoldable pub result_of : ToolRegistry Json → Text → ToolCall Json → Outcome (ToolResult Json)
    result_of tools caller_id call = elim (execute tools call caller_id) [
      | panics ↦ panics
      | returns (ok result) ↦ returns result
      | returns (err e) ↦ returns (failed_result call e)
    ]

    -- the loop over the calls, in their order
    unfoldable pub execute_loop :
        ToolRegistry Json
        → Text
        → List (ToolCall Json)
        → List (ToolResult Json)
        → Outcome (List (ToolResult Json))
    execute_loop tools caller_id [] results = returns results
    execute_loop tools caller_id (call ∷ calls) results = elim (result_of tools caller_id call) [
      | panics ↦ panics
      | returns result ↦ execute_loop tools caller_id calls (results ++ result ∷ [])
    ]

    unfoldable pub execute_all : Text → ToolCallManager Json → Outcome (List (ToolResult Json))
    execute_all caller_id m = execute_loop m.registry caller_id m.pending_calls []
