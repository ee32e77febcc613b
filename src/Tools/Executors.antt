-- ===== src/Tools/Executors.antt =====
-- crates/sovalune-model-runtime/src/executors.rs: what the tools share, and the tools of the memory.
-- `print_f32` is serde's writing of a score; a `usize` has 64 bits.
pub mod Code
pub mod Registry
pub mod Sound
pub mod Answers
use mathlib.Core.Option
use sovalune_core.Common.{
  ℕ, Bool, true, false, ◌||◌, Option, none, some, List, [], ◌∷◌, ◌++◌, map, length, Outcome,
  returns, panics, Result, ok, err, min, if◌then◌else◌,
}
use sovalune_core.Float.{Float}
use sovalune_core.Text.{Text, codes, text_eq, byte_len, slice_to}
use sovalune_core.Text.Decimal.{print_nat}
use sovalune_core.Json.{
  Json, null, boolean, number, decimal, string, array, items, as_str, as_u64, as_array, get, at,
  object_of,
}
use sovalune_core.Tools.{
  ToolError, invalid_arguments, execution_failed, ToolDefinition, ToolCall, ToolResult,
  ToolExecutor, ToolRegistry, new_registry, register,
}

abbrev pub Answer : Type 0
Answer = Outcome (Result (ToolResult Json) ToolError)

-- what a tool that succeeds answers
unfoldable pub success : Text → ToolCall Json → Json → List Text → Answer
success tool_name call output side_effects = returns (
    ok (record {
      call_id = call.id;
      tool_name = tool_name;
      success = true;
      output = output;
      duration_ms = 0;
      side_effects = side_effects;
    }))

-- every tool lets every caller pass
unfoldable pub check_permission : Text → Result (Unit {0}) ToolError
check_permission caller_id = ok tt

-- `arguments[key].as_str().ok_or(InvalidArguments("missing 'key'"))`
unfoldable pub with_argument : Text → ToolCall Json → (Text → Answer) → Answer
with_argument key call next = elim (as_str (at key call.arguments)) [
  | none ↦ returns (err (invalid_arguments (codes "missing '" ++ (key ++ codes "'"))))
  | some value ↦ next value
]

-- the schema of an argument
abbrev pub typed : Text → Json
typed type = object_of ((codes "type", string type) ∷ [])

abbrev described : Text → Text → Json
described type description =
    object_of ((codes "type", string type) ∷ (codes "description", string description) ∷ [])

abbrev pub with_default : ℕ → Json
with_default n =
    object_of ((codes "type", string (codes "integer")) ∷ (codes "default", number n) ∷ [])

-- the schema of the arguments of a tool
abbrev pub schema : List (Text × Json) → List Text → Json
schema properties required = object_of (
    (codes "type", string (codes "object"))
    ∷ (codes "properties", object_of properties)
    ∷ (codes "required", array (items (map string required)))
    ∷ [])

pub record MemorySearchResult (F : Type 0) : Type 0 where
  pub content : Text
  pub score : F
  pub tier : Text

-- the traits `MemorySearchBackend` and `MemoryWriteBackend`
abbrev pub MemorySearchBackend : Type 0 → Type 0
MemorySearchBackend F = Text → ℕ → Result (List (MemorySearchResult F)) Text

abbrev pub MemoryWriteBackend : Type 0
MemoryWriteBackend = Text → Json → Result Text Text

unfoldable pub search_definition : ToolDefinition Json
search_definition = record {
  name = codes "memory_search";
  description = codes "Search in Vector Memory for relevant context";
  parameters =
      schema
        ((codes "query", described (codes "string") (codes "Search query"))
          ∷ (
            codes "tier",
            object_of (
                (codes "type", string (codes "string"))
                ∷ (
                  codes "enum",
                  array (
                      items (
                        string (codes "verified_fact")
                        ∷ string (codes "consolidated_knowledge")
                        ∷ string (codes "raw_memory")
                        ∷ [])),
                )
                ∷ (codes "description", string (codes "Filter by memory tier"))
                ∷ []),
          )
          ∷ (codes "top_k", with_default 5)
          ∷ [])
        (codes "query" ∷ []);
  permissions = codes "memory:read" ∷ [];
}

-- `json!({ "results": results })`
unfoldable pub results_json : {F : Type 0} → (F → Text) → List (MemorySearchResult F) → Json
results_json {F} print_f32 results = object_of (
    (
      codes "results",
      array (
          items (
            map
              (λ (r : MemorySearchResult F). object_of (
                (codes "content", string r.content)
                ∷ (codes "score", decimal (print_f32 r.score))
                ∷ (codes "tier", string r.tier)
                ∷ []))
              results)),
    )
    ∷ [])

unfoldable pub memory_search_tool :
    {F : Type 0} → (F → Text) → MemorySearchBackend F → ToolExecutor Json
unfolding search_definition check_permission with_argument success results_json
memory_search_tool {F} print_f32 search = record {
  definition = search_definition;
  check_permission = check_permission;
  execute = λ call caller_id. with_argument (codes "query") call (λ query.
      elim (search query (Option.get_or (as_u64 (at (codes "top_k") call.arguments)) 5)) [
        | err e ↦ returns (err (execution_failed e))
        | ok results ↦ success (codes "memory_search") call (results_json print_f32 results) []
      ]);
}

unfoldable pub write_definition : ToolDefinition Json
write_definition = record {
  name = codes "memory_write";
  description = codes "Write a new raw memory entry";
  parameters =
      schema
        ((codes "content", typed (codes "string"))
          ∷ (codes "metadata", typed (codes "object"))
          ∷ [])
        (codes "content" ∷ []);
  permissions = codes "memory:write" ∷ [];
}

unfoldable pub memory_write_tool : MemoryWriteBackend → ToolExecutor Json
unfolding write_definition check_permission with_argument success
memory_write_tool write = record {
  definition = write_definition;
  check_permission = check_permission;
  execute = λ call caller_id. with_argument (codes "content") call (λ content.
      elim (write content (Option.get_or (get (codes "metadata") call.arguments) (object_of []))) [
        | err e ↦ returns (err (execution_failed e))
        | ok id ↦
            success (codes "memory_write") call (object_of ((codes "id", string id) ∷ []))
              ((codes "Created memory entry: " ++ id) ∷ [])
      ]);
}
