-- ===== src/Tools/Executors/Code.antt =====
-- crates/sovalune-model-runtime/src/executors.rs: the tools that run code, search the web and run tests.
-- `logs` says whether a `debug!` evaluates its arguments.
use mathlib.Core.Option
use sovalune_core.Common.{
  ℕ, Bool, true, false, none, some, List, [], ◌∷◌, ◌++◌, length, Outcome, returns, panics, err, min,
  if◌then◌else◌,
}
use sovalune_core.Text.{Text, codes, text_eq, byte_len, slice_to}
use sovalune_core.Text.Decimal.{print_nat}
use sovalune_core.Json.{
  Json, null, boolean, number, string, array, items, as_str, as_array, at, object_of,
}
use sovalune_core.Tools.{invalid_arguments, ToolDefinition, ToolCall, ToolExecutor}
use sovalune_core.Tools.Executors.{
  Answer, success, check_permission, with_argument, typed, with_default, schema,
}

unfoldable pub code_definition : ToolDefinition Json
code_definition = record {
  name = codes "code_execute";
  description = codes "Execute code in a sandboxed environment";
  parameters =
      schema
        ((codes "code", typed (codes "string"))
          ∷ (
            codes "language",
            object_of (
                (codes "type", string (codes "string"))
                ∷ (
                  codes "enum",
                  array (
                      items (
                        string (codes "python")
                        ∷ string (codes "javascript")
                        ∷ string (codes "bash")
                        ∷ [])),
                )
                ∷ []),
          )
          ∷ (codes "timeout_ms", with_default 5000)
          ∷ [])
        (codes "code" ∷ codes "language" ∷ []);
  permissions = codes "code:execute" ∷ [];
}

-- `&code[..n.min(code.len())]`
unfoldable pub head_of : ℕ → Text → Outcome Text
head_of n code = elim (slice_to code (min n (byte_len code))) [ none ↦ panics | some t ↦ returns t ]

-- the text that stands for the sandbox's output
unfoldable pub sandbox_output : ToolCall Json → Text → Text → Answer
unfolding head_of success
sandbox_output call prefix code = elim (head_of 30 code) [
  | panics ↦ panics
  | returns head ↦
      success (codes "code_execute") call
        (object_of (
          (codes "output", string (prefix ++ head))
          ∷ (codes "error", null)
          ∷ (codes "exit_code", number 0)
          ∷ []))
        []
]

unfoldable pub run_code : ToolCall Json → Text → Text → Answer
unfolding sandbox_output
run_code call language code =
    if text_eq language (codes "python")
    then sandbox_output call (codes "[sandbox] Python output for: ") code
    else if text_eq language (codes "javascript")
    then sandbox_output call (codes "[sandbox] JS output for: ") code
    else if text_eq language (codes "bash")
    then sandbox_output call (codes "[sandbox] Bash output for: ") code
    else returns (err (invalid_arguments (codes "Unsupported language: " ++ language)))

-- the `debug!` before the code runs
unfoldable pub logged_code : Bool → Text → Answer → Answer
unfolding head_of
logged_code false code next = next
logged_code true code next = elim (head_of 50 code) [ panics ↦ panics | returns _ ↦ next ]

unfoldable pub code_execute_tool : Bool → ToolExecutor Json
unfolding code_definition check_permission with_argument logged_code run_code
code_execute_tool logs = record {
  definition = code_definition;
  check_permission = check_permission;
  execute = λ call caller_id. with_argument (codes "code") call (λ code.
      with_argument (codes "language") call
        (λ language. logged_code logs code (run_code call language code)));
}

unfoldable pub web_definition : ToolDefinition Json
web_definition = record {
  name = codes "web_search";
  description = codes "Search the web for information";
  parameters =
      schema ((codes "query", typed (codes "string")) ∷ (codes "max_results", with_default 5) ∷ [])
        (codes "query" ∷ []);
  permissions = codes "web:search" ∷ [];
}

unfoldable pub web_search_tool : ToolExecutor Json
unfolding web_definition check_permission with_argument success
web_search_tool = record {
  definition = web_definition;
  check_permission = check_permission;
  execute = λ call caller_id. with_argument (codes "query") call (λ query.
      success (codes "web_search") call
        (object_of (
          (
            codes "results",
            array (
                items (
                  object_of (
                    (codes "title", string (codes "Result for: " ++ query))
                    ∷ (codes "url", string (codes "https://example.com"))
                    ∷ (codes "snippet", string (codes "Information about " ++ query))
                    ∷ [])
                  ∷ [])),
          )
          ∷ []))
        []);
}

unfoldable pub tests_definition : ToolDefinition Json
tests_definition = record {
  name = codes "run_tests";
  description = codes "Run tests on generated code";
  parameters =
      schema
        ((codes "code", typed (codes "string"))
          ∷ (codes "language", typed (codes "string"))
          ∷ (
            codes "test_cases",
            object_of (
                (codes "type", string (codes "array"))
                ∷ (codes "items", typed (codes "string"))
                ∷ []),
          )
          ∷ [])
        (codes "code" ∷ codes "language" ∷ []);
  permissions = codes "code:test" ∷ [];
}

-- the elements of an array that are texts
unfoldable pub texts : List Json → List Text
texts [] = []
texts (j ∷ js) = let rest = texts js in elim (as_str j) [ none ↦ rest | some t ↦ t ∷ rest ]

unfoldable pub test_cases : Json → List Text
unfolding texts
test_cases arguments = texts (Option.get_or (as_array (at (codes "test_cases") arguments)) [])

unfoldable pub run_tests_tool : ToolExecutor Json
unfolding tests_definition check_permission with_argument success test_cases
run_tests_tool = record {
  definition = tests_definition;
  check_permission = check_permission;
  execute = λ call caller_id. with_argument (codes "code") call (λ code.
      with_argument (codes "language") call (λ language.
        success (codes "run_tests") call
          (object_of (
            (codes "passed", boolean true)
            ∷ (
              codes "output",
              string (
                  codes "All "
                  ++ (print_nat (length (test_cases call.arguments)) ++ codes " tests passed")),
            )
            ∷ (codes "errors", array (items []))
            ∷ []))
          []));
}
