-- ===== src/Tools/Executors/Sound.antt =====
-- crates/sovalune-model-runtime/src/executors.rs: what each tool answers.

use mathlib.Core.Option.{some-injective}
use mathlib.Core.Option
use sovalune_core.Common.{
  ℕ, ◌≡◌, refl, Bool, true, false, some, List, [], ◌∷◌, ◌++◌, returns, Result, ok, err, min,
  if◌then◌else◌, Option-cases, inl, inr, arith,
}
use sovalune_core.Text.{Text, codes, byte_len, text_eq}
use sovalune_core.Text.Ascii.{IsAscii}
use sovalune_core.Text.Slices.{byte_len-ascii, slice_to-ascii}
use sovalune_core.Json.{Json, string, as_str, as_u64, get, at, object_of}
use sovalune_core.Tools.{
  ToolError, ToolCall, ToolResult, ToolExecutor, invalid_arguments, execution_failed,
}
use sovalune_core.Tools.Executors.{
  Answer, success, check_permission, with_argument, MemorySearchBackend, MemoryWriteBackend,
  MemorySearchResult, results_json, memory_search_tool, memory_write_tool, search_definition,
  write_definition,
}
use sovalune_core.Tools.Executors.Code.{
  head_of, sandbox_output, run_code, logged_code, code_execute_tool, web_search_tool,
  run_tests_tool, code_definition, web_definition, tests_definition,
}

-- the code of a call, if there is any, is ASCII
abbrev pub AsciiCode : ToolCall Json → Type 0
AsciiCode call =
    (code : Text) → as_str (at (codes "code") call.arguments) ≡ some code → IsAscii code

-- a result under the id of the call and the name of the tool
abbrev pub Named : Text → ToolCall Json → Result (ToolResult Json) ToolError → Type 0
Named name call (err e) = Unit
Named name call (ok r) = (r.call_id ≡ call.id) × (r.tool_name ≡ name) × (r.success ≡ true)

abbrev pub Returns : Text → ToolCall Json → Answer → Type 0
Returns name call answer =
    (r : Result (ToolResult Json) ToolError) × (answer ≡ returns r) × Named name call r

success-Returns :
    (name : Text) (call : ToolCall Json) (output : Json) (effects : List Text)
    → Returns name call (success name call output effects)
unfolding success
success-Returns name call output effects = (ok _, refl, (refl, refl, refl))

with_argument-Returns :
    (name key : Text) (call : ToolCall Json) (next : Text → Answer)
    → ((value : Text)
        → as_str (at key call.arguments) ≡ some value
        → Returns name call (next value))
    → Returns name call (with_argument key call next)
unfolding with_argument
with_argument-Returns name key call next h = elim (Option-cases (as_str (at key call.arguments))) [
  | inl missing ↦
      let refused = invalid_arguments (codes "missing '" ++ (key ++ codes "'")) in
      (err refused, rw (missing, with_argument) refl, tt)
  | inr (value, found) ↦ rw (found, with_argument) (h value found)
]

head_of-ascii : (n : ℕ) (code : Text) → IsAscii code → (t : Text) × (head_of n code ≡ returns t)
unfolding head_of
head_of-ascii n code a =
    let (t, e) =
      slice_to-ascii code (min n (byte_len code)) a (omega (arith, byte_len-ascii code a)) in
    (t, rw (e, head_of) refl)

sandbox_output-Returns :
    (call : ToolCall Json) (prefix code : Text)
    → IsAscii code
    → Returns (codes "code_execute") call (sandbox_output call prefix code)
unfolding sandbox_output
sandbox_output-Returns call prefix code a =
    let (t, e) = head_of-ascii 30 code a in
    rw (e, sandbox_output) (success-Returns (codes "code_execute") call _ [])

if-Returns :
    (name : Text) (call : ToolCall Json) (test : Bool) (a b : Answer)
    → Returns name call a
    → Returns name call b
    → Returns name call (if test then a else b)
if-Returns name call true a b h k = h
if-Returns name call false a b h k = k

run_code-Returns :
    (call : ToolCall Json) (language code : Text)
    → IsAscii code
    → Returns (codes "code_execute") call (run_code call language code)
unfolding run_code
run_code-Returns call language code a =
    let name = codes "code_execute" in
    let returned = λ (prefix : Text). sandbox_output-Returns call prefix code a in
    let refused = invalid_arguments (codes "Unsupported language: " ++ language) in
    if-Returns name call (text_eq language (codes "python")) _ _
      (returned (codes "[sandbox] Python output for: "))
      (if-Returns name call (text_eq language (codes "javascript")) _ _
        (returned (codes "[sandbox] JS output for: "))
        (if-Returns name call (text_eq language (codes "bash")) _ _
          (returned (codes "[sandbox] Bash output for: ")) (err refused, refl, tt)))

logged_code_lem :
    (logs : Bool) (code : Text) (next : Answer) → IsAscii code → logged_code logs code next ≡ next
unfolding logged_code
logged_code_lem false code next a = refl
logged_code_lem true code next a = let (t, e) = head_of-ascii 50 code a in rw (e, logged_code) refl

-- a tool that answers every call with ASCII code, and names its results
abbrev pub IsSound : ToolExecutor Json → Type 0
IsSound e =
    (call : ToolCall Json) (caller : Text)
    → AsciiCode call
    → (e.check_permission caller ≡ ok tt) × Returns e.definition.name call (e.execute call caller)

module _ {F : Type 0} (print_f32 : F → Text) where
  searched-Returns :
      (call : ToolCall Json) (found : Result (List (MemorySearchResult F)) Text)
      → Returns (codes "memory_search") call (elim found as (λ _. Answer) [
        | err e ↦ returns (err (execution_failed e))
        | ok results ↦ success (codes "memory_search") call (results_json print_f32 results) []
      ])
  searched-Returns call (err e) = (err (execution_failed e), refl, tt)
  searched-Returns call (ok results) = success-Returns (codes "memory_search") call _ []

  pub memory_search_tool-IsSound :
      (search : MemorySearchBackend F) → IsSound (memory_search_tool print_f32 search)
  unfolding memory_search_tool check_permission search_definition
  memory_search_tool-IsSound search call caller a = (
    refl,
    with_argument-Returns (codes "memory_search") (codes "query") call _ (λ query found.
        searched-Returns call
          (search query (Option.get_or (as_u64 (at (codes "top_k") call.arguments)) 5))),
  )

written-Returns :
    (call : ToolCall Json) (written : Result Text Text)
    → Returns (codes "memory_write") call (elim written as (λ _. Answer) [
      | err e ↦ returns (err (execution_failed e))
      | ok id ↦
          success
            (codes "memory_write")
            call
            (object_of ((codes "id", string id) ∷ []))
            ((codes "Created memory entry: " ++ id) ∷ [])
    ])
written-Returns call (err e) = (err (execution_failed e), refl, tt)
written-Returns call (ok id) = success-Returns (codes "memory_write") call _ _

pub memory_write_tool-IsSound : (write : MemoryWriteBackend) → IsSound (memory_write_tool write)
unfolding memory_write_tool check_permission write_definition
memory_write_tool-IsSound write call caller a = (
  refl,
  with_argument-Returns (codes "memory_write") (codes "content") call _ (λ content found.
      written-Returns call
        (write content (Option.get_or (get (codes "metadata") call.arguments) (object_of [])))),
)

pub code_execute_tool-IsSound : (logs : Bool) → IsSound (code_execute_tool logs)
unfolding code_execute_tool check_permission code_definition
code_execute_tool-IsSound logs call caller a = (
  refl,
  with_argument-Returns (codes "code_execute") (codes "code") call _ (λ code found.
      with_argument-Returns (codes "code_execute") (codes "language") call _ (λ language named.
        rw (logged_code_lem logs code (run_code call language code) (a code found))
          (run_code-Returns call language code (a code found)))),
)

pub web_search_tool-IsSound : IsSound web_search_tool
unfolding web_search_tool check_permission web_definition
web_search_tool-IsSound call caller a = (
  refl,
  with_argument-Returns (codes "web_search") (codes "query") call _
      (λ query found. success-Returns (codes "web_search") call _ []),
)

pub run_tests_tool-IsSound : IsSound run_tests_tool
unfolding run_tests_tool check_permission tests_definition
run_tests_tool-IsSound call caller a = (
  refl,
  with_argument-Returns (codes "run_tests") (codes "code") call _ (λ code found.
      with_argument-Returns (codes "run_tests") (codes "language") call _
        (λ language named. success-Returns (codes "run_tests") call _ [])),
)
