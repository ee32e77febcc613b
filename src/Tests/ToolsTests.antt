-- ===== src/Tests/ToolsTests.antt =====
-- The manager of tool calls at concrete inputs, with texts in the place of JSON; the registry of the five tools; the parser.
use mathlib.Core.Option.{some-injective}
use sovalune_core.Common.{
  ℕ, ◌≡◌, refl, sym, true, false, Option, none, some, [], ◌∷◌, ◌++◌, replicate, returns, panics, ok,
  err, if◌then◌else◌, arith,
}
use sovalune_core.Text.{Text, codes, text_eq}
use sovalune_core.Text.Pieces.{lines}
use sovalune_core.Json.{Json, string, object_of, as_str, at, get}
use sovalune_core.Tools.{
  permission_denied, ToolCall, ToolExecutor, ToolCallManager, ToolRegistry, execute, execute_all,
}
use sovalune_core.Tools.Execution.{Replies, execute_all-AnswersAll}
use sovalune_core.Tools.Executors.Registry.{create_registry}
use sovalune_core.Tools.Executors.Sound.{Returns}
use sovalune_core.Tools.Executors.Answers.{create_registry-Returns}
use sovalune_core.Tools.Parser.{is_fence, parse_text_tool_calls}
use sovalune_core.Tools.Parsing.{printed_call, parse-printed_call}

-- a tool for one caller
abbrev reader : ToolExecutor Text
reader = record {
  definition = record { name = codes "read"; description = []; parameters = []; permissions = [] };
  check_permission =
      λ caller. if text_eq caller (codes "admin") then ok tt else err (permission_denied caller);
  execute = λ call caller. returns (
      ok (record {
        call_id = call.id;
        tool_name = call.name;
        success = true;
        output = call.arguments;
        duration_ms = 0;
        side_effects = [];
      }));
}

abbrev tool_call : Text → Text → ToolCall Text
tool_call id name = record { id = id; name = name; arguments = codes "x" }

abbrev manager : ToolCallManager Text
manager = record {
  registry = (codes "read", reader) ∷ [];
  pending_calls = tool_call (codes "1") (codes "read") ∷ tool_call (codes "2") (codes "write") ∷ [];
}

execute_all-AnswersAll_example :
    Replies
      (λ call. 5)
      (λ t. t)
      manager.registry
      (codes "admin")
      manager.pending_calls
      (execute_all (λ call. 5) (λ t. t) (codes "admin") manager)
execute_all-AnswersAll_example = execute_all-AnswersAll (λ call. 5) (λ t. t) (codes "admin") manager

-- the store of memories finds nothing
abbrev tools : ToolRegistry Json
tools =
    create_registry {F = ℕ} (λ n. []) true (λ query top_k. ok [])
      (λ content metadata. ok (codes "m1"))

abbrev code_call : Text → ToolCall Json
code_call code = record {
  id = codes "c1";
  name = codes "code_execute";
  arguments =
      object_of ((codes "code", string code) ∷ (codes "language", string (codes "bash")) ∷ []);
}

code_found :
    (code : Text)
    → as_str (at (codes "code") (code_call (codes "ls")).arguments) ≡ some code
    → code ≡ codes "ls"
unfolding object_of as_str at get text_eq
code_found code h = sym (some-injective (codes "ls") code h)

create_registry-Returns_example :
    Returns
      (codes "code_execute")
      (code_call (codes "ls"))
      (execute (λ call. 5) string tools (code_call (codes "ls")) (codes "ws_user"))
create_registry-Returns_example =
    create_registry-Returns {F = ℕ} (λ n. []) true (λ query top_k. ok [])
      (λ content metadata. ok (codes "m1")) (λ call. 5) string (code_call (codes "ls"))
      (codes "ws_user") (λ code h. rw (code_found code h) (omega arith))

-- the thirtieth byte of the code lies inside a character
code_cut :
    execute
      (λ call. 5)
      string
      (create_registry {F = ℕ}
        (λ n. [])
        false
        (λ query top_k. ok [])
        (λ content metadata. ok (codes "m1")))
      (code_call (b'#' ∷ replicate 20 0x44f))
      (codes "ws_user")
    ≡ panics
unfolding execute sovalune_core.HashMap.lookup create_registry sovalune_core.HashMap.insert
    sovalune_core.Text.Equality.text_discrete text_eq
    sovalune_core.Tools.Executors.memory_write_tool sovalune_core.Tools.Executors.memory_search_tool
    sovalune_core.Tools.Executors.Code.code_execute_tool
    sovalune_core.Tools.Executors.Code.web_search_tool
    sovalune_core.Tools.Executors.Code.run_tests_tool sovalune_core.Tools.run_tool as_str at
    object_of sovalune_core.Text.slice_to sovalune_core.Text.byte_len
code_cut = refl

-- a reader of JSON that knows one object
abbrev one_call : Text → Option Json
one_call t =
    if text_eq t (codes "{call}" ++ 10 ∷ [])
    then some (
        object_of
          ((codes "name", string (codes "run_tests")) ∷ (codes "arguments", object_of []) ∷ []))
    else none

not_fence : is_fence (codes "{call}") ≡ false
unfolding is_fence sovalune_core.Text.starts_with sovalune_core.Text.Pieces.trim_matches
    sovalune_core.Text.Pieces.trim_start sovalune_core.Text.is_whitespace
not_fence = refl

parse-printed_call_example :
    parse_text_tool_calls one_call (λ k. codes "00") (printed_call (codes "{call}"))
    ≡ record { id = codes "call_00"; name = codes "run_tests"; arguments = object_of [] } ∷ []
unfolding text_eq
parse-printed_call_example =
    parse-printed_call one_call (λ k. codes "00") (codes "{call}") (codes "run_tests")
      (object_of []) (omega arith) not_fence refl
