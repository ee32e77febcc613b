-- ===== src/Tools/Executors/Registry.antt =====
-- crates/sovalune-model-runtime/src/executors.rs: the registries of tools and the stub of a store.

use sovalune_core.Common.{Bool, [], ok}
use sovalune_core.Text.{Text}
use sovalune_core.Json.{Json}
use sovalune_core.Tools.{ToolRegistry, new_registry, register}
use sovalune_core.Tools.Executors.{
  MemorySearchBackend, MemoryWriteBackend, memory_search_tool, memory_write_tool,
}
use sovalune_core.Tools.Executors.Code.{code_execute_tool, web_search_tool, run_tests_tool}

-- `StubMemoryStore`; `fresh` is the new identifier
unfoldable pub stub_search : {F : Type 0} → MemorySearchBackend F
stub_search query top_k = ok []

unfoldable pub stub_write : Text → MemoryWriteBackend
stub_write fresh content metadata = ok fresh

module _ {F : Type 0} (print_f32 : F → Text) (logs : Bool) where
  unfoldable pub create_registry : MemorySearchBackend F → MemoryWriteBackend → ToolRegistry Json
  unfolding register new_registry
  create_registry search write = register run_tests_tool (
      register web_search_tool (
        register (code_execute_tool logs) (
          register (memory_write_tool write)
            (register (memory_search_tool print_f32 search) new_registry))))

  unfoldable pub create_default_registry : Text → ToolRegistry Json
  unfolding register new_registry stub_search stub_write
  create_default_registry fresh = register run_tests_tool (
      register web_search_tool (
        register (code_execute_tool logs) (
          register (memory_write_tool (stub_write fresh))
            (register (memory_search_tool print_f32 stub_search) new_registry))))
