-- ===== src/Tools/Executors/Answers.antt =====
-- crates/sovalune-model-runtime/src/executors.rs: what the registry of the five tools answers.
use mathlib.Core.Logic.{ite}
use mathlib.Core.Path.{subst}
use mathlib.Core.Option.{some-injective}
use sovalune_core.Common.{
  ℕ, ◌≡◌, refl, sym, ◌∙◌, Bool, Option, some, [], ◌∷◌, ok, err, All, Option-cases, inl, inr, arith,
}
use sovalune_core.HashMap.{HashMap, lookup}
use sovalune_core.HashMap
use sovalune_core.Text.{Text}
use sovalune_core.Text.Equality.{text_discrete}
use sovalune_core.Json.{Json}
use sovalune_core.Tools.{
  ToolCall, ToolExecutor, ToolRegistry, new_registry, register, run_tool, execute, not_found,
}
use sovalune_core.Tools.Executors.{
  MemorySearchBackend, MemoryWriteBackend, memory_search_tool, memory_write_tool,
}
use sovalune_core.Tools.Executors.Code.{code_execute_tool, web_search_tool, run_tests_tool}
use sovalune_core.Tools.Executors.Registry.{create_registry}
use sovalune_core.Tools.Executors.Sound.{
  AsciiCode, Returns, IsSound, memory_search_tool-IsSound, memory_write_tool-IsSound,
  code_execute_tool-IsSound, web_search_tool-IsSound, run_tests_tool-IsSound,
}

-- an entry of the registry stands under the tool's name
abbrev SoundEntry : Text × ToolExecutor Json → Type 0
SoundEntry e = (e.0 ≡ e.1.definition.name) × IsSound e.1

insert-All :
    (e : ToolExecutor Json) (m : ToolRegistry Json)
    → IsSound e
    → All SoundEntry m
    → All SoundEntry (HashMap.insert text_discrete e.definition.name e m)
unfolding HashMap.insert
insert-All e [] h hs = ((refl, h), tt)
insert-All e (f ∷ m) h hs =
    elim (text_discrete e.definition.name f.0)
      as (λ d. All SoundEntry (
        ite d ((e.definition.name, e) ∷ m)
          (f ∷ HashMap.insert text_discrete e.definition.name e m))) [
            | yes same ↦ ((refl, h), hs.1)
            | no other ↦ (hs.0, insert-All e m h hs.1)
          ]

register-All :
    (e : ToolExecutor Json) (m : ToolRegistry Json)
    → IsSound e
    → All SoundEntry m
    → All SoundEntry (register e m)
unfolding register
register-All e m h hs = insert-All e m h hs

-- the split of a search on whether the first entry has the name
found_in :
    (name : Text) (f : Text × ToolExecutor Json) (rest : Option (ToolExecutor Json))
    (e : ToolExecutor Json) (d : Dec (name ≡ f.0))
    → ite d (some f.1) rest ≡ some e
    → SoundEntry f
    → (rest ≡ some e → (name ≡ e.definition.name) × IsSound e)
    → (name ≡ e.definition.name) × IsSound e
found_in name f rest e (yes p) found h later =
    subst (λ (x : ToolExecutor Json). (name ≡ x.definition.name) × IsSound x)
      (some-injective f.1 e found) (p ∙ h.0, h.1)
found_in name f rest e (no p) found h later = later found

lookup-All :
    (name : Text) (m : ToolRegistry Json) (e : ToolExecutor Json)
    → All SoundEntry m
    → lookup text_discrete name m ≡ some e
    → (name ≡ e.definition.name) × IsSound e
unfolding lookup
lookup-All name [] e h found = absurd (ground arith)
lookup-All name (f ∷ m) e h found =
    found_in name f (lookup text_discrete name m) e (text_discrete name f.0) found h.0
      (lookup-All name m e h.1)

-- the time that a call took does not change what it is
run_tool-Returns :
    (elapsed : ToolCall Json → ℕ) (error_json : Text → Json) (e : ToolExecutor Json)
    (call : ToolCall Json) (caller : Text)
    → (e.check_permission caller ≡ ok tt) × Returns e.definition.name call (e.execute call caller)
    → Returns e.definition.name call (run_tool elapsed error_json e call caller)
unfolding run_tool
run_tool-Returns elapsed error_json e call caller (allowed, (ok r, answer, named)) =
    (ok (record r { duration_ms = elapsed call }), rw (allowed, answer, run_tool) refl, named)
run_tool-Returns elapsed error_json e call caller (allowed, (err x, answer, named)) =
    (err x, rw (allowed, answer, run_tool) refl, tt)

module _ {F : Type 0} (print_f32 : F → Text) (logs : Bool) (search : MemorySearchBackend F)
    (write : MemoryWriteBackend) where
  create_registry-All : All SoundEntry (create_registry print_f32 logs search write)
  unfolding create_registry new_registry
  create_registry-All = register-All run_tests_tool _ run_tests_tool-IsSound (
      register-All web_search_tool _ web_search_tool-IsSound (
        register-All (code_execute_tool logs) _ (code_execute_tool-IsSound logs) (
          register-All (memory_write_tool write) _ (memory_write_tool-IsSound write) (
            register-All (memory_search_tool print_f32 search) []
              (memory_search_tool-IsSound print_f32 search) tt))))

  -- Whatever the stores of memories answer, and whoever calls, the registry answers every call whose
  -- code, if it has any, is ASCII: with an error, or with a success under the id of the call and the
  -- name that it asked for.
  pub create_registry-Returns :
      (elapsed : ToolCall Json → ℕ) (error_json : Text → Json) (call : ToolCall Json)
      (caller : Text)
      → AsciiCode call
      → Returns call.name call
          (execute elapsed error_json (create_registry print_f32 logs search write) call caller)
  unfolding execute
  create_registry-Returns elapsed error_json call caller a =
      let tools = create_registry print_f32 logs search write in
      elim (Option-cases (lookup text_discrete call.name tools)) [
        | inl missing ↦ (err (not_found call.name), rw (missing, execute) refl, tt)
        | inr (e, found) ↦
            let (same, sound) = lookup-All call.name tools e create_registry-All found in
            rw (found, execute)
              (subst (λ name. Returns name call (run_tool elapsed error_json e call caller))
                (sym same)
                (run_tool-Returns elapsed error_json e call caller (sound call caller a)))
      ]
