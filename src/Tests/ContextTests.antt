-- ===== src/Tests/ContextTests.antt =====
-- The context builder at concrete inputs.
use sovalune_core.Common.{ℕ, ◌+◌, ◌≤◌, ◌≡◌, ◌⊎◌, refl, false, List, [], ◌∷◌, All, returns, arith}
use sovalune_core.Text.{Text, codes, byte_len, is_empty}
use sovalune_core.Types.{ContextSection}
use sovalune_core.Context.{
  ContextBuilder, build, estimate_tokens, truncate_to_tokens, sort_by_priority,
}
use sovalune_core.Context.Sort.{IsSorted, total}
use sovalune_core.Context.Build.{build_fits}
use sovalune_core.Context.Order.{build-IsSorted, build_system_kept, is_system}
use sovalune_core.Context.Budget.{build_passes_limit}

abbrev section_of : Text → Text → ℕ → ℕ → ContextSection
section_of role content priority estimate = record {
  role = role;
  content = content;
  priority = priority;
  token_estimate = estimate;
}

abbrev system_section : ContextSection
system_section = section_of (codes "system") (codes "be brief") 0 2

abbrev memory_section : ContextSection
memory_section = section_of (codes "memory") (codes "a note that is long") 10 5

abbrev user_section : ContextSection
user_section = section_of (codes "user") (codes "hello") 50 2

abbrev builder : ℕ → List ContextSection → ContextBuilder
builder limit sections = record { max_tokens = limit; sections = sections; tokens_used = 0 }

abbrev cut_memory : ContextSection
cut_memory = section_of (codes "memory") (codes "a not...") 10 2

runs :
    build (builder 4 (user_section ∷ memory_section ∷ system_section ∷ []))
    ≡ returns (system_section ∷ cut_memory ∷ user_section ∷ [])
unfolding build sovalune_core.Context.build_loop sort_by_priority sovalune_core.Context.push_section
    sovalune_core.Text.text_eq sovalune_core.Context.cut truncate_to_tokens byte_len
    sovalune_core.Text.slice_to
runs = refl

build_fits_example :
    build (builder 9 (user_section ∷ memory_section ∷ system_section ∷ []))
    ≡ returns (sort_by_priority (user_section ∷ memory_section ∷ system_section ∷ []))
build_fits_example =
    build_fits (builder 9 (user_section ∷ memory_section ∷ system_section ∷ [])) (omega arith)
      (omega arith)

build-IsSorted_example : IsSorted (system_section ∷ cut_memory ∷ user_section ∷ [])
build-IsSorted_example =
    build-IsSorted (builder 4 (user_section ∷ memory_section ∷ system_section ∷ [])) _ runs

build_system_kept_example :
    All
      (λ t. (is_system t ≡ false) ⊎ (t.token_estimate ≤ 5))
      (system_section ∷ cut_memory ∷ user_section ∷ [])
build_system_kept_example =
    build_system_kept (λ t. t.token_estimate ≤ 5)
      (builder 4 (user_section ∷ memory_section ∷ system_section ∷ [])) _ (omega arith) runs

build_passes_limit_example :
    (r : List ContextSection) × (build (builder 2 (memory_section ∷ user_section ∷ [])) ≡ returns r)
    × (total r ≡ 2 + 2)
unfolding sovalune_core.Text.text_eq byte_len sovalune_core.Text.slice_to
build_passes_limit_example =
    build_passes_limit (builder 2 (memory_section ∷ user_section ∷ [])) memory_section user_section
      (codes "a not...") refl (omega arith) (omega arith) (omega arith) (omega arith) (omega arith)
      refl (unfold truncate_to_tokens in refl) refl (omega arith)
