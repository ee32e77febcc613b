-- ===== src/Context.antt =====
-- crates/sovalune-model-runtime/src/context.rs: `ContextBuilder`.
-- A `usize` has 64 bits and wraps. `sort_by_key` is a stable sort, modelled as insertion sort.
-- `to_uppercase` follows the tables of Unicode and is a parameter.
pub mod Sort
pub mod Build
pub mod Order
pub mod Budget
use sovalune_core.Common.{
  ℕ, ◌+◌, ◌-◌, ◌*◌, ◌/◌, ◌%◌, ◌^◌, Bool, true, false, not, ◌&&◌, Option, none, some, List, [], ◌∷◌,
  ◌++◌, Outcome, returns, panics, ltb, leb, if◌then◌else◌,
}
use sovalune_core.Text.{Text, codes, byte_len, text_eq, slice_to, is_empty}
use sovalune_core.Types.{ContextSection}

pub record ContextBuilder : Type 0 where
  pub max_tokens : ℕ
  pub sections : List ContextSection
  pub tokens_used : ℕ

unfoldable pub new : ℕ → ContextBuilder
new max_tokens = record { max_tokens = max_tokens; sections = []; tokens_used = 0 }

unfoldable pub with_default_limit : ContextBuilder
unfolding new
with_default_limit = new 128000

-- `usize` arithmetic
abbrev pub wadd : ℕ → ℕ → ℕ
wadd a b = (a + b) % 2 ^ 64

-- `text.len().div_ceil(4)`
unfoldable pub estimate_tokens : Text → ℕ
estimate_tokens text = (byte_len text + 3) / 4

unfoldable pub add_section : ContextSection → ContextBuilder → ContextBuilder
add_section s b = record b {
  tokens_used = wadd b.tokens_used s.token_estimate;
  sections = b.sections ++ s ∷ [];
}

unfoldable pub with_system : Text → ContextBuilder → ContextBuilder
unfolding add_section estimate_tokens
with_system content = add_section (record {
  role = codes "system";
  content = content;
  priority = 0;
  token_estimate = estimate_tokens content;
})

unfoldable pub tier_priority : Text → ℕ
tier_priority tier =
    if text_eq tier (codes "verified")
    then 10
    else if text_eq tier (codes "consolidated")
    then 20
    else if text_eq tier (codes "raw")
    then 30
    else 25

unfoldable pub with_memory_section : (Text → Text) → Text → Text → ContextBuilder → ContextBuilder
unfolding add_section estimate_tokens tier_priority
with_memory_section to_uppercase tier content = add_section (record {
  role = codes "memory";
  content = codes "[" ++ (to_uppercase tier ++ (codes "] " ++ content));
  priority = tier_priority tier;
  token_estimate = estimate_tokens content;
})

unfoldable pub with_history_entry : Text → Text → ContextBuilder → ContextBuilder
unfolding add_section estimate_tokens
with_history_entry role content = add_section (record {
  role = codes "history";
  content = role ++ (codes ": " ++ content);
  priority = 40;
  token_estimate = estimate_tokens content;
})

unfoldable pub with_user_input : Text → ContextBuilder → ContextBuilder
unfolding add_section estimate_tokens
with_user_input content = add_section (record {
  role = codes "user";
  content = content;
  priority = 50;
  token_estimate = estimate_tokens content;
})

unfoldable pub with_section : ContextSection → ContextBuilder → ContextBuilder
unfolding add_section
with_section = add_section

unfoldable pub remaining_capacity : ContextBuilder → ℕ
remaining_capacity b = b.max_tokens - b.tokens_used

-- the stable sort: an element goes in front of those of its own priority that stood behind it
unfoldable pub insert_sorted : ContextSection → List ContextSection → List ContextSection
insert_sorted s [] = s ∷ []
insert_sorted s (t ∷ ts) =
    let rest = insert_sorted s ts in if leb s.priority t.priority then s ∷ t ∷ ts else t ∷ rest

unfoldable pub sort_by_priority : List ContextSection → List ContextSection
unfolding insert_sorted
sort_by_priority [] = []
sort_by_priority (s ∷ ss) = insert_sorted s (sort_by_priority ss)

-- a slice that ends inside a character panics
unfoldable pub truncate_to_tokens : Text → ℕ → Outcome Text
truncate_to_tokens text max_tokens =
    let max_chars = (max_tokens * 4) % 2 ^ 64 in
    if leb (byte_len text) max_chars then returns text else elim (slice_to text (max_chars - 3)) [
      | none ↦ panics
      | some prefix ↦ returns (prefix ++ codes "...")
    ]

-- the section cut to what remains, if anything of it is left
unfoldable pub cut : ContextSection → ℕ → Outcome (List ContextSection)
cut s remaining = elim (truncate_to_tokens s.content remaining) [
  | panics ↦ panics
  | returns truncated ↦ returns (
      if not (is_empty truncated)
      then record s { content = truncated; token_estimate = remaining } ∷ []
      else [])
]

-- one round of the loop of `build`: the tokens used after it, and what it pushes
unfoldable pub push_section : ℕ → ℕ → ContextSection → Outcome (ℕ × List ContextSection)
push_section max_tokens used s =
    if leb (wadd used s.token_estimate) max_tokens
    then returns (wadd used s.token_estimate, s ∷ [])
    else if not (text_eq s.role (codes "system")) && ltb used max_tokens
    then elim (cut s (max_tokens - used)) [ panics ↦ panics | returns out ↦ returns (used, out) ]
    else returns (used, [])

unfoldable pub build_loop :
    ℕ → ℕ → List ContextSection → List ContextSection → Outcome (List ContextSection)
build_loop max_tokens used [] result = returns result
build_loop max_tokens used (s ∷ ss) result = elim (push_section max_tokens used s) [
  | panics ↦ panics
  | returns (used', out) ↦ build_loop max_tokens used' ss (result ++ out)
]

unfoldable pub build : ContextBuilder → Outcome (List ContextSection)
build b = build_loop b.max_tokens 0 (sort_by_priority b.sections) []
