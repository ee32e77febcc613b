-- ===== src/Weaver.antt =====
-- crates/sovalune-vector-memory/src/context_weaver.rs: `ContextWeaver`, by what its sections hold.
-- A search in the store answers, for a tier, a least confidence in tenths and a limit, the contents
-- found. A `usize` has 64 bits and wraps.
pub mod Sections
use sovalune_core.Common.{
  ℕ, ◌+◌, ◌-◌, ◌*◌, ◌/◌, ◌%◌, ◌^◌, Bool, true, false, ◌&&◌, ◌==◌, none, some, List, [], ◌∷◌, ◌++◌,
  take, Outcome, returns, panics, Result, ok, err, ltb, min, if◌then◌else◌,
}
use mathlib.Core.Option
use mathlib.Core.List.{reverse}
use sovalune_core.Text.{Text, codes, byte_len, slice_to}
use sovalune_core.Text.Pieces.{trim_start}

pub data MemoryTier : Type 0 where
  raw consolidated verified : MemoryTier

-- `tag.trim_start_matches('<').trim_end_matches('>')`
unfoldable pub tag_name : Text → Text
tag_name tag = reverse (trim_start (λ c. c == b'>') (reverse (trim_start (λ c. c == b'<') tag)))

-- what is left of the budget, in characters
unfoldable pub remaining_chars : ℕ → ℕ → ℕ
remaining_chars budget used = ((budget + 2 ^ 64 - used) % 2 ^ 64 * 4) % 2 ^ 64

-- the start of a content that does not fit, if enough of the budget is left
unfoldable pub cut_content : ℕ → ℕ → Text → Text → Outcome Text
cut_content budget used context content =
    if ltb 50 (remaining_chars budget used)
    then elim (slice_to content (min (remaining_chars budget used) (byte_len content))) [
      | none ↦ panics
      | some truncated ↦ returns (context ++ (codes "- " ++ (truncated ++ codes "...\n")))
    ]
    else returns context

-- the loop over the contents: the text with what was added, and the tokens used
unfoldable pub add_contents : ℕ → ℕ → Text → List Text → Outcome (Text × ℕ)
add_contents budget used context [] = returns (context, used)
add_contents budget used context (content ∷ contents) =
    elim (ltb budget ((used + byte_len content / 4) % 2 ^ 64)) [
      | true ↦ elim (cut_content budget used context content) [
        | panics ↦ panics
        | returns context' ↦ returns (context', used)
      ]
      | false ↦
          add_contents budget ((used + byte_len content / 4) % 2 ^ 64)
            (context ++ (codes "- " ++ (content ++ codes "\n"))) contents
    ]

unfoldable pub add_section : Text → Text → List Text → ℕ → Outcome (Text × ℕ)
add_section context tag [] budget = returns (context, 0)
add_section context tag (content ∷ contents) budget =
    elim (add_contents budget 0 (context ++ (codes "\n" ++ (tag ++ codes "\n")))
      (content ∷ contents)) [
        | panics ↦ panics
        | returns (context', used) ↦
            returns (context' ++ (codes "</" ++ (tag_name tag ++ codes ">\n")), used)
      ]

unfoldable pub add_history : Text → List (Text × Text) → Text
add_history context [] = context
add_history context ((role, content) ∷ history) =
    add_history (context ++ (role ++ (codes ": " ++ (content ++ codes "\n")))) history

-- the last five entries, the newest first
unfoldable pub with_history : Text → List (Text × Text) → Text
with_history context [] = context
with_history context (entry ∷ history) =
    add_history (context ++ codes "\n<recent_context>\n") (take 5 (reverse (entry ∷ history)))
    ++ codes "</recent_context>\n"

-- a search and the section of what it finds: the error of the search, or the text and what is left
unfoldable pub weave : Result (List Text) Text → Text → Text → ℕ → Outcome (Result (Text × ℕ) Text)
weave (err e) context tag budget = returns (err e)
weave (ok found) context tag budget = elim (add_section context tag found budget) [
  | panics ↦ panics
  | returns (context', used) ↦ returns (ok (context', budget - used))
]

module _ (search : MemoryTier → ℕ → ℕ → Result (List Text) Text) where
  unfoldable pub weave_raw : Bool → Text → ℕ → Outcome (Result (Text × ℕ) Text)
  weave_raw include_raw context budget =
      if include_raw && ltb 100 budget
      then weave (search raw 4 5) context (codes "<recent_discoveries>") budget
      else returns (ok (context, budget))

  -- the three sections in their order, the first error ending the chain
  unfoldable pub build_context : ℕ → List (Text × Text) → Bool → Outcome (Result Text Text)
  build_context max_memory_tokens history include_raw =
      elim (weave (search verified 8 10) [] (codes "<verified_facts>") max_memory_tokens) [
        | panics ↦ panics
        | returns (err e) ↦ returns (err e)
        | returns (ok (context, budget)) ↦
            elim (weave (search consolidated 6 10) context (codes "<project_conventions>") budget) [
              | panics ↦ panics
              | returns (err e) ↦ returns (err e)
              | returns (ok (context', budget')) ↦ elim (weave_raw include_raw context' budget') [
                | panics ↦ panics
                | returns (err e) ↦ returns (err e)
                | returns (ok (context'', _)) ↦ returns (ok (with_history context'' history))
              ]
            ]
      ]
