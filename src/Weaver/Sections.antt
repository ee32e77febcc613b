-- ===== src/Weaver/Sections.antt =====
-- crates/sovalune-vector-memory/src/context_weaver.rs: `add_section` and its budget.

use sovalune_core.Common.{
  ℕ, ◌+◌, ◌/◌, ◌%◌, ◌^◌, ◌≤◌, ◌<◌, ◌≡◌, refl, List, [], ◌∷◌, ◌++◌, All, returns, ltb, min,
  Bool-cases, inl, inr, arith,
}
use sovalune_core.Text.{Text, codes, byte_len}
use sovalune_core.Text.Ascii.{IsAscii}
use sovalune_core.Text.Slices.{byte_len-ascii, slice_to-ascii}
use sovalune_core.Weaver.{tag_name, remaining_chars, cut_content, add_contents, add_section}

-- an ASCII text of fewer than 2^63 bytes
abbrev pub Plain : Text → Type 0
Plain t = IsAscii t × (byte_len t < 2 ^ 63)

cut_content_returns :
    (budget used : ℕ) (context content : Text)
    → IsAscii content
    → (c : Text) × (cut_content budget used context content ≡ returns c)
unfolding cut_content
cut_content_returns budget used context content a =
    elim (Bool-cases (ltb 50 (remaining_chars budget used))) [
      | inl much ↦
          let (t, e) =
            slice_to-ascii content (min (remaining_chars budget used) (byte_len content)) a
              (omega (arith, byte_len-ascii content a)) in
          (context ++ (codes "- " ++ (t ++ codes "...\n")), rw (much, e, cut_content) refl)
      | inr little ↦ (context, rw (little, cut_content) refl)
    ]

add_contents_within :
    (budget used : ℕ) (context : Text) (contents : List Text)
    → budget < 2 ^ 63
    → used ≤ budget
    → All Plain contents
    → (c : Text) × (n : ℕ) × (add_contents budget used context contents ≡ returns (c, n))
      × (n ≤ budget)
unfolding add_contents
add_contents_within budget used context [] small le all = (context, used, refl, le)
add_contents_within budget used context (t ∷ ts) small le all =
    elim (Bool-cases (ltb budget ((used + byte_len t / 4) % 2 ^ 64))) [
      | inl over ↦
          let (c, e) = cut_content_returns budget used context t all.0.0 in
          (c, used, rw (over, e, add_contents) refl, le)
      | inr fits ↦
          let (c, n, e, le') =
            add_contents_within budget ((used + byte_len t / 4) % 2 ^ 64)
              (context ++ (codes "- " ++ (t ++ codes "\n"))) ts small (ground arith) all.1 in
          (c, n, rw (fits, add_contents) e, le')
    ]

-- For a budget below 2^63 and ASCII contents of fewer than 2^63 bytes, the section is added without a
-- panic, and the tokens counted for it are at most the budget.
pub add_section_within :
    (context tag : Text) (contents : List Text) (budget : ℕ)
    → budget < 2 ^ 63
    → All Plain contents
    → (c : Text) × (n : ℕ) × (add_section context tag contents budget ≡ returns (c, n))
      × (n ≤ budget)
unfolding add_section
add_section_within context tag [] budget small all = (context, 0, refl, omega arith)
add_section_within context tag (t ∷ ts) budget small all =
    let (c, n, e, le) =
      add_contents_within budget 0 (context ++ (codes "\n" ++ (tag ++ codes "\n"))) (t ∷ ts) small
        (omega arith) all in
    (c ++ (codes "</" ++ (tag_name tag ++ codes ">\n")), n, rw (e, add_section) refl, le)
