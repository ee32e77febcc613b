-- ===== src/Context/Build.antt =====
-- crates/sovalune-model-runtime/src/context.rs: the rounds of `build`.
use sovalune_core.Common.{
  ℕ, ◌+◌, ◌-◌, ◌%◌, ◌^◌, ◌≤◌, ◌<◌, ◌≡◌, ◌⊎◌, refl, sym, ap, ◌∙◌, false, not, ◌&&◌, List, [], ◌∷◌,
  ◌++◌, returns, ltb, leb, Bool-cases, Outcome-cases, inl, inr, arith,
}
use mathlib.Core.List.{append_assoc, append-nil}
use sovalune_core.Text.{Text, codes, text_eq, is_empty}
use sovalune_core.Types.{ContextSection}
use sovalune_core.Context.{
  ContextBuilder, wadd, truncate_to_tokens, cut, push_section, build_loop, build, sort_by_priority,
}
use sovalune_core.Context.Sort.{total, total-sort_by_priority}

-- a section that fits is pushed whole
pub push_section_fits :
    (max used : ℕ) (s : ContextSection)
    → max < 2 ^ 64
    → used + s.token_estimate ≤ max
    → push_section max used s ≡ returns (used + s.token_estimate, s ∷ [])
unfolding push_section
push_section_fits max used s small h =
    let e : (used + s.token_estimate) % 2 ^ 64 ≡ used + s.token_estimate = omega arith in
    ground (arith, e)

build_loop_fits :
    (max used : ℕ) (ss result : List ContextSection)
    → max < 2 ^ 64
    → used + total ss ≤ max
    → build_loop max used ss result ≡ returns (result ++ ss)
unfolding build_loop
build_loop_fits max used [] result small h = ap returns (sym (append-nil result))
build_loop_fits max used (s ∷ ss) result small h =
    rw (push_section_fits max used s small (omega arith), build_loop)
      (build_loop_fits max (used + s.token_estimate) ss (result ++ s ∷ []) small (omega arith)
        ∙ ap returns (append_assoc result (s ∷ []) ss))

-- Where the estimates sum up to at most the limit, which is below 2^64, `build` returns all
-- sections, sorted.
pub build_fits :
    (b : ContextBuilder)
    → b.max_tokens < 2 ^ 64
    → total b.sections ≤ b.max_tokens
    → build b ≡ returns (sort_by_priority b.sections)
unfolding build
build_fits b small h =
    build_loop_fits b.max_tokens 0 (sort_by_priority b.sections) [] small
      (omega (arith, total-sort_by_priority b.sections))

-- what one round may push: the section, the section cut to what remains, or nothing
abbrev pub shorten : ContextSection → Text → ℕ → ContextSection
shorten s t remaining = record s { content = t; token_estimate = remaining }

abbrev pub Pushed : ℕ → ℕ → ContextSection → ℕ → List ContextSection → Type 0
Pushed max used s used' out =
    ((used' ≡ wadd used s.token_estimate) × (used' ≤ max) × (out ≡ s ∷ []))
    ⊎ (((t : Text) × (used' ≡ used)
          × (text_eq s.role (codes "system") ≡ false)
          × (used < max)
          × (truncate_to_tokens s.content (max - used) ≡ returns t)
          × (out ≡ shorten s t (max - used) ∷ []))
        ⊎ ((used' ≡ used) × (out ≡ [])))

cut-Pushed :
    (max used : ℕ) (s : ContextSection) (out : List ContextSection)
    → text_eq s.role (codes "system") ≡ false
    → used < max
    → cut s (max - used) ≡ returns out
    → Pushed max used s used out
unfolding cut
cut-Pushed max used s out role less h =
    elim (Outcome-cases (truncate_to_tokens s.content (max - used))) [
      | inl fault ↦ absurd (ground arith)
      | inr (t, done) ↦ elim (Bool-cases (is_empty t)) [
        | inl gone ↦ inr (inr (refl, ground arith))
        | inr left ↦ inr (inl (t, refl, role, less, done, ground arith))
      ]
    ]

pub push_section-Pushed :
    (max used : ℕ) (s : ContextSection) (used' : ℕ) (out : List ContextSection)
    → push_section max used s ≡ returns (used', out)
    → Pushed max used s used' out
unfolding push_section
push_section-Pushed max used s used' out h =
    elim (Bool-cases (leb (wadd used s.token_estimate) max)) [
      | inl fits ↦ inl (ground arith, ground arith, ground arith)
      | inr over ↦ elim (Bool-cases (not (text_eq s.role (codes "system")) && ltb used max)) [
        | inr passed ↦ inr (inr (ground arith, ground arith))
        | inl tried ↦ elim (Outcome-cases (cut s (max - used))) [
          | inl fault ↦ absurd (ground arith)
          | inr (out', done) ↦
              let e : used' ≡ used = ground arith in
              let e' : out ≡ out' = ground arith in
              rw (e, e') (cut-Pushed max used s out' (ground arith) (ground arith) done)
        ]
      ]
    ]
