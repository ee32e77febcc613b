-- ===== src/Context/Order.antt =====
-- crates/sovalune-model-runtime/src/context.rs: the order of the sections of `build`, and its system
-- sections.
use sovalune_core.Common.{
  ℕ, ◌-◌, ◌≡◌, ◌⊎◌, refl, Bool, false, List, [], ◌∷◌, ◌++◌, All, All-append, returns, Outcome-cases,
  inl, inr, arith,
}
use mathlib.Core.List.{append_assoc, append-nil}
use sovalune_core.Text.{codes, text_eq}
use sovalune_core.Types.{ContextSection}
use sovalune_core.Context.{ContextBuilder, push_section, build_loop, build, sort_by_priority}
use sovalune_core.Context.Sort.{AtLeast, IsSorted, sort_by_priority-IsSorted, sort_by_priority-All}
use sovalune_core.Context.Build.{Pushed, shorten, push_section-Pushed}

-- An invariant of the rounds holds of what the loop returns.
pub build_loop_rule :
    (max : ℕ) (Inv : ℕ → List ContextSection → List ContextSection → Type 0)
    → ((used : ℕ) (s : ContextSection) (ss result : List ContextSection) (used' : ℕ)
          (out : List ContextSection)
        → Inv used result (s ∷ ss)
        → Pushed max used s used' out
        → Inv used' (result ++ out) ss)
    → (used : ℕ) (ss result r : List ContextSection) → Inv used result ss
    → build_loop max used ss result ≡ returns r
    → (u : ℕ) × Inv u r []
unfolding build_loop
build_loop_rule max Inv keep used [] result r inv h =
    let e : result ≡ r = ground arith in (used, rw (← e) inv)
build_loop_rule max Inv keep used (s ∷ ss) result r inv h =
    elim (Outcome-cases (push_section max used s)) [
      | inl fault ↦ absurd (ground arith)
      | inr ((used', out), done) ↦
          build_loop_rule max Inv keep used' ss (result ++ out) r
            (keep used s ss result used' out inv (push_section-Pushed max used s used' out done))
            (ground arith)
    ]

-- a section that is put in the place of one of its priority, or left out
AtLeast-swap :
    (p : ℕ) (xs : List ContextSection) (s t : ContextSection) (ys : List ContextSection)
    → t.priority ≡ s.priority
    → AtLeast p (xs ++ s ∷ ys)
    → AtLeast p (xs ++ t ∷ ys)
AtLeast-swap p [] s t ys e h = (omega arith, h.1)
AtLeast-swap p (x ∷ xs) s t ys e h = (h.0, AtLeast-swap p xs s t ys e h.1)

AtLeast-drop :
    (p : ℕ) (xs : List ContextSection) (s : ContextSection) (ys : List ContextSection)
    → AtLeast p (xs ++ s ∷ ys)
    → AtLeast p (xs ++ ys)
AtLeast-drop p [] s ys h = h.1
AtLeast-drop p (x ∷ xs) s ys h = (h.0, AtLeast-drop p xs s ys h.1)

IsSorted-swap :
    (xs : List ContextSection) (s t : ContextSection) (ys : List ContextSection)
    → t.priority ≡ s.priority
    → IsSorted (xs ++ s ∷ ys)
    → IsSorted (xs ++ t ∷ ys)
IsSorted-swap [] s t ys e h = (rw e h.0, h.1)
IsSorted-swap (x ∷ xs) s t ys e h =
    (AtLeast-swap x.priority xs s t ys e h.0, IsSorted-swap xs s t ys e h.1)

IsSorted-drop :
    (xs : List ContextSection) (s : ContextSection) (ys : List ContextSection)
    → IsSorted (xs ++ s ∷ ys)
    → IsSorted (xs ++ ys)
IsSorted-drop [] s ys h = h.1
IsSorted-drop (x ∷ xs) s ys h = (AtLeast-drop x.priority xs s ys h.0, IsSorted-drop xs s ys h.1)

IsSorted-round :
    (max used : ℕ) (s : ContextSection) (ss result : List ContextSection) (used' : ℕ)
    (out : List ContextSection)
    → IsSorted (result ++ s ∷ ss)
    → Pushed max used s used' out
    → IsSorted ((result ++ out) ++ ss)
IsSorted-round max used s ss result used' out h (inl (_, _, e)) =
    rw (e, append_assoc result (s ∷ []) ss) h
IsSorted-round max used s ss result used' out h (inr (inl (t, _, _, _, _, e))) =
    rw (e, append_assoc result (shorten s t (max - used) ∷ []) ss)
      (IsSorted-swap result s (shorten s t (max - used)) ss refl h)
IsSorted-round max used s ss result used' out h (inr (inr (_, e))) =
    rw (e, append-nil result) (IsSorted-drop result s ss h)

-- Where `build` returns, what it returns is in the order of the priorities.
pub build-IsSorted :
    (b : ContextBuilder) (r : List ContextSection) → build b ≡ returns r → IsSorted r
unfolding build
build-IsSorted b r h =
    let (_, sorted) =
      build_loop_rule b.max_tokens (λ used result ss. IsSorted (result ++ ss))
        (λ used s ss result used' out inv p.
          IsSorted-round b.max_tokens used s ss result used' out inv p)
        0 (sort_by_priority b.sections) [] r (sort_by_priority-IsSorted b.sections) h in
    rw append-nil at sorted

abbrev pub is_system : ContextSection → Bool
is_system s = text_eq s.role (codes "system")

module _ (P : ContextSection → Type 0) where
  abbrev SystemKept : ℕ → List ContextSection → List ContextSection → Type 0
  SystemKept used result ss = All (λ t. (is_system t ≡ false) ⊎ P t) result × All P ss

  system_round :
      (max used : ℕ) (s : ContextSection) (ss result : List ContextSection) (used' : ℕ)
      (out : List ContextSection)
      → SystemKept used result (s ∷ ss)
      → Pushed max used s used' out
      → SystemKept used' (result ++ out) ss
  system_round max used s ss result used' out h (inl (_, _, e)) =
      rw e
        (All-append (λ t. (is_system t ≡ false) ⊎ P t) result (s ∷ []) h.0 (inr h.1.0, tt), h.1.1)
  system_round max used s ss result used' out h (inr (inl (t, _, role, _, _, e))) = rw e (
    All-append (λ t. (is_system t ≡ false) ⊎ P t) result (shorten s t (max - used) ∷ []) h.0
        (inl role, tt),
    h.1.1,
  )
  system_round max used s ss result used' out h (inr (inr (_, e))) =
      rw (e, append-nil result) (h.0, h.1.1)

  -- Where `build` returns, whatever holds of every section added holds of every system section
  -- returned: they are not cut.
  pub build_system_kept :
      (b : ContextBuilder) (r : List ContextSection)
      → All P b.sections
      → build b ≡ returns r
      → All (λ t. (is_system t ≡ false) ⊎ P t) r
  unfolding build
  build_system_kept b r all h =
      (build_loop_rule b.max_tokens SystemKept (system_round b.max_tokens) 0
        (sort_by_priority b.sections) [] r (tt, sort_by_priority-All P b.sections all) h).1.0
