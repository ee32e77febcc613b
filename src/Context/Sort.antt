-- ===== src/Context/Sort.antt =====
-- crates/sovalune-model-runtime/src/context.rs: `sort_by_priority`.
use mathlib.Core.List.{Perm}
use mathlib.Core.List.Perm
use sovalune_core.Common.{
  ℕ, ◌+◌, ◌≤◌, ◌≡◌, refl, List, [], ◌∷◌, All, leb, Bool-cases, inl, inr, arith,
}
use sovalune_core.Types.{ContextSection}
use sovalune_core.Context.{insert_sorted, sort_by_priority}

abbrev pub AtLeast : ℕ → List ContextSection → Type 0
AtLeast p = All (λ t. p ≤ t.priority)

abbrev pub IsSorted : List ContextSection → Type 0
IsSorted [] = Unit
IsSorted (s ∷ ss) = AtLeast s.priority ss × IsSorted ss

AtLeast-weaken : (p q : ℕ) (ss : List ContextSection) → p ≤ q → AtLeast q ss → AtLeast p ss
AtLeast-weaken p q [] le h = tt
AtLeast-weaken p q (s ∷ ss) le h = (omega arith, AtLeast-weaken p q ss le h.1)

insert_sorted-AtLeast :
    (p : ℕ) (s : ContextSection) (ts : List ContextSection)
    → p ≤ s.priority
    → AtLeast p ts
    → AtLeast p (insert_sorted s ts)
unfolding insert_sorted
insert_sorted-AtLeast p s [] le h = (le, tt)
insert_sorted-AtLeast p s (t ∷ ts) le h = ground (arith, insert_sorted-AtLeast p s ts le h.1)

insert_sorted-IsSorted :
    (s : ContextSection) (ts : List ContextSection) → IsSorted ts → IsSorted (insert_sorted s ts)
unfolding insert_sorted
insert_sorted-IsSorted s [] h = (tt, tt)
insert_sorted-IsSorted s (t ∷ ts) h = elim (Bool-cases (leb s.priority t.priority)) [
  | inl le ↦ rw le ((ground arith, AtLeast-weaken s.priority t.priority ts (ground arith) h.0), h)
  | inr gt ↦
      rw gt
        (insert_sorted-AtLeast t.priority s ts (ground arith) h.0, insert_sorted-IsSorted s ts h.1)
]

-- The sections come in the order of their priorities, 0 first.
pub sort_by_priority-IsSorted : (ss : List ContextSection) → IsSorted (sort_by_priority ss)
unfolding sort_by_priority
sort_by_priority-IsSorted [] = tt
sort_by_priority-IsSorted (s ∷ ss) =
    insert_sorted-IsSorted s (sort_by_priority ss) (sort_by_priority-IsSorted ss)

insert_sorted-perm :
    (s : ContextSection) (ts : List ContextSection) → Perm (insert_sorted s ts) (s ∷ ts)
unfolding insert_sorted
insert_sorted-perm s [] = Perm.refl (s ∷ [])
insert_sorted-perm s (t ∷ ts) = elim (Bool-cases (leb s.priority t.priority)) [
  | inl le ↦ rw le (Perm.refl (s ∷ t ∷ ts))
  | inr gt ↦ rw gt (Perm.trans (Perm.cons t (insert_sorted-perm s ts)) (Perm.swap s t ts))
]

pub sort_by_priority-perm : (ss : List ContextSection) → Perm (sort_by_priority ss) ss
unfolding sort_by_priority
sort_by_priority-perm [] = Perm.refl []
sort_by_priority-perm (s ∷ ss) =
    Perm.trans (insert_sorted-perm s (sort_by_priority ss)) (Perm.cons s (sort_by_priority-perm ss))

-- the sum of the estimates
abbrev pub total : List ContextSection → ℕ
total [] = 0
total (s ∷ ss) = s.token_estimate + total ss

total-insert_sorted :
    (s : ContextSection) (ts : List ContextSection)
    → total (insert_sorted s ts) ≡ s.token_estimate + total ts
unfolding insert_sorted
total-insert_sorted s [] = refl
total-insert_sorted s (t ∷ ts) = ground (arith, total-insert_sorted s ts)

pub total-sort_by_priority : (ss : List ContextSection) → total (sort_by_priority ss) ≡ total ss
unfolding sort_by_priority
total-sort_by_priority [] = refl
total-sort_by_priority (s ∷ ss) =
    omega (arith, total-insert_sorted s (sort_by_priority ss), total-sort_by_priority ss)

-- what holds of all sections holds of them in any order
insert_sorted-All :
    (P : ContextSection → Type 0) (s : ContextSection) (ts : List ContextSection)
    → P s
    → All P ts
    → All P (insert_sorted s ts)
unfolding insert_sorted
insert_sorted-All P s [] p h = (p, tt)
insert_sorted-All P s (t ∷ ts) p h = elim (Bool-cases (leb s.priority t.priority)) [
  | inl le ↦ rw le (p, h)
  | inr gt ↦ rw gt (h.0, insert_sorted-All P s ts p h.1)
]

pub sort_by_priority-All :
    (P : ContextSection → Type 0) (ss : List ContextSection)
    → All P ss
    → All P (sort_by_priority ss)
unfolding sort_by_priority
sort_by_priority-All P [] h = tt
sort_by_priority-All P (s ∷ ss) h =
    insert_sorted-All P s (sort_by_priority ss) h.0 (sort_by_priority-All P ss h.1)
