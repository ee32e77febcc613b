-- ===== src/Learning/Store/Rows.antt =====
-- Rows of the table of cycles: what an update changes, and what it keeps.
use mathlib.Core.Option
use sovalune_core.Common.{
  ℕ, ◌<◌, ◌≡◌, ◌≢◌, refl, some, List, [], ◌∷◌, ◌++◌, All, All-append, ◌==◌, if◌then◌else◌,
  Bool-cases, inl, inr, arith,
}
use sovalune_core.Learning.Monad.{CycleRow}
use sovalune_core.Learning.Store.{find_row, update_row}

module _ {F : Type 0} where
  -- an update of one row is seen in that row alone
  pub find_row-update_row :
      (i j : ℕ) (f : CycleRow F → CycleRow F) (rs : List (CycleRow F))
      → ((r : CycleRow F) → (f r).id ≡ r.id)
      → find_row j (update_row i f rs)
        ≡ (if j == i then Option.map f (find_row j rs) else find_row j rs)
  unfolding find_row update_row
  find_row-update_row i j f [] same = ground arith
  find_row-update_row i j f (r ∷ rs) same =
      ground (arith, same r, find_row-update_row i j f rs same)

  pub update_row-All :
      (P : CycleRow F → Type 0) (i : ℕ) (f : CycleRow F → CycleRow F) (rs : List (CycleRow F))
      → ((r : CycleRow F) → P r → P (f r))
      → All P rs
      → All P (update_row i f rs)
  unfolding update_row
  update_row-All P i f [] keep h = tt
  update_row-All P i f (r ∷ rs) keep h = elim (Bool-cases (r.id == i)) [
    | inl hit ↦ (rw hit (keep r h.0), update_row-All P i f rs keep h.1)
    | inr miss ↦ (rw miss h.0, update_row-All P i f rs keep h.1)
  ]

  -- what holds of all rows holds of the row that is found
  pub found-All :
      (P : CycleRow F → Type 0) (i : ℕ) (rs : List (CycleRow F)) (r : CycleRow F)
      → All P rs
      → find_row i rs ≡ some r
      → P r
  unfolding find_row
  found-All P i [] r h found = cc
  found-All P i (t ∷ rs) r h found = elim (Bool-cases (t.id == i)) [
    | inl hit ↦ let e : t ≡ r = ground arith in rw (← e) h.0
    | inr miss ↦ found-All P i rs r h.1 (ground arith)
  ]

  -- no key stands twice
  abbrev pub Unique : List (CycleRow F) → Type 0
  Unique [] = Unit
  Unique (r ∷ rs) = All (λ t. t.id ≢ r.id) rs × Unique rs

  update_row-miss :
      (i : ℕ) (f : CycleRow F → CycleRow F) (rs : List (CycleRow F))
      → All (λ t. t.id ≢ i) rs
      → update_row i f rs ≡ rs
  unfolding update_row
  update_row-miss i f [] h = refl
  update_row-miss i f (r ∷ rs) h = ground (arith, update_row-miss i f rs h.1)

  -- an update of the row that was found need keep a property of that row alone
  pub update_row-All_found :
      (P : CycleRow F → Type 0) (i : ℕ) (f : CycleRow F → CycleRow F) (rs : List (CycleRow F))
      (r : CycleRow F)
      → Unique rs
      → find_row i rs ≡ some r
      → P (f r)
      → All P rs
      → All P (update_row i f rs)
  unfolding update_row find_row
  update_row-All_found P i f [] r u found p h = tt
  update_row-All_found P i f (t ∷ rs) r u found p h = elim (Bool-cases (t.id == i)) [
    | inl hit ↦
        let e : t ≡ r = ground arith in
        let here : t.id ≡ i = ground arith in
        let none_left : All (λ t'. t'.id ≢ i) rs = rw (← here) u.0 in
        (rw (hit, e) p, rw (update_row-miss i f rs none_left) h.1)
    | inr miss ↦ (rw miss h.0, update_row-All_found P i f rs r u.1 (ground arith) p h.1)
  ]

  update_row-Ne :
      (k i : ℕ) (f : CycleRow F → CycleRow F) (rs : List (CycleRow F))
      → ((r : CycleRow F) → (f r).id ≡ r.id)
      → All (λ t. t.id ≢ k) rs
      → All (λ t. t.id ≢ k) (update_row i f rs)
  update_row-Ne k i f rs same = update_row-All (λ t. t.id ≢ k) i f rs (λ r ne. rw (same r) ne)

  pub update_row-Unique :
      (i : ℕ) (f : CycleRow F → CycleRow F) (rs : List (CycleRow F))
      → ((r : CycleRow F) → (f r).id ≡ r.id)
      → Unique rs
      → Unique (update_row i f rs)
  unfolding update_row
  update_row-Unique i f [] same u = tt
  update_row-Unique i f (r ∷ rs) same u = elim (Bool-cases (r.id == i)) [
    | inl hit ↦
        (rw (hit, same r) (update_row-Ne r.id i f rs same u.0), update_row-Unique i f rs same u.1)
    | inr miss ↦ (rw miss (update_row-Ne r.id i f rs same u.0), update_row-Unique i f rs same u.1)
  ]

  -- a row with a new key at the end
  pub append-Unique :
      (rs : List (CycleRow F)) (r : CycleRow F)
      → All (λ t. t.id < r.id) rs
      → Unique rs
      → Unique (rs ++ r ∷ [])
  append-Unique [] r h u = (tt, tt)
  append-Unique (t ∷ rs) r h u = (
    All-append (λ t'. t'.id ≢ t.id) rs (r ∷ []) u.0 ((λ e. omega arith), tt),
    append-Unique rs r h.1 u.1,
  )
