-- ===== src/HashMap/Distinct.antt =====
-- No key stands twice: every operation keeps this, and `retain` reads the values it keeps.

use sovalune_core.Common.{◌≡◌, refl, Bool, Option, none, some, [], ◌∷◌, if◌then◌else◌, arith}
use sovalune_core.HashMap.{HashMap, retain, lookup, insert, remove}
use sovalune_core.HashMap.Laws.{lookup-insert, lookup-remove, lookup-retain-none}

module _ {ℓ} {K V : Type ℓ} (dec : Discrete K) where
  abbrev pub Distinct : HashMap K V → Type ℓ
  Distinct [] = Unit
  Distinct (e ∷ m) = (lookup dec e.0 m ≡ none) × Distinct m

  -- the value that a test lets through
  abbrev pub kept : (V → Bool) → Option V → Option V
  kept keep none = none
  kept keep (some v) = if keep v then some v else none

  pub lookup-retain :
      (keep : V → Bool) (k : K) (m : HashMap K V)
      → Distinct m
      → lookup dec k (retain keep m) ≡ kept keep (lookup dec k m)
  unfolding lookup retain
  lookup-retain keep k [] h = refl
  lookup-retain keep k (e ∷ m) h =
      ground (arith, lookup-retain keep k m h.1, lookup-retain-none dec keep k m)

  pub insert-Distinct : (k : K) (v : V) (m : HashMap K V) → Distinct m → Distinct (insert dec k v m)
  unfolding lookup insert
  insert-Distinct k v [] h = (refl, tt)
  insert-Distinct k v (e ∷ m) h =
      ground (arith, insert-Distinct k v m h.1, lookup-insert dec k e.0 v m)

  pub remove-Distinct : (k : K) (m : HashMap K V) → Distinct m → Distinct (remove dec k m)
  unfolding remove
  remove-Distinct k [] h = tt
  remove-Distinct k (e ∷ m) h = ground (arith, remove-Distinct k m h.1, lookup-remove dec k e.0 m)

  pub retain-Distinct : (keep : V → Bool) (m : HashMap K V) → Distinct m → Distinct (retain keep m)
  unfolding retain
  retain-Distinct keep [] h = tt
  retain-Distinct keep (e ∷ m) h =
      ground (arith, retain-Distinct keep m h.1, lookup-retain-none dec keep e.0 m h.0)
