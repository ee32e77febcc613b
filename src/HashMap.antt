-- ===== src/HashMap.antt =====
-- `std::collections::HashMap` as an association list. Its order of iteration is not specified: what
-- depends on it takes `order`, which picks the position that is visited first.
pub mod Laws
pub mod Distinct
use mathlib.Core.Logic.{ite}
use sovalune_core.Common.{
  ℕ, zero, suc, ◌%◌, Bool, true, false, not, Option, none, some, List, [], ◌∷◌, length,
  if◌then◌else◌,
}

abbrev pub HashMap {ℓ} : Type ℓ → Type ℓ → Type ℓ
HashMap K V = List (K × V)

-- the key at a position
unfoldable pub key_at {ℓ} : {K V : Type ℓ} → HashMap K V → ℕ → Option K
key_at [] i = none
key_at (e ∷ m) zero = some e.0
key_at (e ∷ m) (suc i) = key_at m i

-- `m.keys().next()`
unfoldable pub first_key {ℓ} : {K V : Type ℓ} → (HashMap K V → ℕ) → HashMap K V → Option K
unfolding key_at
first_key order m = key_at m (order m % length m)

-- `m.retain(|_, v| keep(v))`
unfoldable pub retain {ℓ} : {K V : Type ℓ} → (V → Bool) → HashMap K V → HashMap K V
retain keep [] = []
retain keep (e ∷ m) = let rest = retain keep m in if keep e.1 then e ∷ rest else rest

module _ {ℓ} {K V : Type ℓ} (dec : Discrete K) where
  -- `m.get(k)`
  unfoldable pub lookup : K → HashMap K V → Option V
  lookup k [] = none
  lookup k (e ∷ m) = let rest = lookup k m in ite (dec k e.0) (some e.1) rest

  -- `m.insert(k, v)` writes over the entry with the key, if there is one
  unfoldable pub insert : K → V → HashMap K V → HashMap K V
  insert k v [] = (k, v) ∷ []
  insert k v (e ∷ m) = let rest = insert k v m in ite (dec k e.0) ((k, v) ∷ m) (e ∷ rest)

  -- `m.remove(k)`
  unfoldable pub remove : K → HashMap K V → HashMap K V
  remove k [] = []
  remove k (e ∷ m) = let rest = remove k m in ite (dec k e.0) rest (e ∷ rest)
