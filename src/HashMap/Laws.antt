-- ===== src/HashMap/Laws.antt =====
-- What can be read after each operation of a map, and how its size changes.
use mathlib.Core.Logic.{ite}
use sovalune_core.Common.{
  ℕ, zero, suc, ◌+◌, ◌%◌, ◌≤◌, ◌<◌, ◌≡◌, refl, Bool, none, some, [], ◌∷◌, length, arith,
}
use sovalune_core.HashMap.{HashMap, key_at, first_key, retain, lookup, insert, remove}

module _ {ℓ} {K V : Type ℓ} (dec : Discrete K) where
  pub lookup-insert :
      (k j : K) (v : V) (m : HashMap K V)
      → lookup dec j (insert dec k v m) ≡ ite (dec j k) (some v) (lookup dec j m)
  unfolding lookup insert
  lookup-insert k j v [] = refl
  lookup-insert k j v (e ∷ m) = ground (arith, lookup-insert k j v m)

  pub lookup-remove :
      (k j : K) (m : HashMap K V)
      → lookup dec j (remove dec k m) ≡ ite (dec j k) none (lookup dec j m)
  unfolding lookup remove
  lookup-remove k j [] = ground arith
  lookup-remove k j (e ∷ m) = ground (arith, lookup-remove k j m)

  pub length-insert-le :
      (k : K) (v : V) (m : HashMap K V) → length (insert dec k v m) ≤ length m + 1
  unfolding insert
  length-insert-le k v [] = omega arith
  length-insert-le k v (e ∷ m) = ground (arith, length-insert-le k v m)

  -- a new key makes the map larger by one
  pub length-insert_new :
      (k : K) (v : V) (m : HashMap K V)
      → lookup dec k m ≡ none
      → length (insert dec k v m) ≡ length m + 1
  unfolding lookup insert
  length-insert_new k v [] h = omega arith
  length-insert_new k v (e ∷ m) h = ground (arith, length-insert_new k v m)

  -- an old key does not
  pub length-insert_old :
      (k : K) (v w : V) (m : HashMap K V)
      → lookup dec k m ≡ some w
      → length (insert dec k v m) ≡ length m
  unfolding lookup insert
  length-insert_old k v w [] h = cc
  length-insert_old k v w (e ∷ m) h = ground (arith, length-insert_old k v w m)

  pub length-remove-le : (k : K) (m : HashMap K V) → length (remove dec k m) ≤ length m
  unfolding remove
  length-remove-le k [] = omega arith
  length-remove-le k (e ∷ m) = ground (arith, length-remove-le k m)

  length-remove-key_at :
      (m : HashMap K V) (i : ℕ)
      → i < length m
      → (k : K) × (key_at m i ≡ some k) × (length (remove dec k m) + 1 ≤ length m)
  unfolding key_at remove
  length-remove-key_at [] i h = absurd (omega arith)
  length-remove-key_at (e ∷ m) zero h = (e.0, refl, ground (arith, length-remove-le e.0 m))
  length-remove-key_at (e ∷ m) (suc i) h =
      let (k, at, le) = length-remove-key_at m i (omega arith) in
      (k, at, ground (arith, length-remove-le k m))

  -- to remove the key that is visited first makes a map that is not empty smaller
  pub length-remove-first_key :
      (order : HashMap K V → ℕ) (m : HashMap K V)
      → 0 < length m
      → (k : K) × (first_key order m ≡ some k) × (length (remove dec k m) + 1 ≤ length m)
  unfolding first_key
  length-remove-first_key order m h = length-remove-key_at m (order m % length m) (grind arith)

  -- what `retain` keeps can still be read, if no key stands twice
  pub lookup-retain-none :
      (keep : V → Bool) (k : K) (m : HashMap K V)
      → lookup dec k m ≡ none
      → lookup dec k (retain keep m) ≡ none
  unfolding lookup retain
  lookup-retain-none keep k [] h = refl
  lookup-retain-none keep k (e ∷ m) h = ground (arith, lookup-retain-none keep k m)

pub length-retain-le {ℓ} :
    {K V : Type ℓ} (keep : V → Bool) (m : HashMap K V) → length (retain keep m) ≤ length m
unfolding retain
length-retain-le keep [] = omega arith
length-retain-le keep (e ∷ m) = ground (arith, length-retain-le keep m)
