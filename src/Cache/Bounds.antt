-- ===== src/Cache/Bounds.antt =====
-- crates/sovalune-model-runtime/src/cache.rs: the size of a cache.

use sovalune_core.Common.{ℕ, ◌+◌, ◌≤◌, ◌<◌, ◌≡◌, not, none, [], ◌∷◌, length, max, arith}
use sovalune_core.HashMap.{HashMap, first_key, retain, lookup}
use sovalune_core.HashMap.Laws.{
  length-insert-le, length-insert_new, length-remove-first_key, length-retain-le,
}
use sovalune_core.Cache.{
  CacheEntry, Cache, is_expired, evict_expired, len, remove_first, make_room, insert,
  insert_with_ttl,
}

module _ {K V : Type 0} (dec : Discrete K) (order : HashMap K (CacheEntry V) → ℕ) where
  remove_first-length :
      (m : HashMap K (CacheEntry V))
      → 0 < length m
      → length (remove_first dec order m) + 1 ≤ length m
  unfolding remove_first
  remove_first-length m h =
      let (k, e, le) = length-remove-first_key dec order m h in rw (e, remove_first) le

  remove_first-le : (m : HashMap K (CacheEntry V)) → length (remove_first dec order m) ≤ length m
  unfolding remove_first first_key
  remove_first-le [] = omega arith
  remove_first-le (e ∷ m) = omega (arith, remove_first-length (e ∷ m) (omega arith))

  -- the room that is made suffices for one entry
  make_room-length :
      (now : ℕ) (c : Cache K V)
      → len c ≤ c.max_size
      → length (make_room dec order now c) + 1 ≤ max c.max_size 1
  unfolding make_room len evict_expired
  make_room-length now c h =
      let live = retain (λ (e : CacheEntry V). not (is_expired now e)) c.entries in
      ground (
        arith,
        length-retain-le (λ (e : CacheEntry V). not (is_expired now e)) c.entries,
        remove_first-length live,
        remove_first-le live,
      )

  -- `insert` into a cache within its bound keeps the size within the bound, which a cache of bound
  -- 0 alone passes by one entry.
  pub insert-len-le :
      (now : ℕ) (key : K) (value : V) (c : Cache K V)
      → len c ≤ c.max_size
      → len (insert dec order now key value c) ≤ max c.max_size 1
  unfolding insert len
  insert-len-le now key value c h = omega (
    arith,
    make_room-length now c h,
    length-insert-le dec key (record { value = value; created_at = now; ttl = c.default_ttl })
        (make_room dec order now c),
  )

-- `insert_with_ttl` does not look at the bound: a key that is not in the map makes the cache larger
-- by one entry, whatever its size.
pub insert_with_ttl-len_new :
    {K V : Type 0} (dec : Discrete K) (now : ℕ) (key : K) (value : V) (ttl : ℕ) (c : Cache K V)
    → lookup dec key c.entries ≡ none
    → len (insert_with_ttl dec now key value ttl c) ≡ len c + 1
unfolding insert_with_ttl len
insert_with_ttl-len_new dec now key value ttl c h =
    length-insert_new dec key (record { value = value; created_at = now; ttl = ttl }) c.entries h
