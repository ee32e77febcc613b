-- ===== src/Cache.antt =====
-- crates/sovalune-model-runtime/src/cache.rs: `CacheEntry`, `Cache` and `CacheFactory`.
-- Instants and durations are in milliseconds. An operation holds the lock from its start to its end,
-- reads the clock once, as `now`, and returns the new cache; `order` is the order in which the map
-- iterates.
pub mod Bounds
pub mod Reads
pub mod Key
use sovalune_core.Common.{
  ℕ, ◌-◌, ◌*◌, ◌^◌, Bool, true, false, not, Option, none, some, List, [], length, ltb, leb, ◌==◌,
  if◌then◌else◌,
}
use sovalune_core.HashMap.{HashMap, first_key, retain, lookup}
use sovalune_core.HashMap
use mathlib.Core.Option

pub record CacheEntry (V : Type 0) : Type 0 where
  pub value : V
  pub created_at : ℕ
  pub ttl : ℕ

-- `created_at.elapsed() > ttl`
unfoldable pub is_expired : {V : Type 0} → ℕ → CacheEntry V → Bool
is_expired now e = ltb e.ttl (now - e.created_at)

pub record Cache (K V : Type 0) : Type 0 where
  pub entries : HashMap K (CacheEntry V)
  pub max_size : ℕ
  pub default_ttl : ℕ

unfoldable pub new : {K V : Type 0} → ℕ → ℕ → Cache K V
new max_size default_ttl = record { entries = []; max_size = max_size; default_ttl = default_ttl }

-- the factory's caches: durations of 300 s, 3600 s and `u64::MAX` s
unfoldable pub response_cache : {V : Type 0} → {K : Type 0} → Cache K V
unfolding new
response_cache = new 1000 (300 * 1000)

unfoldable pub embedding_cache : {V : Type 0} → {K : Type 0} → Cache K V
unfolding new
embedding_cache = new 10000 (3600 * 1000)

unfoldable pub token_count_cache : {V : Type 0} → {K : Type 0} → Cache K V
unfolding new
token_count_cache = new 50000 ((2 ^ 64 - 1) * 1000)

module _ {K V : Type 0} where
  unfoldable pub evict_expired : ℕ → HashMap K (CacheEntry V) → HashMap K (CacheEntry V)
  evict_expired now m = retain (λ e. not (is_expired now e)) m

  unfoldable pub len : Cache K V → ℕ
  len c = length c.entries

  unfoldable pub is_empty : Cache K V → Bool
  unfolding len
  is_empty c = len c == 0

  unfoldable pub clear : Cache K V → Cache K V
  clear c = record c { entries = [] }

module _ {K V : Type 0} (dec : Discrete K) where
  unfoldable pub get : ℕ → K → Cache K V → Option V
  get now key c = elim (lookup dec key c.entries) [
    | none ↦ none
    | some entry ↦ if not (is_expired now entry) then some entry.value else none
  ]

  -- the removal of the key that is visited first, if there is one
  remove_first :
      (HashMap K (CacheEntry V) → ℕ) → HashMap K (CacheEntry V) → HashMap K (CacheEntry V)
  remove_first order m = elim (first_key order m) [
    | none ↦ m
    | some first_key' ↦ HashMap.remove dec first_key' m
  ]

  -- what `insert` does with the entries before it writes its own
  unfoldable pub make_room :
      (HashMap K (CacheEntry V) → ℕ) → ℕ → Cache K V → HashMap K (CacheEntry V)
  unfolding remove_first
  make_room order now c =
      if leb c.max_size (length c.entries)
      then (let live = evict_expired now c.entries in
          if leb c.max_size (length live) then remove_first order live else live)
      else c.entries

  unfoldable pub insert : (HashMap K (CacheEntry V) → ℕ) → ℕ → K → V → Cache K V → Cache K V
  insert order now key value c = record c {
    entries =
        HashMap.insert dec key (record { value = value; created_at = now; ttl = c.default_ttl })
          (make_room order now c);
  }

  unfoldable pub insert_with_ttl : ℕ → K → V → ℕ → Cache K V → Cache K V
  insert_with_ttl now key value ttl c = record c {
    entries =
        HashMap.insert dec key (record { value = value; created_at = now; ttl = ttl }) c.entries;
  }

  unfoldable pub remove : K → Cache K V → Cache K V × Option V
  remove key c = (
    record c { entries = HashMap.remove dec key c.entries },
    Option.map (λ (e : CacheEntry V). e.value) (lookup dec key c.entries),
  )
