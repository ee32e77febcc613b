-- ===== src/Tests/CacheTests.antt =====
-- A cache at concrete inputs.
use sovalune_core.Common.{ℕ, ◌≤◌, ◌≡◌, refl, none, [], ◌∷◌, arith}
use native.Mathlib.Decide.{ℕ_discrete}
use sovalune_core.HashMap.{HashMap, lookup}
use sovalune_core.HashMap.Distinct.{Distinct}
use sovalune_core.Cache.{CacheEntry, Cache, len, get, insert, insert_with_ttl, remove}
use sovalune_core.Cache.Bounds.{insert-len-le}
use sovalune_core.Cache.Reads.{get-insert_ne, victim}

abbrev entry : ℕ → ℕ → CacheEntry ℕ
entry value at = record { value = value; created_at = at; ttl = 10 }

-- full: key 1 is expired at 20, key 2 is not
abbrev full : Cache ℕ ℕ
full = record { entries = (1, entry 11 0) ∷ (2, entry 22 15) ∷ []; max_size = 2; default_ttl = 10 }

-- the first key is visited first
abbrev in_order : HashMap ℕ (CacheEntry ℕ) → ℕ
in_order m = 0

full_Distinct : Distinct ℕ_discrete full.entries
unfolding lookup ℕ_discrete
full_Distinct = (refl, (refl, tt))

expired_goes : len (insert ℕ_discrete in_order 20 3 33 full) ≡ 2
unfolding len insert sovalune_core.HashMap.insert sovalune_core.Cache.make_room
    sovalune_core.Cache.evict_expired sovalune_core.HashMap.retain sovalune_core.Cache.is_expired
    ℕ_discrete
expired_goes = refl

live_goes : get ℕ_discrete 6 1 (insert ℕ_discrete in_order 5 3 33 full) ≡ none
unfolding get insert lookup sovalune_core.HashMap.insert sovalune_core.Cache.make_room
    sovalune_core.Cache.evict_expired sovalune_core.HashMap.retain sovalune_core.Cache.is_expired
    sovalune_core.HashMap.first_key sovalune_core.HashMap.remove ℕ_discrete
live_goes = refl

insert-len-le_example : len (insert ℕ_discrete in_order 5 3 33 full) ≤ 2
insert-len-le_example = insert-len-le ℕ_discrete in_order 5 3 33 full (unfold len in omega arith)

no_victim : victim ℕ_discrete in_order 20 full ≡ none
unfolding victim sovalune_core.Cache.evict_expired sovalune_core.HashMap.retain
    sovalune_core.Cache.is_expired
no_victim = refl

get-insert_ne_example :
    get ℕ_discrete 24 2 (insert ℕ_discrete in_order 20 3 33 full) ≡ get ℕ_discrete 24 2 full
get-insert_ne_example =
    get-insert_ne ℕ_discrete in_order 20 24 3 2 33 full full_Distinct (omega arith) (omega arith)
      (ground (arith, no_victim))
