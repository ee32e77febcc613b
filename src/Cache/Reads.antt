-- ===== src/Cache/Reads.antt =====
-- crates/sovalune-model-runtime/src/cache.rs: `get` after the other operations.
use mathlib.Core.Logic.{ite}
use sovalune_core.Common.{
  ℕ, ◌-◌, ◌≤◌, ◌≡◌, ◌≢◌, refl, ap, ◌∙◌, not, ◌&&◌, Option, none, some, length, ltb, leb,
  if◌then◌else◌, Option-cases, inl, inr, arith,
}
use sovalune_core.HashMap.{HashMap, first_key, retain, lookup}
use sovalune_core.HashMap.Laws.{lookup-insert, lookup-remove}
use sovalune_core.HashMap.Distinct.{
  Distinct, kept, lookup-retain, insert-Distinct, remove-Distinct, retain-Distinct,
}
use sovalune_core.Cache.{
  CacheEntry, Cache, is_expired, evict_expired, remove_first, make_room, get, insert, remove,
}

module _ {K V : Type 0} (dec : Discrete K) where
  -- what `get` makes of the entry that the map holds
  abbrev pub live_value : ℕ → Option (CacheEntry V) → Option V
  live_value now none = none
  live_value now (some e) = if ltb e.ttl (now - e.created_at) then none else some e.value

  pub get_lem :
      (now : ℕ) (key : K) (c : Cache K V)
      → get dec now key c ≡ live_value now (lookup dec key c.entries)
  unfolding get is_expired
  get_lem now key c = ground arith

  -- After an insertion `get` returns the value until the time to live has passed, and then nothing.
  pub get-insert_self :
      (order : HashMap K (CacheEntry V) → ℕ) (now later : ℕ) (key : K) (value : V) (c : Cache K V)
      → get dec later key (insert dec order now key value c)
        ≡ (if ltb c.default_ttl (later - now) then none else some value)
  unfolding insert
  get-insert_self order now later key value c =
      let e : CacheEntry V = record { value = value; created_at = now; ttl = c.default_ttl } in
      ground (
        arith,
        get_lem later key (insert dec order now key value c),
        lookup-insert dec key key e (make_room dec order now c),
      )

  -- The key that `insert` gives up for the new entry: none while there is room, or once the expired
  -- entries have made room.
  unfoldable pub victim : (HashMap K (CacheEntry V) → ℕ) → ℕ → Cache K V → Option K
  victim order now c =
      let live = evict_expired now c.entries in
      if leb c.max_size (length c.entries) && leb c.max_size (length live)
      then first_key order live
      else none

  live_value-kept :
      (now later : ℕ) (o : Option (CacheEntry V))
      → now ≤ later
      → live_value later (kept dec (λ e. not (is_expired now e)) o) ≡ live_value later o
  unfolding is_expired
  live_value-kept now later none h = refl
  live_value-kept now later (some e) h = ground arith

  evict_expired-lookup :
      (now later : ℕ) (q : K) (m : HashMap K (CacheEntry V))
      → Distinct dec m
      → now ≤ later
      → live_value later (lookup dec q (evict_expired now m)) ≡ live_value later (lookup dec q m)
  unfolding evict_expired
  evict_expired-lookup now later q m d h =
      ap (live_value later) (lookup-retain dec (λ (e : CacheEntry V). not (is_expired now e)) q m d)
      ∙ live_value-kept now later (lookup dec q m) h

  remove_first-lookup :
      (order : HashMap K (CacheEntry V) → ℕ) (q : K) (m : HashMap K (CacheEntry V))
      → first_key order m ≢ some q
      → lookup dec q (remove_first dec order m) ≡ lookup dec q m
  unfolding remove_first
  remove_first-lookup order q m other = elim (Option-cases (first_key order m)) [
    | inl missed ↦ rw (missed, remove_first)
    | inr (k, found) ↦ rw (found, remove_first) (ground (arith, lookup-remove dec k q m))
  ]

  make_room-lookup :
      (order : HashMap K (CacheEntry V) → ℕ) (now later : ℕ) (q : K) (c : Cache K V)
      → Distinct dec c.entries
      → now ≤ later
      → victim order now c ≢ some q
      → live_value later (lookup dec q (make_room dec order now c))
        ≡ live_value later (lookup dec q c.entries)
  unfolding make_room victim
  make_room-lookup order now later q c d h other =
      let live = evict_expired now c.entries in
      ground
        (arith, evict_expired-lookup now later q c.entries d h, remove_first-lookup order q live)

  -- In a cache that holds no key twice, an insertion keeps what `get` returns from then on for
  -- every other key, except the one that it gives up.
  pub get-insert_ne :
      (order : HashMap K (CacheEntry V) → ℕ) (now later : ℕ) (key q : K) (value : V) (c : Cache K V)
      → Distinct dec c.entries
      → now ≤ later
      → q ≢ key
      → victim order now c ≢ some q
      → get dec later q (insert dec order now key value c) ≡ get dec later q c
  unfolding insert
  get-insert_ne order now later key q value c d h ne other =
      let e : CacheEntry V = record { value = value; created_at = now; ttl = c.default_ttl } in
      ground (
        arith,
        get_lem later q (insert dec order now key value c),
        get_lem later q c,
        lookup-insert dec key q e (make_room dec order now c),
        make_room-lookup order now later q c d h other,
      )

  -- After a removal the key is gone, and every other key reads as before.
  pub get-remove :
      (now : ℕ) (key q : K) (c : Cache K V)
      → get dec now q (remove dec key c).0 ≡ ite (dec q key) none (get dec now q c)
  unfolding remove
  get-remove now key q c = ground (
    arith,
    get_lem now q (remove dec key c).0,
    get_lem now q c,
    lookup-remove dec key q c.entries,
  )

  remove_first-Distinct :
      (order : HashMap K (CacheEntry V) → ℕ) (m : HashMap K (CacheEntry V))
      → Distinct dec m
      → Distinct dec (remove_first dec order m)
  unfolding remove_first
  remove_first-Distinct order m d = elim (Option-cases (first_key order m)) [
    | inl missed ↦ rw (missed, remove_first) d
    | inr (k, found) ↦ rw (found, remove_first) (remove-Distinct dec k m d)
  ]

  make_room-Distinct :
      (order : HashMap K (CacheEntry V) → ℕ) (now : ℕ) (c : Cache K V)
      → Distinct dec c.entries
      → Distinct dec (make_room dec order now c)
  unfolding make_room evict_expired
  make_room-Distinct order now c d =
      let keep = λ (e : CacheEntry V). not (is_expired now e) in
      let live = retain keep c.entries in
      let live_d = retain-Distinct dec keep c.entries d in
      ground (arith, remove_first-Distinct order live live_d)

  -- An insertion into a cache that holds no key twice leaves one that holds no key twice.
  pub insert-Distinct_entries :
      (order : HashMap K (CacheEntry V) → ℕ) (now : ℕ) (key : K) (value : V) (c : Cache K V)
      → Distinct dec c.entries
      → Distinct dec (insert dec order now key value c).entries
  unfolding insert
  insert-Distinct_entries order now key value c d =
      insert-Distinct dec key _ (make_room dec order now c) (make_room-Distinct order now c d)
