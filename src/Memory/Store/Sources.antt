-- ===== src/Memory/Store/Sources.antt =====
-- crates/sovalune-vector-memory/src/store.rs: `consolidate` and the rows of its sources.
use sovalune_core.Common.{ℕ, ◌≡◌, refl, ◌∙◌, false, none, List, [], ◌∷◌, ok, err}
use sovalune_core.Float.{Float}
use sovalune_core.Text.{Text, codes}
use sovalune_core.Memory.{
  MemoryEntry, Table, pure, fail, after, ◌>>=◌, advance, next_fault, statement,
}
use sovalune_core.Memory.Repository.{find_row, get, first_id}
use sovalune_core.Memory.Repository
use sovalune_core.Memory.Store.{with_found, load_sources, consolidate_found, consolidate}

module _ (fl : Float) (to_json : List fl.F → Text) where
  -- the database fails no statement from here on
  abbrev Healthy : Table fl.F → Type 0
  Healthy t = t.faults ≡ []

  get-Healthy :
      (id : ℕ) (t : Table fl.F)
      → Healthy t
      → get fl to_json id t ≡ (ok (find_row fl to_json id t.rows), advance t)
  unfolding get statement next_fault advance
  get-Healthy id t h = rw h refl

  load_sources-Healthy :
      (ids : List ℕ) (sources : List (MemoryEntry fl.F)) (t : Table fl.F)
      → Healthy t
      → (found : List (MemoryEntry fl.F)) × (t' : Table fl.F) × (load_sources fl to_json ids sources
            t
          ≡ (ok found, t'))
        × (t'.rows ≡ t.rows)
        × Healthy t'
  unfolding load_sources ◌>>=◌ pure after
  load_sources-Healthy [] sources t h = (sources, t, refl, refl, h)
  load_sources-Healthy (id ∷ ids) sources t h =
      let next = with_found fl to_json sources (find_row fl to_json id t.rows) in
      let (found, t', e, rows, healthy) =
        load_sources-Healthy ids next (advance t) (advance_healthy t h) in
      (found, t', rw (get-Healthy id t h) e, rows ∙ unfold advance in refl, healthy)
    where
      advance_healthy : (t : Table fl.F) → Healthy t → Healthy (advance t)
      advance_healthy t h = unfold advance next_fault in rw h refl

  module _ (print_uuid : ℕ → Text) where
    found_missing :
        (id : ℕ) (ids : List ℕ) (embedding : List fl.F) (found : List (MemoryEntry fl.F))
        (t : Table fl.F)
        → Healthy t
        → find_row fl to_json id t.rows ≡ none
        → (e : Text) × (t' : Table fl.F) × (consolidate_found fl to_json print_uuid
              (id ∷ ids)
              embedding
              found
              t
            ≡ (err e, t'))
          × (t'.rows ≡ t.rows)
    unfolding consolidate_found ◌>>=◌ after fail Repository.consolidate statement next_fault
        first_id
    found_missing id ids embedding [] t h missing =
        (codes "No valid source entries found", t, refl, refl)
    found_missing id ids embedding (s ∷ ss) t h missing =
        let fine : (next_fault t.faults).0 ≡ false = rw h refl in
        (
          codes "no rows returned by a query that expected to return at least one row",
          advance t,
          rw (fine, missing, statement) refl,
          unfold advance in refl,
        )

    -- A consolidation whose first source has no row fails and leaves the rows as they are, even where
    -- the other sources are there and the database fails no statement.
    pub consolidate-first_missing :
        (id : ℕ) (ids : List ℕ) (embedding : List fl.F) (t : Table fl.F)
        → t.faults ≡ []
        → find_row fl to_json id t.rows ≡ none
        → (e : Text) × (t' : Table fl.F) × (consolidate fl to_json print_uuid (id ∷ ids) embedding t
            ≡ (err e, t'))
          × (t'.rows ≡ t.rows)
    unfolding consolidate ◌>>=◌ after
    consolidate-first_missing id ids embedding t h missing =
        let (found, t1, loaded, rows, healthy) = load_sources-Healthy (id ∷ ids) [] t h in
        let (e, t2, ran, rows') =
          found_missing id ids embedding found t1 healthy (rw rows missing) in
        (e, t2, rw (loaded, after) ran, rows' ∙ rows)
