-- ===== src/Memory/Repository/Searching.antt =====
-- crates/sovalune-storage-client/src/repositories/memory.rs: `search_by_embedding` where a memory has no
-- embedding.
use mathlib.Core.Option
use sovalune_core.Common.{
  ℕ, suc, ◌≡◌, refl, Bool, true, false, not, ◌&&◌, none, some, List, [], ◌∷◌, ◌++◌, map, filter,
  take, err, Bool-cases, inl, inr, arith,
}
use sovalune_core.Float.{Float}
use sovalune_core.Text.{Text, codes}
use sovalune_core.Memory.{MemoryFilter, Table, advance, next_fault, statement}
use sovalune_core.Memory.Repository.{
  Row, Scored, matches, ranks_before, insert_ranked, ranked, decode, search_by_embedding,
}

module _ (fl : Float) (to_json : List fl.F → Text) where
  -- the first row has no score
  abbrev NullFirst : List (Scored fl to_json) → Type 0
  NullFirst [] = ⊥
  NullFirst (r ∷ rs) = r.1 ≡ none

  insert_ranked_null :
      (r : Scored fl to_json) (rs : List (Scored fl to_json))
      → r.1 ≡ none
      → NullFirst (insert_ranked fl to_json r rs)
  unfolding insert_ranked ranks_before
  insert_ranked_null (r, none) [] h = refl
  insert_ranked_null (r, none) (s ∷ rs) h = refl
  insert_ranked_null (r, some x) rs h = absurd (ground arith)

  insert_ranked-NullFirst :
      (r : Scored fl to_json) (rs : List (Scored fl to_json))
      → NullFirst rs
      → NullFirst (insert_ranked fl to_json r rs)
  unfolding insert_ranked ranks_before
  insert_ranked-NullFirst r [] h = absurd h
  insert_ranked-NullFirst (r, none) (s ∷ rs) h = refl
  insert_ranked-NullFirst (r, some x) ((s, none) ∷ rs) h = refl
  insert_ranked-NullFirst (r, some x) ((s, some y) ∷ rs) h = absurd (ground arith)

  decode-NullFirst :
      (k : ℕ) (rs : List (Scored fl to_json))
      → NullFirst rs
      → decode fl to_json (take (suc k) rs) ≡ err (codes "unexpected null")
  unfolding decode
  decode-NullFirst k [] h = absurd h
  decode-NullFirst k ((r, none) ∷ rs) h = refl
  decode-NullFirst k ((r, some x) ∷ rs) h = absurd (ground arith)

  module _ (similarity : Text → Text → fl.F) (query : List fl.F) (f : MemoryFilter fl.F) where
    abbrev searched : Row fl to_json → Bool
    searched r = not r.archived && matches fl to_json f r

    abbrev score : Row fl to_json → Scored fl to_json
    score r = (r, Option.map (λ e. similarity e (to_json query)) r.embedding)

    ranked-NullFirst :
        (before after : List (Row fl to_json)) (r : Row fl to_json)
        → searched r ≡ true
        → r.embedding ≡ none
        → NullFirst (ranked fl to_json (map score (filter searched (before ++ r ∷ after))))
    unfolding ranked
    ranked-NullFirst [] after r h e = rw h (
        insert_ranked_null (score r) (ranked fl to_json (map score (filter searched after)))
          (rw e refl))
    ranked-NullFirst (b ∷ before) after r h e = elim (Bool-cases (searched b)) [
      | inl k ↦ rw k (insert_ranked-NullFirst (score b) _ (ranked-NullFirst before after r h e))
      | inr k ↦ rw k (ranked-NullFirst before after r h e)
    ]

    -- A search for at least one memory that the database does not fail still fails, and changes no
    -- row, if one of the memories that it may find has no embedding: its score is NULL, which is
    -- ranked first and cannot be read.
    pub search_by_embedding-null :
        (t : Table fl.F) (before after : List (Row fl to_json)) (r : Row fl to_json) (k : ℕ)
        → (next_fault t.faults).0 ≡ false
        → t.rows ≡ before ++ r ∷ after
        → r.archived ≡ false
        → matches fl to_json f r ≡ true
        → r.embedding ≡ none
        → search_by_embedding fl to_json similarity query f (suc k) t
          ≡ (err (codes "unexpected null"), advance t)
    unfolding search_by_embedding
    search_by_embedding-null t before after r k fine rows live found bare =
        let first = ranked-NullFirst before after r (ground arith) bare in
        let refused =
          decode-NullFirst k (ranked fl to_json (map score (filter searched (before ++ r ∷ after))))
            first in
        rw (fine, rows, statement) (rw (refused, decode) (rw (← rows) refl))
