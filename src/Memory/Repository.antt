-- ===== src/Memory/Repository.antt =====
-- crates/sovalune-storage-client/src/repositories/memory.rs: `MemoryRepository`. `to_json` is serde's
-- writing of an embedding, `ilike` the test of PostgreSQL, `similarity` the score of pgvector.
pub mod Decay
pub mod Searching
use mathlib.Core.Option
use mathlib.Core.Logic.{ite}
use native.Mathlib.Decide.{ℕ_discrete}
use sovalune_core.Common.{
  ℕ, suc, ◌+◌, Bool, true, false, not, ◌&&◌, Option, none, some, List, [], ◌∷◌, ◌++◌, map, filter,
  take, drop, length, Result, ok, err, ltb, leb, ◌==◌, if◌then◌else◌,
}
use sovalune_core.Float.{Float}
use sovalune_core.Text.{Text, codes, text_eq}
use sovalune_core.Json.{Json}
use sovalune_core.Memory.{
  MemoryTier, tier_name, MemoryEntry, CreateMemoryEntry, UpdateMemoryEntry, MemoryFilter, Table, M,
  pure, ◌>>=◌, ◌>>◌, statement,
}

-- the rows that pass the test, changed, and how many there are
unfoldable pub update_where : {R : Type 0} → (R → Bool) → (R → R) → List R → ℕ × List R
update_where test change [] = (0, [])
update_where test change (r ∷ rs) =
    let rest = update_where test change rs in
    if test r then (rest.0 + 1, change r ∷ rest.1) else (rest.0, r ∷ rest.1)

-- what a filter with this value asks of a row
unfoldable pub asked : {A : Type 0} → Option A → (A → Bool) → Bool
asked none test = true
asked (some a) test = test a

unfoldable pub bool_eq : Bool → Bool → Bool
bool_eq true b = b
bool_eq false b = not b

module _ (fl : Float) (to_json : List fl.F → Text) where
  open fl use {F, ratio, of_ℕ, mul, lt, ge}

  abbrev pub Row : Type 0
  Row = MemoryEntry F

  unfoldable pub find_row : ℕ → List Row → Option Row
  find_row id [] = none
  find_row id (r ∷ rs) = let rest = find_row id rs in if r.id == id then some r else rest

  -- `INSERT`, with the defaults of the schema
  unfoldable pub create : CreateMemoryEntry F → M F Row
  unfolding statement
  create entry = statement (λ rows now.
      let row : Row = record {
        id = now;
        project_id = entry.project_id;
        tier = tier_name entry.tier;
        content = entry.content;
        embedding = Option.map to_json entry.embedding;
        metadata = entry.metadata;
        confidence_score = Option.get_or entry.confidence_score (ratio 5 10);
        decay_score = of_ℕ 1;
        archived = false;
        source_entry_ids = entry.source_entry_ids;
        created_at = now;
        updated_at = now;
      } in
      ok (row, rows ++ row ∷ []))

  unfoldable pub get : ℕ → M F (Option Row)
  unfolding statement find_row
  get id = statement (λ rows now. ok (find_row id rows, rows))

  -- one of the statements of `update`, if its value is given
  unfoldable pub set_field : {A : Type 0} → ℕ → Option A → (A → ℕ → Row → Row) → M F (Unit {0})
  unfolding statement update_where pure
  set_field id none change = pure tt
  set_field id (some a) change =
      statement
        (λ rows now. ok (tt, (update_where (λ (r : Row). r.id == id) (change a now) rows).1))

  unfoldable pub update : ℕ → UpdateMemoryEntry F → M F (Option Row)
  unfolding ◌>>◌ set_field get
  update id u = do
    set_field id u.content (λ content now r. record r { content = content; updated_at = now })
    set_field id u.metadata (λ metadata now r. record r { metadata = metadata; updated_at = now })
    set_field id u.confidence_score
        (λ score now r. record r { confidence_score = score; updated_at = now })
    set_field id u.archived (λ archived now r. record r { archived = archived; updated_at = now })
    get id

  unfoldable pub delete : ℕ → M F (Unit {0})
  unfolding statement
  delete id = statement (λ rows now. ok (tt, filter (λ (r : Row). not (r.id == id)) rows))

  -- the parts of `WHERE` that `list` and `search_by_embedding` share
  unfoldable pub matches : MemoryFilter F → Row → Bool
  unfolding asked
  matches f r =
      asked f.project_id (λ p. r.project_id == p)
      && asked f.tier (λ t. text_eq r.tier (tier_name t))
      && asked f.min_confidence (λ c. ge r.confidence_score c)

  -- `ORDER BY created_at DESC`
  unfoldable pub insert_newest : Row → List Row → List Row
  insert_newest r [] = r ∷ []
  insert_newest r (s ∷ ss) =
      let rest = insert_newest r ss in
      if leb s.created_at r.created_at then r ∷ s ∷ ss else s ∷ rest

  unfoldable pub newest_first : List Row → List Row
  unfolding insert_newest
  newest_first [] = []
  newest_first (r ∷ rs) = insert_newest r (newest_first rs)

  unfoldable pub list : (Text → Text → Bool) → MemoryFilter F → ℕ → ℕ → M F (List Row)
  unfolding statement matches newest_first bool_eq
  list ilike f limit offset = statement (λ rows now. ok (
    take limit (
        drop offset (
          newest_first (
            filter
              (λ (r : Row).
                matches f r
                && asked f.archived (λ a. bool_eq r.archived a)
                && asked f.query (λ q. ilike r.content (codes "%" ++ (q ++ codes "%"))))
              rows))),
    rows,
  ))

  -- a row with its score, which is NULL where there is no embedding
  abbrev pub Scored : Type 0
  Scored = Row × Option F

  -- `ORDER BY score DESC` puts NULL first
  unfoldable pub ranks_before : Option F → Option F → Bool
  ranks_before none q = true
  ranks_before (some x) none = false
  ranks_before (some x) (some y) = ge x y

  unfoldable pub insert_ranked : Scored → List Scored → List Scored
  insert_ranked r [] = r ∷ []
  insert_ranked r (s ∷ ss) =
      let rest = insert_ranked r ss in if ranks_before r.1 s.1 then r ∷ s ∷ ss else s ∷ rest

  unfoldable pub ranked : List Scored → List Scored
  unfolding insert_ranked ranks_before
  ranked [] = []
  ranked (r ∷ rs) = insert_ranked r (ranked rs)

  -- the rows as the code reads them: a score that is NULL is refused
  unfoldable pub decode : List Scored → Result (List (Row × F)) Text
  decode [] = ok []
  decode ((r, none) ∷ rest) = err (codes "unexpected null")
  decode ((r, some x) ∷ rest) = elim (decode rest) [
    | err e ↦ err e
    | ok results ↦ ok ((r, x) ∷ results)
  ]

  unfoldable pub search_by_embedding :
      (Text → Text → F) → List F → MemoryFilter F → ℕ → M F (List (Row × F))
  unfolding statement matches ranked decode
  search_by_embedding similarity query_embedding f top_k = statement (λ rows now.
      elim (decode (
        take top_k (
          ranked (
            map
              (λ (r : Row).
                (r, Option.map (λ e. similarity e (to_json query_embedding)) r.embedding))
              (filter (λ (r : Row). not r.archived && matches f r) rows))))) [
                | err e ↦ err e
                | ok results ↦ ok (results, rows)
              ])

  -- `source_ids.first()`, or the nil identifier
  unfoldable pub first_id : List ℕ → ℕ
  first_id [] = 0
  first_id (id ∷ ids) = id

  -- the project is that of the first source, if it has a row
  unfoldable pub consolidate : List ℕ → Text → List F → Json → M F Row
  unfolding statement find_row first_id
  consolidate source_ids content embedding metadata = statement (λ rows now.
      elim (find_row (first_id source_ids) rows) [
        | none ↦ err (codes "no rows returned by a query that expected to return at least one row")
        | some source ↦
            let row : Row = record {
              id = now;
              project_id = source.project_id;
              tier = codes "consolidated";
              content = content;
              embedding = some (to_json embedding);
              metadata = metadata;
              confidence_score = ratio 7 10;
              decay_score = of_ℕ 1;
              archived = false;
              source_entry_ids = some source_ids;
              created_at = now;
              updated_at = now;
            } in
            ok (row, rows ++ row ∷ [])
      ])

  unfoldable pub promote_to_verified : ℕ → ℕ → M F (Unit {0})
  unfolding statement update_where
  promote_to_verified id evidence_id = statement (λ rows now. ok (
    tt,
    (update_where (λ (r : Row). r.id == id)
        (λ (r : Row). record r {
          tier = codes "verified";
          confidence_score = of_ℕ 1;
          updated_at = now;
        })
        rows).1,
  ))

  unfoldable pub decays : Row → Bool
  decays r = text_eq r.tier (codes "raw") && not r.archived && lt (ratio 1 10) r.decay_score

  unfoldable pub decay_row : ℕ → Row → Row
  decay_row now r = record r { decay_score = mul r.decay_score (ratio 95 100); updated_at = now }

  unfoldable pub decay_tick : M F ℕ
  unfolding statement update_where decays decay_row
  decay_tick = statement (λ rows now. ok (update_where decays (decay_row now) rows))

  unfoldable pub fades : F → Row → Bool
  fades threshold r = text_eq r.tier (codes "raw") && not r.archived && lt r.decay_score threshold

  unfoldable pub archive_row : ℕ → Row → Row
  archive_row now r = record r { archived = true; updated_at = now }

  unfoldable pub archive_low_decay : F → M F ℕ
  unfolding statement update_where fades archive_row
  archive_low_decay threshold =
      statement (λ rows now. ok (update_where (fades threshold) (archive_row now) rows))
