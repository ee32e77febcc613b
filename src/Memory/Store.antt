-- ===== src/Memory/Store.antt =====
-- crates/sovalune-vector-memory/src/store.rs and lib.rs: `VectorMemoryStore` over the repository, and
-- `EmbeddingVectorMemoryStore`, which makes the embeddings. `embed` is the backend's answer, its error
-- kept as the text that it prints.
pub mod Sources
use sovalune_core.Common.{
  ℕ, Bool, Option, none, some, List, [], ◌∷◌, ◌++◌, map, length, Result, ok, err, if◌then◌else◌,
}
use sovalune_core.Float.{Float}
use sovalune_core.Text.{Text, codes}
use sovalune_core.Text.Decimal.{print_nat}
use sovalune_core.Text.Pieces.{join}
use sovalune_core.Json.{Json, number, array, string, items, object_of}
use sovalune_core.Memory.{
  raw, MemoryEntry, CreateMemoryEntry, UpdateMemoryEntry, MemoryFilter, M, pure, fail, ◌>>=◌, ◌>>◌,
}
use sovalune_core.Memory.Repository.{create, get, list, search_by_embedding}
use sovalune_core.Memory.Repository

pub record ScoredMemory (F : Type 0) : Type 0 where
  pub entry : MemoryEntry F
  pub score : F

pub record Evidence : Type 0 where
  pub source_type : Text
  pub source_url : Option Text
  pub excerpt : Text
  pub trust_tier : ℕ

-- `contents.join("\n---\n")` under a line that counts them
unfoldable pub consolidated_text : List Text → Text
consolidated_text contents =
    codes "Consolidated from "
    ++ (print_nat (length contents)
        ++ (codes " sources:" ++ (10 ∷ join (10 ∷ (codes "---" ++ 10 ∷ [])) contents)))

-- `print_uuid` is the text of an identifier
unfoldable pub consolidation_metadata : (ℕ → Text) → ℕ → List ℕ → Json
consolidation_metadata print_uuid source_count source_ids = object_of (
    (codes "source_count", number source_count)
    ∷ (codes "source_ids", array (items (map (λ id. string (print_uuid id)) source_ids)))
    ∷ [])

module _ (fl : Float) (to_json : List fl.F → Text) where
  open fl use {F, ratio}

  unfoldable pub insert_raw : ℕ → Text → List F → Json → M F ℕ
  unfolding ◌>>=◌ pure
  insert_raw project_id content embedding metadata = do
    created ← create fl to_json (record {
      project_id = project_id;
      tier = raw;
      content = content;
      embedding = some embedding;
      metadata = metadata;
      confidence_score = some (ratio 5 10);
      source_entry_ids = none;
    })
    pure created.id

  unfoldable pub scored : List (MemoryEntry F × F) → List (ScoredMemory F)
  scored results = map (λ (r : MemoryEntry F × F). record { entry = r.0; score = r.1 }) results

  unfoldable pub search :
      (Text → Text → F) → List F → MemoryFilter F → ℕ → M F (List (ScoredMemory F))
  unfolding ◌>>=◌ pure scored
  search similarity query_embedding filter top_k = do
    results ← search_by_embedding fl to_json similarity query_embedding filter top_k
    pure (scored results)

  unfoldable pub search_by_text :
      (Text → Text → Bool) → Text → MemoryFilter F → ℕ → M F (List (MemoryEntry F))
  search_by_text ilike query filter limit =
      list fl to_json ilike (record filter { query = some query }) limit 0

  unfoldable pub get_entry : ℕ → M F (Option (MemoryEntry F))
  get_entry id = get fl to_json id

  unfoldable pub update_entry :
      ℕ → Option Text → Option Json → Option F → Option Bool → M F (Option (MemoryEntry F))
  update_entry id content metadata confidence_score archived =
      Repository.update fl to_json id (record {
        content = content;
        metadata = metadata;
        confidence_score = confidence_score;
        archived = archived;
      })

  -- what a search for one source adds to those found
  unfoldable pub with_found : {R : Type 0} → List R → Option R → List R
  with_found sources none = sources
  with_found sources (some entry) = sources ++ entry ∷ []

  -- the loop over the identifiers: the rows that are there
  unfoldable pub load_sources : List ℕ → List (MemoryEntry F) → M F (List (MemoryEntry F))
  unfolding ◌>>=◌ pure with_found
  load_sources [] sources = pure sources
  load_sources (id ∷ ids) sources =
      get fl to_json id >>= λ found. load_sources ids (with_found sources found)

  module _ (print_uuid : ℕ → Text) where
    -- the sources that have been found
    unfoldable pub consolidate_found : List ℕ → List F → List (MemoryEntry F) → M F ℕ
    unfolding ◌>>=◌ pure fail consolidated_text consolidation_metadata
    consolidate_found source_ids embedding [] = fail (codes "No valid source entries found")
    consolidate_found source_ids embedding (s ∷ ss) = do
      entry ←
          Repository.consolidate fl to_json source_ids
            (consolidated_text (map (λ (r : MemoryEntry F). r.content) (s ∷ ss))) embedding
            (consolidation_metadata print_uuid (length (s ∷ ss)) source_ids)
      pure entry.id

    unfoldable pub consolidate : List ℕ → List F → M F ℕ
    unfolding ◌>>=◌ fail load_sources consolidate_found
    consolidate [] embedding = fail (codes "No source entries to consolidate")
    consolidate (id ∷ ids) embedding = do
      sources ← load_sources (id ∷ ids) []
      consolidate_found (id ∷ ids) embedding sources

  -- `fresh` is the identifier that the code makes up for the evidence
  unfoldable pub promote_to_verified : ℕ → ℕ → Evidence → M F (Unit {0})
  promote_to_verified fresh id evidence = Repository.promote_to_verified fl to_json id fresh

  unfoldable pub decay_tick : M F ℕ
  decay_tick = Repository.decay_tick fl to_json

  unfoldable pub archive_low_decay : F → M F ℕ
  archive_low_decay threshold = Repository.archive_low_decay fl to_json threshold

  unfoldable pub delete : ℕ → M F (Unit {0})
  delete id = Repository.delete fl to_json id

  -- `EmbeddingVectorMemoryStore`
  module _ (embed : Text → Result (List F) Text) where
    -- `embed(text).await?`
    unfoldable pub embedded : Text → M F (List F)
    unfolding pure fail
    embedded text = elim (embed text) [ err e ↦ fail e | ok v ↦ pure v ]

    unfoldable pub insert_raw_with_embedding : ℕ → Text → Json → M F ℕ
    unfolding ◌>>=◌ embedded insert_raw
    insert_raw_with_embedding project_id content metadata = do
      embedding ← embedded content
      insert_raw project_id content embedding metadata

    unfoldable pub search_by_text_with_embedding :
        (Text → Text → F) → Text → MemoryFilter F → ℕ → M F (List (ScoredMemory F))
    unfolding ◌>>=◌ embedded search
    search_by_text_with_embedding similarity query filter top_k = do
      query_embedding ← embedded query
      search similarity query_embedding filter top_k

    -- the contents that have been found
    unfoldable pub consolidate_contents : (ℕ → Text) → List ℕ → List (MemoryEntry F) → M F ℕ
    unfolding ◌>>=◌ fail embedded consolidate consolidated_text
    consolidate_contents print_uuid source_ids [] = fail (codes "No valid source entries found")
    consolidate_contents print_uuid source_ids (s ∷ ss) = do
      embedding ← embedded (consolidated_text (map (λ (r : MemoryEntry F). r.content) (s ∷ ss)))
      consolidate print_uuid source_ids embedding

    unfoldable pub consolidate_with_embedding : (ℕ → Text) → List ℕ → M F ℕ
    unfolding ◌>>=◌ load_sources consolidate_contents
    consolidate_with_embedding print_uuid source_ids = do
      sources ← load_sources source_ids []
      consolidate_contents print_uuid source_ids sources
