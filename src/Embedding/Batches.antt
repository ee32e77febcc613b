-- ===== src/Embedding/Batches.antt =====
-- crates/sovalune-model-runtime/src/embedding.rs: the order of the vectors of a batch.
use sovalune_core.Common.{◌<◌, ◌≡◌, refl, ap, ◌∙◌, List, [], ◌∷◌, map, All, arith}
use sovalune_core.Embedding.{EmbeddingData, insert_by_index, sort_by_index, vectors}

module _ {F : Type 0} where
  -- every index is above those before it
  abbrev pub Increasing : List (EmbeddingData F) → Type 0
  Increasing [] = Unit
  Increasing (d ∷ ds) = All (λ (e : EmbeddingData F). d.index < e.index) ds × Increasing ds

  -- `ds` is `es` with `d` put in somewhere
  pub data Inserted (d : EmbeddingData F)
      : List (EmbeddingData F) → List (EmbeddingData F) → Type 0 where
    here : (es : List (EmbeddingData F)) → Inserted d es (d ∷ es)
    there :
        (e : EmbeddingData F) (es ds : List (EmbeddingData F))
        → Inserted d es ds
        → Inserted d (e ∷ es) (e ∷ ds)

  -- the second list has the elements of the first, in any order
  pub data Reordered : List (EmbeddingData F) → List (EmbeddingData F) → Type 0 where
    nothing : Reordered [] []
    next :
        (d : EmbeddingData F) (es' es ds : List (EmbeddingData F))
        → Inserted d es' es
        → Reordered es' ds
        → Reordered es (d ∷ ds)

  Inserted-All :
      (P : EmbeddingData F → Type 0) (d : EmbeddingData F) (es ds : List (EmbeddingData F))
      → Inserted d es ds
      → All P ds
      → P d × All P es
  Inserted-All P d _ _ (here es) h = h
  Inserted-All P d _ _ (there e es ds p) h =
      let (hd, hes) = Inserted-All P d es ds p h.1 in (hd, (h.0, hes))

  Inserted-Increasing :
      (d : EmbeddingData F) (es ds : List (EmbeddingData F))
      → Inserted d es ds
      → Increasing ds
      → Increasing es
  Inserted-Increasing d _ _ (here es) h = h.1
  Inserted-Increasing d _ _ (there e es ds p) h =
      ((Inserted-All _ d es ds p h.0).1, Inserted-Increasing d es ds p h.1)

  insert_first :
      (d : EmbeddingData F) (es : List (EmbeddingData F))
      → All (λ (e : EmbeddingData F). d.index < e.index) es
      → insert_by_index d es ≡ d ∷ es
  unfolding insert_by_index
  insert_first d [] h = refl
  insert_first d (e ∷ es) h = ground (arith, h.0)

  insert_by_index-Inserted :
      (d : EmbeddingData F) (es ds : List (EmbeddingData F))
      → Inserted d es ds
      → Increasing ds
      → insert_by_index d es ≡ ds
  unfolding insert_by_index
  insert_by_index-Inserted d _ _ (here es) h = insert_first d es h.0
  insert_by_index-Inserted d _ _ (there e es ds p) h =
      let before = (Inserted-All (λ (x : EmbeddingData F). e.index < x.index) d es ds p h.0).0 in
      ground (arith, before, insert_by_index-Inserted d es ds p h.1)

  sort_by_index-Reordered :
      (es ds : List (EmbeddingData F)) → Reordered es ds → Increasing es → sort_by_index ds ≡ es
  unfolding sort_by_index
  sort_by_index-Reordered _ _ nothing h = refl
  sort_by_index-Reordered _ _ (next d es' es ds p r) h =
      ap (insert_by_index d) (sort_by_index-Reordered es' ds r (Inserted-Increasing d es' es p h))
      ∙ insert_by_index-Inserted d es' es p h

  -- In whatever order the reply lists its data, if no index occurs twice the vectors are returned in
  -- the order of their indices.
  pub vectors-Reordered :
      (es ds : List (EmbeddingData F))
      → Reordered es ds
      → Increasing es
      → vectors ds ≡ map (λ (d : EmbeddingData F). d.embedding) es
  unfolding vectors
  vectors-Reordered es ds r h =
      ap (map (λ (d : EmbeddingData F). d.embedding)) (sort_by_index-Reordered es ds r h)
