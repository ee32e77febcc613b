-- ===== src/Tests/MemoryTests.antt =====
-- The memories at concrete inputs: three rows, one of them without an embedding; and a batch of vectors.
use sovalune_core.Common.{
  ℕ, ◌≡◌, refl, true, false, Option, none, some, List, [], ◌∷◌, map, ok, err, arith,
}
use sovalune_core.Tests.Thousandths.{thousandths}
use sovalune_core.Text.{Text, codes}
use sovalune_core.Text.Decimal.{print_nat}
use sovalune_core.Json.{null}
use sovalune_core.Memory.{
  MemoryEntry, MemoryFilter, MemoryTier, raw, verified, tier_name, from_str, Table, advance,
}
use sovalune_core.Memory.Repository.{
  matches, find_row, search_by_embedding, decay_tick, archive_low_decay,
}
use sovalune_core.Memory.Repository.Decay.{AgedAll, upkeep-Aged}
use sovalune_core.Memory.Repository.Searching.{search_by_embedding-null}
use sovalune_core.Memory.Store.{consolidate}
use sovalune_core.Memory.Store.Sources.{consolidate-first_missing}
use sovalune_core.Embedding.{EmbeddingData, vectors}
use sovalune_core.Embedding.Batches.{here, there, nothing, next, vectors-Reordered}

abbrev to_json : List ℕ → Text
to_json v = []

abbrev similarity : Text → Text → ℕ
similarity a b = 900

abbrev row : ℕ → Text → Option Text → ℕ → MemoryEntry ℕ
row id tier embedding decay_score = record {
  id = id;
  project_id = 1;
  tier = tier;
  content = codes "a memory";
  embedding = embedding;
  metadata = null;
  confidence_score = 700;
  decay_score = decay_score;
  archived = false;
  source_entry_ids = none;
  created_at = id;
  updated_at = id;
}

abbrev first_row : MemoryEntry ℕ
first_row = row 1 (codes "raw") (some (codes "[1]")) 500

abbrev bare_row : MemoryEntry ℕ
bare_row = row 2 (codes "raw") none 50

abbrev last_row : MemoryEntry ℕ
last_row = row 3 (codes "verified") (some (codes "[2]")) 50

abbrev table : Table ℕ
table = record { rows = first_row ∷ bare_row ∷ last_row ∷ []; clock = 10; faults = [] }

upkeep-Aged_example :
    AgedAll table.rows (decay_tick thousandths to_json table).1.rows
    × AgedAll table.rows (archive_low_decay thousandths to_json 100 table).1.rows
upkeep-Aged_example = upkeep-Aged thousandths to_json table 100

-- the verified row keeps its low score, and is not archived with the raw one
archived_two : (archive_low_decay thousandths to_json 100 table).0 ≡ ok 1
unfolding archive_low_decay sovalune_core.Text.text_eq
archived_two = refl

abbrev anything : MemoryFilter ℕ
anything = record {
  project_id = some 1;
  tier = none;
  min_confidence = some 500;
  archived = some false;
  query = none;
}

bare_matches : matches thousandths to_json anything bare_row ≡ true
unfolding matches
bare_matches = refl

search_by_embedding-null_example :
    search_by_embedding thousandths to_json similarity (5 ∷ []) anything 2 table
    ≡ (err (codes "unexpected null"), advance table)
unfolding sovalune_core.Memory.next_fault
search_by_embedding-null_example =
    search_by_embedding-null thousandths to_json similarity (5 ∷ []) anything table (first_row ∷ [])
      (last_row ∷ []) bare_row 1 refl refl refl bare_matches refl

no_row : find_row thousandths to_json 9 table.rows ≡ none
unfolding find_row
no_row = refl

consolidate-first_missing_example :
    (e : Text) × (t' : Table ℕ) × (consolidate thousandths to_json print_nat
        (9 ∷ 1 ∷ 3 ∷ [])
        (5 ∷ [])
        table
      ≡ (err e, t'))
    × (t'.rows ≡ table.rows)
consolidate-first_missing_example =
    consolidate-first_missing thousandths to_json print_nat 9 (1 ∷ 3 ∷ []) (5 ∷ []) table refl
      no_row

abbrev data_at : ℕ → EmbeddingData ℕ
data_at n = record { embedding = n ∷ []; index = n }

vectors-Reordered_example :
    vectors (data_at 1 ∷ data_at 0 ∷ [])
    ≡ map (λ (d : EmbeddingData ℕ). d.embedding) (data_at 0 ∷ data_at 1 ∷ [])
vectors-Reordered_example =
    vectors-Reordered (data_at 0 ∷ data_at 1 ∷ []) (data_at 1 ∷ data_at 0 ∷ [])
      (next (data_at 1) (data_at 0 ∷ []) (data_at 0 ∷ data_at 1 ∷ []) (data_at 0 ∷ [])
        (there (data_at 0) [] (data_at 1 ∷ []) (here []))
        (next (data_at 0) [] (data_at 0 ∷ []) [] (here []) nothing))
      (omega arith)
