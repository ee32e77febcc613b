-- ===== src/Memory/Repository/Decay.antt =====
-- crates/sovalune-storage-client/src/repositories/memory.rs: what the upkeep of the memories may change.
use sovalune_core.Common.{
  ℕ, ◌≡◌, ◌≢◌, refl, Bool, true, ◌&&◌, List, [], ◌∷◌, ok, Bool-cases, inl, inr, arith,
}
use sovalune_core.Float.{Float}
use sovalune_core.Text.{Text, codes, text_eq}
use sovalune_core.Text.Equality.{text_eq-eq}
use sovalune_core.Memory.{MemoryEntry, Table, advance, next_fault, statement}
use sovalune_core.Memory.Repository.{
  update_where, decays, fades, decay_row, archive_row, decay_tick, archive_low_decay,
}

module _ {F : Type 0} where
  -- a row before and after: its identity, content and tier stay, and all of it unless it is raw
  abbrev pub Aged : MemoryEntry F → MemoryEntry F → Type 0
  Aged r s =
      (s.id ≡ r.id) × (s.content ≡ r.content) × (s.tier ≡ r.tier) × (r.tier ≢ codes "raw" → s ≡ r)

  -- row by row
  abbrev pub AgedAll : List (MemoryEntry F) → List (MemoryEntry F) → Type 0
  AgedAll [] [] = Unit
  AgedAll [] (s ∷ ss) = ⊥
  AgedAll (r ∷ rs) [] = ⊥
  AgedAll (r ∷ rs) (s ∷ ss) = Aged r s × AgedAll rs ss

  AgedAll-refl : (rs : List (MemoryEntry F)) → AgedAll rs rs
  AgedAll-refl [] = tt
  AgedAll-refl (r ∷ rs) = ((refl, refl, refl, λ h. refl), AgedAll-refl rs)

  update_where-Aged :
      (test : MemoryEntry F → Bool) (change : MemoryEntry F → MemoryEntry F)
      → ((r : MemoryEntry F) → test r ≡ true → Aged r (change r))
      → (rs : List (MemoryEntry F)) → AgedAll rs (update_where test change rs).1
  unfolding update_where
  update_where-Aged test change ages [] = tt
  update_where-Aged test change ages (r ∷ rs) = elim (Bool-cases (test r)) [
    | inl h ↦ rw (h, update_where) (ages r h, update_where-Aged test change ages rs)
    | inr h ↦
        rw (h, update_where) ((refl, refl, refl, λ k. refl), update_where-Aged test change ages rs)
  ]

  statement-Aged :
      (test : MemoryEntry F → Bool) (change : ℕ → MemoryEntry F → MemoryEntry F)
      → ((now : ℕ) (r : MemoryEntry F) → test r ≡ true → Aged r (change now r))
      → (t : Table F)
      → AgedAll t.rows (statement (λ rows now. ok (update_where test (change now) rows)) t).1.rows
  unfolding statement advance
  statement-Aged test change ages t = elim (Bool-cases (next_fault t.faults).0) [
    | inl h ↦ rw (h, statement) (AgedAll-refl t.rows)
    | inr h ↦ rw (h, statement) (update_where-Aged test (change t.clock) (ages t.clock) t.rows)
  ]

raw_of : (a b : Bool) (s : Text) → (text_eq s (codes "raw") && a && b) ≡ true → s ≡ codes "raw"
raw_of a b s h = ground (arith, text_eq-eq s (codes "raw"))

module _ (fl : Float) (to_json : List fl.F → Text) (t : Table fl.F) where
  decay_tick-Aged : AgedAll t.rows (decay_tick fl to_json t).1.rows
  unfolding decay_tick decays decay_row
  decay_tick-Aged =
      statement-Aged (decays fl to_json) (decay_row fl to_json)
        (λ now r h. (refl, refl, refl, λ k. absurd (k (raw_of _ _ r.tier h)))) t

  archive_low_decay-Aged :
      (threshold : fl.F) → AgedAll t.rows (archive_low_decay fl to_json threshold t).1.rows
  unfolding archive_low_decay fades archive_row
  archive_low_decay-Aged threshold =
      statement-Aged (fades fl to_json threshold) (archive_row fl to_json)
        (λ now r h. (refl, refl, refl, λ k. absurd (k (raw_of _ _ r.tier h)))) t

  -- The decay and the archiving of faded memories, whether the statement succeeds or fails, lose no row
  -- and add none, keep the identity, the content and the tier of every row, and leave every row that is
  -- not raw exactly as it is.
  pub upkeep-Aged :
      (threshold : fl.F)
      → AgedAll t.rows (decay_tick fl to_json t).1.rows
        × AgedAll t.rows (archive_low_decay fl to_json threshold t).1.rows
  upkeep-Aged threshold = (decay_tick-Aged, archive_low_decay-Aged threshold)
