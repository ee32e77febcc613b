-- ===== src/Memory.antt =====
-- crates/sovalune-storage-client/src/repositories/memory.rs: tiers, entries and filters, and the table
-- of the entries. The rows are in the order of insertion; an embedding is the text of its JSON. `clock`
-- counts the statements from 1 on: it is `NOW()`, and the source of fresh identifiers. `faults` says of each
-- statement to come whether the database fails it (no entry: it does not); a failing one changes no row.
-- The statements are taken as they act where the database accepts them.
pub mod Repository
pub mod Store
pub mod Tiers
use sovalune_core.Common.{
  ℕ, suc, ◌+◌, Bool, true, false, Option, List, [], ◌∷◌, ◌++◌, Result, ok, err, if◌then◌else◌,
}
use sovalune_core.Text.{Text, codes, text_eq}
use sovalune_core.Json.{Json}

pub data MemoryTier : Type 0 where
  raw : MemoryTier
  consolidated : MemoryTier
  verified : MemoryTier

unfoldable pub tier_name : MemoryTier → Text
tier_name raw = codes "raw"
tier_name consolidated = codes "consolidated"
tier_name verified = codes "verified"

unfoldable pub from_str : Text → Result MemoryTier Text
from_str s =
    if text_eq s (codes "raw")
    then ok raw
    else if text_eq s (codes "consolidated")
    then ok consolidated
    else if text_eq s (codes "verified")
    then ok verified
    else err (codes "Invalid tier: " ++ s)

pub record MemoryEntry (F : Type 0) : Type 0 where
  pub id : ℕ
  pub project_id : ℕ
  pub tier : Text
  pub content : Text
  pub embedding : Option Text
  pub metadata : Json
  pub confidence_score : F
  pub decay_score : F
  pub archived : Bool
  pub source_entry_ids : Option (List ℕ)
  pub created_at : ℕ
  pub updated_at : ℕ

pub record CreateMemoryEntry (F : Type 0) : Type 0 where
  pub project_id : ℕ
  pub tier : MemoryTier
  pub content : Text
  pub embedding : Option (List F)
  pub metadata : Json
  pub confidence_score : Option F
  pub source_entry_ids : Option (List ℕ)

pub record UpdateMemoryEntry (F : Type 0) : Type 0 where
  pub content : Option Text
  pub metadata : Option Json
  pub confidence_score : Option F
  pub archived : Option Bool

pub record MemoryFilter (F : Type 0) : Type 0 where
  pub project_id : Option ℕ
  pub tier : Option MemoryTier
  pub min_confidence : Option F
  pub archived : Option Bool
  pub query : Option Text

pub record Table (F : Type 0) : Type 0 where
  pub rows : List (MemoryEntry F)
  pub clock : ℕ
  pub faults : List Bool

-- an action on the table
abbrev pub M : Type 0 → Type 0 → Type 0
M F A = Table F → Result A Text × Table F

-- whether the next statement fails, and what is known of those after it
unfoldable pub next_fault : List Bool → Bool × List Bool
next_fault [] = (false, [])
next_fault (b ∷ bs) = (b, bs)

module _ {F : Type 0} where
  unfoldable pub pure : {A : Type 0} → A → M F A
  pure a t = (ok a, t)

  unfoldable pub fail : {A : Type 0} → Text → M F A
  fail e t = (err e, t)

  -- what follows an answer
  unfoldable pub after :
      {A B : Type 0} → Result A Text → Table F → (A → M F B) → Result B Text × Table F
  after (ok a) t f = f a t
  after (err e) t f = (err e, t)

  infixl 5 ◌>>=◌ ◌>>◌
  unfoldable pub ◌>>=◌ : {A B : Type 0} → M F A → (A → M F B) → M F B
  unfolding after
  ◌>>=◌ m f t = after (m t).0 (m t).1 f

  unfoldable pub ◌>>◌ : {A B : Type 0} → M F A → M F B → M F B
  unfolding ◌>>=◌
  ◌>>◌ m k = m >>= λ _. k

  unfoldable pub advance : Table F → Table F
  unfolding next_fault
  advance t = record t { clock = t.clock + 1; faults = (next_fault t.faults).1 }

  -- a statement: what it makes of the rows and the time
  unfoldable pub statement :
      {A : Type 0} → (List (MemoryEntry F) → ℕ → Result (A × List (MemoryEntry F)) Text) → M F A
  unfolding advance next_fault
  statement run t = elim ((next_fault t.faults).0) [
    | true ↦ (err (codes "database error"), advance t)
    | false ↦ elim (run t.rows t.clock) [
      | err e ↦ (err e, advance t)
      | ok (a, rows') ↦ (ok a, record (advance t) { rows = rows' })
    ]
  ]
