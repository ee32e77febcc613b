-- ===== src/Storage.antt =====
-- crates/sovalune-storage-client/src/repositories/project.rs and session.rs: the records, and the tables
-- of migrations 002 and 003. The rows are in the order of insertion. `clock` counts the statements from 1
-- on: it is `now()`, and the source of fresh identifiers. `faults` says of each statement to come whether
-- the database fails it (no entry: it does not). The statements are taken as they act where the database
-- accepts them. What a deletion takes from the tables of other repositories is left out.
pub mod Projects
pub mod Sessions
pub mod Ordering
pub mod History
use sovalune_core.Common.{
  ℕ, zero, suc, ◌+◌, Bool, true, false, Option, List, [], ◌∷◌, Result, ok, err, leb, if◌then◌else◌,
}
use sovalune_core.Text.{Text, codes}
use sovalune_core.Json.{Json}

pub record Project : Type 0 where
  pub id : ℕ
  pub name : Text
  pub settings : Json
  pub created_at : ℕ

pub record CreateProject : Type 0 where
  pub name : Text
  pub settings : Option Json

pub record UpdateProject : Type 0 where
  pub name : Option Text
  pub settings : Option Json

pub record Session : Type 0 where
  pub id : ℕ
  pub project_id : ℕ
  pub created_at : ℕ

pub record Message : Type 0 where
  pub id : ℕ
  pub session_id : ℕ
  pub role : Text
  pub content : Text
  pub tool_call : Option Json
  pub request_id : ℕ
  pub created_at : ℕ

pub record CreateMessage : Type 0 where
  pub session_id : ℕ
  pub role : Text
  pub content : Text
  pub tool_call : Option Json
  pub request_id : ℕ

pub record Tables : Type 0 where
  pub projects : List Project
  pub sessions : List Session
  pub messages : List Message
  pub clock : ℕ
  pub faults : List Bool

-- `i64`
pub data Int64 : Type 0 where
  pos : ℕ → Int64
  negsuc : ℕ → Int64

-- an action on the tables
abbrev pub M : Type 0 → Type 0
M A = Tables → Result A Text × Tables

unfoldable pub pure : {A : Type 0} → A → M A
pure a t = (ok a, t)

unfoldable pub after : {A B : Type 0} → Result A Text → Tables → (A → M B) → Result B Text × Tables
after (ok a) t f = f a t
after (err e) t f = (err e, t)

infixl 5 ◌>>=◌ ◌>>◌
unfoldable pub ◌>>=◌ : {A B : Type 0} → M A → (A → M B) → M B
unfolding after
◌>>=◌ m f t = after (m t).0 (m t).1 f

unfoldable pub ◌>>◌ : {A B : Type 0} → M A → M B → M B
unfolding ◌>>=◌
◌>>◌ m k = m >>= λ _. k

-- the clock ticks, and the next fault is used up
unfoldable pub advance : List Bool → Tables → Tables
advance faults t = record t { clock = t.clock + 1; faults = faults }

unfoldable pub answered :
    {A : Type 0} → List Bool → Tables → Result (A × Tables) Text → Result A Text × Tables
unfolding advance
answered faults t (ok (a, t')) = (ok a, advance faults t')
answered faults t (err e) = (err e, advance faults t)

unfoldable pub run_with : {A : Type 0} → List Bool → (Tables → Result (A × Tables) Text) → M A
unfolding advance answered
run_with [] run t = answered [] t (run t)
run_with (true ∷ faults) run t = (err (codes "database error"), advance faults t)
run_with (false ∷ faults) run t = answered faults t (run t)

-- a statement: what it makes of the tables, which keeps their clock and faults
unfoldable pub statement : {A : Type 0} → (Tables → Result (A × Tables) Text) → M A
unfolding run_with
statement run t = run_with t.faults run t

-- `LIMIT $1 OFFSET $2`
unfoldable pub offset_by : {A : Type 0} → List A → ℕ → List A
offset_by [] n = []
offset_by (a ∷ rest) zero = a ∷ rest
offset_by (a ∷ rest) (suc n) = offset_by rest n

unfoldable pub limit_to : {A : Type 0} → List A → ℕ → List A
limit_to [] n = []
limit_to (a ∷ rest) zero = []
limit_to (a ∷ rest) (suc n) = a ∷ limit_to rest n

unfoldable pub limited : {A : Type 0} → Int64 → List A → Result (List A) Text
unfolding limit_to
limited (pos n) rows = ok (limit_to rows n)
limited (negsuc n) rows = err (codes "LIMIT must not be negative")

unfoldable pub page : {A : Type 0} → Int64 → Int64 → List A → Result (List A) Text
unfolding limited offset_by
page limit (pos n) rows = limited limit (offset_by rows n)
page limit (negsuc n) rows = err (codes "OFFSET must not be negative")

unfoldable pub read_only : {A : Type 0} → Tables → Result A Text → Result (A × Tables) Text
read_only t (ok a) = ok (a, t)
read_only t (err e) = err e

-- a query that changes nothing
unfoldable pub query : {A : Type 0} → (Tables → Result A Text) → M A
unfolding statement read_only
query read = statement (λ t. read_only t (read t))

-- rows with the time of each: `ORDER BY created_at`
module _ {A : Type 0} (created : A → ℕ) where
  unfoldable pub insert_oldest : A → List A → List A
  insert_oldest r [] = r ∷ []
  insert_oldest r (s ∷ ss) =
      let rest = insert_oldest r ss in if leb (created r) (created s) then r ∷ s ∷ ss else s ∷ rest

  unfoldable pub oldest_first : List A → List A
  unfolding insert_oldest
  oldest_first [] = []
  oldest_first (r ∷ rs) = insert_oldest r (oldest_first rs)

  unfoldable pub insert_newest : A → List A → List A
  insert_newest r [] = r ∷ []
  insert_newest r (s ∷ ss) =
      let rest = insert_newest r ss in if leb (created s) (created r) then r ∷ s ∷ ss else s ∷ rest

  unfoldable pub newest_first : List A → List A
  unfolding insert_newest
  newest_first [] = []
  newest_first (r ∷ rs) = insert_newest r (newest_first rs)
