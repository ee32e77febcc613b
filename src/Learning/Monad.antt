-- ===== src/Learning/Monad.antt =====
-- The world that the learning crates act on, and the actions: an answer, an error or a panic, with the
-- world after it.
-- The tables are lists in the order of insertion. `faults` says of each database call to come whether
-- it fails (no entry: it does not); a failing call changes no table. `clock` counts the database
-- calls: it is `NOW()`, and the source of fresh identifiers. `events` are the messages published to
-- NATS, `memory` the texts stored in vector memory.
pub mod Run
pub mod Triple
use sovalune_core.Common.{ℕ, suc, ◌+◌, Bool, true, false, Option, none, some, List, [], ◌∷◌}
use sovalune_core.Text.{Text}

pub record CycleRow (F : Type 0) : Type 0 where
  pub id : ℕ
  pub project_id : ℕ
  pub status : Text
  pub origin_task_id : ℕ
  pub failure_reason : Option Text
  pub retry_count : ℕ
  pub confidence_score : Option F
  pub created_at : ℕ
  pub updated_at : ℕ

pub record Evidence : Type 0 where
  pub id : ℕ
  pub cycle_id : ℕ
  pub source_type : Text
  pub source_url : Option Text
  pub excerpt : Text
  pub trust_tier : ℕ
  pub created_at : ℕ

-- the JSON that the stages write beside a test result
pub data Detail (F : Type 0) : Type 0 where
  fallback : Text → Detail F
  practice : Text → ℕ → ℕ → Detail F
  evaluation : F → Text → ℕ → Detail F
  skipped : F → Text → Detail F
  verification : F → F → ℕ → F → Detail F
  application : Text → ℕ → ℕ → Detail F

pub record TestResult (F : Type 0) : Type 0 where
  pub id : ℕ
  pub cycle_id : ℕ
  pub stage : Text
  pub passed : Bool
  pub detail : Detail F
  pub created_at : ℕ

pub data Payload : Type 0 where
  empty : Payload
  reason : Text → Payload
  stage_change : ℕ → ℕ → Text → Text → Payload

pub record Event : Type 0 where
  pub subject : Text
  pub project_id : ℕ
  pub payload : Payload

pub record World (F : Type 0) : Type 0 where
  pub cycles : List (CycleRow F)
  pub evidence : List Evidence
  pub test_results : List (TestResult F)
  pub faults : List Bool
  pub clock : ℕ
  pub events : List Event
  pub memory : List Text

-- the messages of `anyhow!` and the errors passed on by `?`
pub data Error : Type 0 where
  database : Error
  cycle_not_found : ℕ → Error
  not_found_after_update : Error
  already_terminal : Text → Error
  cannot_advance : Text → Error
  max_retries_exceeded : Error
  circuit_breaker : Error
  invalid_status : Text → Error
  no_inference : Error
  no_memory : Error
  inference : Text → Error
  memory_failed : Text → Error

pub data Answer (A : Type 0) : Type 0 where
  ok : A → Answer A
  err : Error → Answer A
  panicked : Answer A

abbrev pub M : Type 0 → Type 0 → Type 0
M F A = World F → Answer A × World F

-- how a chain goes on after a step: an error or a panic ends it
abbrev pub after : {F A B : Type 0} → Answer A → World F → (A → M F B) → Answer B × World F
after (ok a) w f = f a w
after (err e) w f = (err e, w)
after panicked w f = (panicked, w)

infixl 5 ◌>>=◌ ◌>>◌
unfoldable pub ◌>>=◌ : {F A B : Type 0} → M F A → (A → M F B) → M F B
◌>>=◌ m f w = after (m w).0 (m w).1 f

unfoldable pub ◌>>◌ : {F A B : Type 0} → M F A → M F B → M F B
◌>>◌ m k w = after (m w).0 (m w).1 (λ _. k)

unfoldable pub pure : {F A : Type 0} → A → M F A
pure a w = (ok a, w)

unfoldable pub fail : {F A : Type 0} → Error → M F A
fail e w = (err e, w)

-- `match m.await { Ok(a) => .., Err(e) => .. }`: the error is handled, a panic is not
abbrev pub either :
    {F A B : Type 0} → Answer A → World F → (A → M F B) → (Error → M F B) → Answer B × World F
either (ok a) w f g = f a w
either (err e) w f g = g e w
either panicked w f g = (panicked, w)

unfoldable pub handle : {F A B : Type 0} → M F A → (A → M F B) → (Error → M F B) → M F B
handle m f g w = either (m w).0 (m w).1 f g

-- `option.ok_or_else(..)?`
unfoldable pub require : {F A : Type 0} → Error → Option A → M F A
unfolding pure fail
require e none = fail e
require e (some a) = pure a

-- a database call: the time moves on, and the call may fail before it does anything
abbrev pub called :
    {F A : Type 0} → List Bool → (World F → Answer A × World F) → World F → Answer A × World F
called [] act w = act (record w { clock = w.clock + 1 })
called (true ∷ rest) act w = (err database, record w { clock = w.clock + 1; faults = rest })
called (false ∷ rest) act w = act (record w { clock = w.clock + 1; faults = rest })

unfoldable pub call : {F A : Type 0} → (World F → Answer A × World F) → M F A
call act w = called w.faults act w
