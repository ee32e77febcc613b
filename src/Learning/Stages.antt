-- ===== src/Learning/Stages.antt =====
-- crates/sovalune-self-learning/src/stages: what the handlers use of other code, their texts and the
-- handlers themselves.
pub mod Prompts
pub mod Handlers
pub mod Safety
pub mod Outcomes
use sovalune_core.Common.{ℕ, Bool, Option}
use sovalune_core.Text.{Text}
use sovalune_core.Learning.Monad.{Error}

-- The printing of identifiers, confidences and errors, the parsing of `f32`, and whether messages of
-- level info are written: the arguments of a message that is not written are not evaluated.
pub record Outside (F : Type 0) : Type 0 where
  pub print_id : ℕ → Text
  pub print_confidence : Option F → Text
  pub to_string : Error → Text
  pub parse_f32 : Text → Option F
  pub logs : Bool
