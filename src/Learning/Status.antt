-- ===== src/Learning/Status.antt =====
-- crates/sovalune-self-learning/src/lib.rs: `LearningCycleStatus`.
pub mod Progress
use sovalune_core.Common.{ℕ, Bool, true, false, Option, none, some, List, [], ◌∷◌, if◌then◌else◌}
use sovalune_core.Text.{Text, codes, text_eq}

pub data LearningCycleStatus : Type 0 where
  detected researching verifying practicing testing applying completed failed : LearningCycleStatus

-- `Display`
unfoldable pub display : LearningCycleStatus → Text
display detected = codes "detected"
display researching = codes "researching"
display verifying = codes "verifying"
display practicing = codes "practicing"
display testing = codes "testing"
display applying = codes "applying"
display completed = codes "completed"
display failed = codes "failed"

-- `FromStr`; `none` is the error "Invalid status"
unfoldable pub from_str : Text → Option LearningCycleStatus
from_str s =
    if text_eq s (codes "detected")
    then some detected
    else if text_eq s (codes "researching")
    then some researching
    else if text_eq s (codes "verifying")
    then some verifying
    else if text_eq s (codes "practicing")
    then some practicing
    else if text_eq s (codes "testing")
    then some testing
    else if text_eq s (codes "applying")
    then some applying
    else if text_eq s (codes "completed")
    then some completed
    else if text_eq s (codes "failed")
    then some failed
    else none

unfoldable pub next : LearningCycleStatus → Option LearningCycleStatus
next detected = some researching
next researching = some verifying
next verifying = some practicing
next practicing = some testing
next testing = some applying
next applying = some completed
next _ = none

unfoldable pub is_terminal : LearningCycleStatus → Bool
is_terminal completed = true
is_terminal failed = true
is_terminal _ = false
