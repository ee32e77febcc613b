-- ===== src/Learning/Status/Progress.antt =====
-- crates/sovalune-self-learning/src/lib.rs: the texts of a status, and the path of `next`.
use sovalune_core.Common.{
  ℕ, ◌+◌, ◌≡◌, ◌≢◌, ◌↔◌, ◌⊎◌, refl, ap, ◌∙◌, true, false, none, some, inl, inr, arith,
}
use sovalune_core.Text.{Text, codes, text_eq}
use sovalune_core.Text.Equality.{text_eq-eq}
use sovalune_core.Learning.Status.{
  LearningCycleStatus, detected, researching, verifying, practicing, testing, applying, completed,
  failed, display, from_str, next, is_terminal,
}

from_str-display : (s : LearningCycleStatus) → from_str (display s) ≡ some s
unfolding from_str display text_eq
from_str-display detected = refl
from_str-display _ = refl

display-from_str : (t : Text) (s : LearningCycleStatus) → from_str t ≡ some s → t ≡ display s
unfolding from_str display
display-from_str t s h = ground (
  arith,
  text_eq-eq t (codes "detected"),
  text_eq-eq t (codes "researching"),
  text_eq-eq t (codes "verifying"),
  text_eq-eq t (codes "practicing"),
  text_eq-eq t (codes "testing"),
  text_eq-eq t (codes "applying"),
  text_eq-eq t (codes "completed"),
  text_eq-eq t (codes "failed"),
)

-- A text parses to a status exactly when it is the text that the status prints.
pub from_str-iff-display :
    (t : Text) (s : LearningCycleStatus) → (from_str t ≡ some s) ↔ (t ≡ display s)
from_str-iff-display t s = (display-from_str t s, λ e. ap from_str e ∙ from_str-display s)

-- what is left of the way to `completed`
abbrev pub remaining : LearningCycleStatus → ℕ
remaining detected = 6
remaining researching = 5
remaining verifying = 4
remaining practicing = 3
remaining testing = 2
remaining applying = 1
remaining completed = 0
remaining failed = 0

-- A status either is terminal and has no next one, or its next one is one step nearer to `completed`
-- and is not `failed`.
pub next-progress :
    (s : LearningCycleStatus)
    → ((is_terminal s ≡ true) × (next s ≡ none))
      ⊎ ((t : LearningCycleStatus) × (is_terminal s ≡ false)
          × (next s ≡ some t)
          × (remaining t + 1 ≡ remaining s)
          × (t ≢ failed))
unfolding next is_terminal
next-progress detected = inr (researching, refl, refl, refl, ground arith)
next-progress researching = inr (verifying, refl, refl, refl, ground arith)
next-progress verifying = inr (practicing, refl, refl, refl, ground arith)
next-progress practicing = inr (testing, refl, refl, refl, ground arith)
next-progress testing = inr (applying, refl, refl, refl, ground arith)
next-progress applying = inr (completed, refl, refl, refl, ground arith)
next-progress completed = inl (refl, refl)
next-progress failed = inl (refl, refl)
