-- ===== src/Tests/LearningTests.antt =====
-- The learning cycle at concrete inputs.
use sovalune_core.Common.{ℕ, ◌+◌, ◌≡◌, refl, true, none, some, List, [], ◌∷◌, arith}
use sovalune_core.Text.{Text, codes, text_eq}
use sovalune_core.Learning.Status.{LearningCycleStatus, verifying, testing, display, next}
use sovalune_core.Learning.Monad.{CycleRow, World, max_retries_exceeded, circuit_breaker, ok, err}
use sovalune_core.Learning.Monad.Run.{tick}
use sovalune_core.Learning.Store.{find_row, update_row}
use sovalune_core.Learning.Orchestrator.{
  Orchestrator, LearningCycle, to_cycle, start_cycle, advance_cycle, retry_cycle,
}
use sovalune_core.Learning.Invariant.{IsValid}
use sovalune_core.Learning.Invariant.Operations.{
  Command, start, advance, give_up_on, retry, perform_all, perform_all-IsValid,
}
use sovalune_core.Learning.Transitions.{restated, advance_cycle_moves, advance_cycle_gives_up}
use sovalune_core.Learning.Transitions.Retry.{retry_cycle_skips_research, retry_cycle_last_fails}
use sovalune_core.Learning.Transitions.Start.{start_cycle_breaks}

abbrev row : ℕ → Text → ℕ → CycleRow ℕ
row id status retries = record {
  id = id;
  project_id = 7;
  status = status;
  origin_task_id = 8;
  failure_reason = none;
  retry_count = retries;
  confidence_score = none;
  created_at = 1;
  updated_at = 1;
}

abbrev world : List (CycleRow ℕ) → World ℕ
world rows = record {
  cycles = rows;
  evidence = [];
  test_results = [];
  faults = [];
  clock = 9;
  events = [];
  memory = [];
}

empty-IsValid : IsValid 3 (world [])
empty-IsValid = record { rows = tt; past = tt; unique = tt }

abbrev limits : Orchestrator
limits = record {
  nats = true;
  inference_engine = none;
  vector_memory = none;
  max_retries = 3;
  max_failed_cycles = 5;
}

abbrev commands : List Command
commands = start 7 8 ∷ advance 10 ∷ retry 10 ∷ give_up_on 10 (codes "why") ∷ []

perform_all-IsValid_example : IsValid 3 (perform_all limits commands (world []))
perform_all-IsValid_example = perform_all-IsValid limits commands (world []) empty-IsValid

abbrev testing_row : CycleRow ℕ
testing_row = row 4 (codes "testing") 1

testing_found : find_row 4 (world (testing_row ∷ [])).cycles ≡ some testing_row
unfolding find_row
testing_found = refl

advance_cycle_moves_example :
    (w' : World ℕ) × (advance_cycle limits 4 (world (testing_row ∷ [])) ≡ (
      ok (
          to_cycle
            (restated testing_row (display LearningCycleStatus.applying) none (9 + 1 + 1))
            LearningCycleStatus.applying),
      w',
    ))
    × (w'.cycles
        ≡ update_row 4
            (λ r'. restated r' (display LearningCycleStatus.applying) none (9 + 1 + 1))
            (testing_row ∷ []))
    × (find_row 4 w'.cycles
        ≡ some (restated testing_row (display LearningCycleStatus.applying) none (9 + 1 + 1)))
advance_cycle_moves_example =
    advance_cycle_moves limits 4 (world (testing_row ∷ [])) testing_row testing
      LearningCycleStatus.applying refl testing_found (unfold display in refl) (unfold next in refl)
      (omega arith)

abbrev spent_row : CycleRow ℕ
spent_row = row 4 (codes "testing") 3

spent_found : find_row 4 (world (spent_row ∷ [])).cycles ≡ some spent_row
unfolding find_row
spent_found = refl

advance_cycle_gives_up_example :
    (w' : World ℕ) × (advance_cycle limits 4 (world (spent_row ∷ []))
      ≡ (err max_retries_exceeded, w'))
    × (find_row 4 w'.cycles
        ≡ some
            (restated spent_row (codes "failed") (some (codes "Max retries exceeded")) (9 + 1 + 1)))
advance_cycle_gives_up_example =
    advance_cycle_gives_up limits 4 (world (spent_row ∷ [])) spent_row testing
      LearningCycleStatus.applying refl spent_found (unfold display in refl) (unfold next in refl)
      (omega arith)

retry_cycle_skips_research_example :
    (w' : World ℕ) × (c : LearningCycle ℕ) × (retry_cycle limits 4 (world (testing_row ∷ []))
      ≡ (ok c, w'))
    × (c.status ≡ verifying)
    × (c.retry_count ≡ 1 + 1)
    × ((r' : CycleRow ℕ) × (find_row 4 w'.cycles ≡ some r')
        × (r'.status ≡ display verifying)
        × (r'.retry_count ≡ 1 + 1))
retry_cycle_skips_research_example =
    retry_cycle_skips_research limits 4 (world (testing_row ∷ [])) testing_row refl testing_found
      (omega arith) (omega arith)

abbrev last_row : CycleRow ℕ
last_row = row 4 (codes "testing") 2

last_found : find_row 4 (world (last_row ∷ [])).cycles ≡ some last_row
unfolding find_row
last_found = refl

retry_cycle_last_fails_example :
    (w' : World ℕ) × (retry_cycle limits 4 (world (last_row ∷ [])) ≡ (err max_retries_exceeded, w'))
    × ((r' : CycleRow ℕ) × (find_row 4 w'.cycles ≡ some r') × (r'.status ≡ codes "failed"))
retry_cycle_last_fails_example =
    retry_cycle_last_fails limits 4 (world (last_row ∷ [])) last_row refl last_found refl
      (omega arith)

abbrev failed_row : ℕ → CycleRow ℕ
failed_row id = row id (codes "failed") 0

abbrev completed_row : ℕ → CycleRow ℕ
completed_row id = row id (codes "completed") 0

-- no two cycles fail in a row, and the last of the project is completed
abbrev many : World ℕ
many = world (
    failed_row 1
    ∷ completed_row 2
    ∷ failed_row 3
    ∷ completed_row 4
    ∷ failed_row 5
    ∷ completed_row 6
    ∷ failed_row 7
    ∷ completed_row 8
    ∷ failed_row 9
    ∷ completed_row 10
    ∷ [])

start_cycle_breaks_example : start_cycle limits 7 8 many ≡ (err circuit_breaker, tick many)
unfolding text_eq
start_cycle_breaks_example = start_cycle_breaks limits 7 8 many refl (omega arith) (omega arith)
