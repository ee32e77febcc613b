-- ===== src/Tests/StagesTests.antt =====
-- The stages of a learning cycle at concrete inputs.
use sovalune_core.Common.{
  ℕ, min, replicate, ◌+◌, ◌≤◌, ◌<◌, ◌≡◌, refl, Bool, true, false, Option, none, some, List, [], ◌∷◌,
  ◌++◌, filter, ◌==◌, Result, arith,
}
use sovalune_core.Common
use sovalune_core.Text.{Text, codes, slice_to, byte_len}
use sovalune_core.Types.{TokenEvent}
use sovalune_core.Learning.Status.{
  LearningCycleStatus, verifying, applying, completed, failed, display, is_terminal,
}
use sovalune_core.Learning.Monad.{CycleRow, World, TestResult, Error, Answer, ok, panicked}
use sovalune_core.Learning.Store.{find_row}
use sovalune_core.Learning.Orchestrator.{Orchestrator, LearningCycle, Memory, collect, to_cycle}
use sovalune_core.Learning.Monad.Run.{tick}
use sovalune_core.Learning.Transitions.{restated}
use sovalune_core.Learning.Pipeline.Endings.{run_terminal, run_without_evidence}
use sovalune_core.Learning.Stages.{Outside}
use sovalune_core.Learning.Stages.Handlers.{applying_stage}
use sovalune_core.Learning.Stages.Outcomes.Applying.{applying_panics}
use sovalune_core.Learning.Pipeline.{Reply, finished, run}
use sovalune_core.Tests.Thousandths.{thousandths}

abbrev env : Outside ℕ
env = record {
  print_id = λ n. codes "id";
  print_confidence = λ c. codes "None";
  to_string = λ e. codes "error";
  parse_f32 = λ t. none;
  logs = true;
}

abbrev stage_row : Text → CycleRow ℕ
stage_row status = record {
  id = 4;
  project_id = 7;
  status = status;
  origin_task_id = 8;
  failure_reason = none;
  retry_count = 0;
  confidence_score = none;
  created_at = 1;
  updated_at = 1;
}

abbrev stage_world : Text → World ℕ
stage_world status = record {
  cycles = stage_row status ∷ [];
  evidence = [];
  test_results = [];
  faults = [];
  clock = 9;
  events = [];
  memory = [];
}

abbrev alone : Orchestrator
alone = record {
  nats = false;
  inference_engine = none;
  vector_memory = none;
  max_retries = 3;
  max_failed_cycles = 5;
}

-- a letter of one byte, and letters of two bytes up to byte 501
abbrev long_answer : Text
long_answer = b'a' ∷ replicate 250 1078

abbrev token : Text → Bool → TokenEvent
token delta last = record { request_id = 0; delta = delta; finished = last; message_id = none }

abbrev stream : List (Result TokenEvent Text)
stream = Common.ok (token long_answer false) ∷ Common.ok (token [] true) ∷ []

abbrev engine : ℕ → Text → Result (List (Result TokenEvent Text)) Text
engine t p = Common.ok stream

abbrev memory : Memory
memory = record { search = λ t q k. Common.ok []; insert = λ t p c. Common.ok 0 }

abbrev backed : Orchestrator
backed = record alone { inference_engine = some engine; vector_memory = some memory }

cut_inside : slice_to long_answer (min 500 (byte_len long_answer)) ≡ none
unfolding slice_to byte_len
cut_inside = refl

whole_answer : collect stream [] ≡ Common.ok long_answer
unfolding collect
whole_answer = refl

row_found : (status : Text) → find_row 4 (stage_world status).cycles ≡ some (stage_row status)
unfolding find_row
row_found status = refl

run_terminal_example : run thousandths env alone 4 (stage_world (codes "completed")) ≡ (
  ok (finished (to_cycle (stage_row (codes "completed")) completed) (codes "completed") 1),
  tick (tick (tick (stage_world (codes "completed")))),
)
unfolding display is_terminal
run_terminal_example =
    run_terminal thousandths env alone 4 (stage_world (codes "completed"))
      (stage_row (codes "completed")) completed refl (row_found _) refl refl

run_without_evidence_example :
    (w' : World ℕ) × (r' : CycleRow ℕ) × (run thousandths env alone 4
        (stage_world (codes "verifying"))
      ≡ (ok (finished (to_cycle r' failed) (display verifying) 2), w'))
    × (find_row 4 w'.cycles ≡ some r')
    × (r'
        ≡ restated
            (stage_row (codes "verifying"))
            (codes "failed")
            (some (codes "NO_SOURCES_FOUND"))
            13)
unfolding display
run_without_evidence_example =
    run_without_evidence thousandths env alone 4 (stage_world (codes "verifying"))
      (stage_row (codes "verifying")) refl (row_found _) refl refl

applying_panics_example :
    (w' : World ℕ) × (t : TestResult ℕ) × (applying_stage thousandths env backed 4
        (stage_world (codes "applying"))
      ≡ (panicked, w'))
    × (w'.test_results ≡ [] ++ t ∷ [])
    × (t.stage ≡ codes "applying")
    × (t.passed ≡ true)
    × (w'.cycles ≡ (stage_world (codes "applying")).cycles)
applying_panics_example =
    applying_panics thousandths env backed 4 (stage_world (codes "applying"))
      (stage_row (codes "applying")) applying long_answer engine stream memory refl (row_found _)
      (unfold display in refl) refl (λ t p. refl) whole_answer refl cut_inside

abbrev completed_cycle : LearningCycle ℕ
completed_cycle = record {
  id = 4;
  project_id = 7;
  status = LearningCycleStatus.completed;
  origin_task_id = 8;
  failure_reason = none;
  retry_count = 0;
  confidence_score = none;
  created_at = 1;
  updated_at = 1;
}

completed_run :
    (run thousandths env alone 4 (stage_world (codes "completed"))).0
    ≡ ok (finished completed_cycle (codes "completed") 1)
unfolding run sovalune_core.Learning.Monad.handle sovalune_core.Learning.Orchestrator.get_cycle
    sovalune_core.Learning.Monad.◌>>=◌ sovalune_core.Learning.Orchestrator.fetch
    sovalune_core.Learning.Store.get sovalune_core.Learning.Monad.call
    sovalune_core.Learning.Monad.require find_row sovalune_core.Learning.Orchestrator.parse_status
    sovalune_core.Learning.Status.from_str sovalune_core.Text.text_eq
    sovalune_core.Learning.Pipeline.rounds sovalune_core.Learning.Status.is_terminal
    sovalune_core.Learning.Orchestrator.to_cycle sovalune_core.Learning.Pipeline.reply display
completed_run = refl
