-- ===== src/Learning/Pipeline.antt =====
-- crates/sovalune-api/src/routes/learning.rs: `run`, which takes a cycle through its stages.
-- The loop makes one round for each of the six stages at most, so it is recursion on the number of
-- rounds left. The reply is kept as the values that its JSON holds.
pub mod Bounds
pub mod Endings
use sovalune_core.Common.{ℕ, zero, suc, ◌+◌, Bool, true, false}
use sovalune_core.Float.{Float}
use sovalune_core.Text.{Text}
use sovalune_core.Learning.Status.{
  LearningCycleStatus, detected, researching, verifying, practicing, testing, applying, completed,
  failed, display, is_terminal,
}
use sovalune_core.Learning.Monad.{M, ◌>>=◌, pure, handle}
use sovalune_core.Learning.Orchestrator.{Orchestrator, LearningCycle, fail_cycle, get_cycle}
use sovalune_core.Learning.Stages.{Outside}
use sovalune_core.Learning.Stages.Handlers.{
  StageHandler, detected_handler, researching_handler, verifying_handler, practicing_handler,
  testing_handler, applying_handler, execute,
}

-- NOT_FOUND, RUN_FAILED, or the cycle with the last stage and the number of rounds
pub data Reply (F : Type 0) : Type 0 where
  not_found : Text → Reply F
  run_failed : Text → Reply F
  finished : LearningCycle F → Text → ℕ → Reply F

module _ (fl : Float) where
  open fl use {F, ratio}

  -- the handler at the position of the status in the list of stages, or the first one
  unfoldable pub handler_for : LearningCycleStatus → StageHandler F
  handler_for detected = detected_handler
  handler_for researching = researching_handler 5
  handler_for verifying = verifying_handler (ratio 6 10)
  handler_for practicing = practicing_handler
  handler_for testing = testing_handler (ratio 7 10)
  handler_for applying = applying_handler
  handler_for completed = detected_handler
  handler_for failed = detected_handler

  module _ (env : Outside F) (o : Orchestrator) where
    -- the rounds left, the last stage that ended well and the rounds made
    unfoldable pub rounds : ℕ → ℕ → Text → ℕ → M F (Text × ℕ)
    rounds zero id last_stage iterations = pure (last_stage, iterations)
    rounds (suc left) id last_stage iterations =
        handle (get_cycle id)
          (λ current. elim (is_terminal current.status) [
            | true ↦ pure (last_stage, iterations + 1)
            | false ↦
                handle (execute fl env o (handler_for current.status) id)
                  (λ _. rounds left id (display current.status) (iterations + 1))
                  (λ e.
                    handle (fail_cycle o id (env.to_string e))
                      (λ _. pure (last_stage, iterations + 1))
                      (λ _. pure (last_stage, iterations + 1)))
          ])
          (λ _. pure (last_stage, iterations + 1))

    -- the reply once the loop has ended
    unfoldable pub reply : ℕ → Text × ℕ → M F (Reply F)
    reply id (last_stage, iterations) =
        handle (get_cycle id) (λ c. pure (finished c last_stage iterations))
          (λ e. pure (run_failed (env.to_string e)))

    unfoldable pub run : ℕ → M F (Reply F)
    run id =
        handle (get_cycle id) (λ cycle. rounds 6 id (display cycle.status) 0 >>= reply id)
          (λ e. pure (not_found (env.to_string e)))
