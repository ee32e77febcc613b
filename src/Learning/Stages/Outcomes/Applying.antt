-- ===== src/Learning/Stages/Outcomes/Applying.antt =====
-- crates/sovalune-self-learning/src/stages/applying.rs: the last stage when no database call fails.

use sovalune_core.Common.{
  ℕ, ◌+◌, ◌<◌, ◌≡◌, refl, ap, ◌∙◌, Bool, true, false, Option, none, some, List, [], ◌∷◌, ◌++◌,
  filter, ◌==◌, min, Result, arith,
}
use sovalune_core.Common
use sovalune_core.Float.{Float}
use sovalune_core.Text.{Text, codes, slice_to, byte_len}
use sovalune_core.Learning.Status.{LearningCycleStatus, display}
use sovalune_core.Learning.Monad.{
  CycleRow, TestResult, Detail, application, World, no_inference, inference, ok, panicked, pure,
  require,
}
use sovalune_core.Learning.Monad.Run.{>>=_ok, >>_ok, tick, call_run}
use sovalune_core.Learning.Store
use sovalune_core.Types.{TokenEvent}
use sovalune_core.Learning.Store.{find_row, update_row, order_by_trust, refers}
use sovalune_core.Learning.Orchestrator.{
  Orchestrator, LearningCycle, Memory, to_cycle, add_test_result, run_inference, collect, answered,
}
use sovalune_core.Learning.Stages.{Outside}
use sovalune_core.Learning.Stages.Handlers.{remember, apply, applying_stage}
use sovalune_core.Learning.Stages.Outcomes.{
  >>=_panicked, >>_panicked, handle_ok, get_cycle_run, get_evidence_run, slice_panics,
}

module _ (fl : Float) (env : Outside fl.F) (o : Orchestrator) where
  open fl use {F}

  abbrev result_row : ℕ → Text → Bool → Detail F → ℕ → TestResult F
  result_row id stage passed detail time = record {
    id = time;
    cycle_id = id;
    stage = stage;
    passed = passed;
    detail = detail;
    created_at = time;
  }

  abbrev with_result : ℕ → Text → Bool → Detail F → World F → World F
  with_result id stage passed detail w = record w {
    clock = w.clock + 1;
    test_results = w.test_results ++ result_row id stage passed detail (w.clock + 1) ∷ [];
  }

  -- storing a test result in a table that has the cycle
  store_result_run :
      (id : ℕ) (stage : Text) (passed : Bool) (detail : Detail F) (w : World F) (r : CycleRow F)
      → w.faults ≡ []
      → find_row id w.cycles ≡ some r
      → Store.add_test_result id stage passed detail w ≡ (
        ok (result_row id stage passed detail (w.clock + 1)),
        with_result id stage passed detail w,
      )
  unfolding Store.add_test_result refers
  store_result_run id stage passed detail w r e found = call_run _ w e ∙ rw (found, refers)

  result_run :
      (id : ℕ) (stage : Text) (passed : Bool) (detail : Detail F) (w : World F) (r : CycleRow F)
      → w.faults ≡ []
      → find_row id w.cycles ≡ some r
      → add_test_result id stage passed detail w ≡ (ok tt, with_result id stage passed detail w)
  unfolding add_test_result pure
  result_run id stage passed detail w r e found =
      >>=_ok _ _ (store_result_run id stage passed detail w r e found)

  inference_run :
      (prompt answer : Text) (engine : ℕ → Text → Result (List (Result TokenEvent Text)) Text)
      (stream : List (Result TokenEvent Text)) (w : World F)
      → o.inference_engine ≡ some engine
      → ((t : ℕ) (p : Text) → engine t p ≡ Common.ok stream)
      → collect stream [] ≡ Common.ok answer
      → run_inference o prompt w ≡ (ok answer, w)
  unfolding run_inference require answered pure
  inference_run prompt answer engine stream w there streams whole =
      >>=_ok _ _ (ap (λ a. require no_inference a w) there)
      ∙ >>=_ok _ _ (ap (λ r. answered {F = F} inference r w) (streams w.clock prompt))
      ∙ ap (λ r. answered {F = F} inference r w) whole

  remember_panics :
      (cycle : LearningCycle F) (answer : Text) (store : Memory) (w : World F)
      → o.vector_memory ≡ some store
      → slice_to answer (min 500 (byte_len answer)) ≡ none
      → remember fl env o cycle answer w ≡ (panicked, w)
  unfolding remember
  remember_panics cycle answer store w there cut =
      rw (there, remember) (>>=_panicked _ _ (slice_panics fl env o 500 answer w cut))

  -- Where no database call fails, and the engine answers a text whose byte 500 is inside a character,
  -- the last stage panics with vector memory in use: a test result says that it passed, and the cycle
  -- is left as it was.
  pub applying_panics :
      (id : ℕ) (w : World F) (r : CycleRow F) (s : LearningCycleStatus) (answer : Text)
      (engine : ℕ → Text → Result (List (Result TokenEvent Text)) Text)
      (stream : List (Result TokenEvent Text)) (store : Memory)
      → w.faults ≡ []
      → find_row id w.cycles ≡ some r
      → r.status ≡ display s
      → o.inference_engine ≡ some engine
      → ((t : ℕ) (p : Text) → engine t p ≡ Common.ok stream)
      → collect stream [] ≡ Common.ok answer
      → o.vector_memory ≡ some store
      → slice_to answer (min 500 (byte_len answer)) ≡ none
      → (w' : World F) × (t : TestResult F) × (applying_stage fl env o id w ≡ (panicked, w'))
        × (w'.test_results ≡ w.test_results ++ t ∷ [])
        × (t.stage ≡ codes "applying")
        × (t.passed ≡ true)
        × (w'.cycles ≡ w.cycles)
  unfolding applying_stage apply to_cycle
  applying_panics id w r s answer engine stream store e found st there streams whole memory cut =
      let cycle = to_cycle r s in
      let w2 = tick (tick w) in
      let detail = application answer r.origin_task_id r.project_id in
      let w3 = with_result id (codes "applying") true detail w2 in
      (
        w3,
        result_row id (codes "applying") true detail (w2.clock + 1),
        >>=_ok _ _ (get_cycle_run id w r s e found st)
            ∙ >>=_ok _ _ (get_evidence_run id (tick w) e)
            ∙ >>_panicked _ _ (
                handle_ok _ _ _ (inference_run _ answer engine stream w2 there streams whole)
                ∙ >>_ok _ _ (result_run id (codes "applying") true detail w2 r e found)
                ∙ >>_panicked _ _ (remember_panics cycle answer store w3 memory cut)),
        refl,
        refl,
        refl,
        refl,
      )
