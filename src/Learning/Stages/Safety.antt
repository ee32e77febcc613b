-- ===== src/Learning/Stages/Safety.antt =====
-- crates/sovalune-self-learning/src/stages: the handlers and the invariant of the table of cycles.
use sovalune_core.Common.{
  ℕ, ◌≡◌, refl, Bool, true, false, Option, none, some, List, [], ◌∷◌, Result, Option-cases, inl,
  inr, arith, min,
}
use sovalune_core.Common
use sovalune_core.Float.{Float}
use sovalune_core.Text.{Text, codes, slice_to, byte_len}
use sovalune_core.Learning.Monad.{Evidence, Detail, M, pure, ◌>>◌}
use sovalune_core.Learning.Orchestrator.{Orchestrator, LearningCycle, add_evidence, add_test_result}
use sovalune_core.Learning.Invariant.{
  Safe, add_evidence-Safe, add_test_result-Safe, update_confidence-Safe, get_evidence-Safe,
  get_test_results-Safe,
}
use sovalune_core.Learning.Invariant.Combine.{
  pure-Safe, bind-Safe, then-Safe, handle-Safe, if-Safe, run_inference-Safe, search_memory-Safe,
}
use sovalune_core.Learning.Invariant.Operations.{
  fail_cycle-Safe, advance_cycle-Safe, retry_cycle-Safe, get_cycle-Safe,
}
use sovalune_core.Learning.Stages.{Outside}
use sovalune_core.Learning.Stages.Prompts.{knowledge_content}
use sovalune_core.Learning.Stages.Handlers.{
  StageHandler, detected_handler, researching_handler, verifying_handler, practicing_handler,
  testing_handler, applying_handler, slice, log_prefix, advance, give_up_with, analyse,
  detected_stage, keep_context, recall, research, researching_stage, judge, conclude, verify,
  verifying_stage, practise, practicing_stage, evaluate, try_again, testing_stage, stored, remember,
  apply, applying_stage, execute,
}

module _ (fl : Float) (env : Outside fl.F) (o : Orchestrator) where
  open fl use {F}

  abbrev Keeps : {A : Type 0} → M F A → Type 0
  Keeps m = Safe o.max_retries m

  kept_slice : (n : ℕ) (s : Text) → Keeps (slice fl env o n s)
  unfolding slice
  kept_slice n s w v = elim (Option-cases (slice_to s (min n (byte_len s)))) [
    | inl e ↦ rw (e, slice) v
    | inr (t, e) ↦ rw (e, slice) v
  ]

  kept_log : (n : ℕ) (s : Text) → Keeps (log_prefix fl env o n s)
  unfolding log_prefix
  kept_log n s = go env.logs
    where
      go : (b : Bool) → Keeps (elim b [ true ↦ slice fl env o n s >> pure tt | false ↦ pure tt ])
      go true = then-Safe _ _ _ (kept_slice n s) (pure-Safe _ tt)
      go false = pure-Safe _ tt

  kept_evidence :
      (id : ℕ) (source : Text) (excerpt : Text) (tier : ℕ)
      → Keeps (add_evidence id source none excerpt tier)
  unfolding add_evidence
  kept_evidence id source excerpt tier =
      bind-Safe _ _ _ (add_evidence-Safe _ id source none excerpt tier) (λ _. pure-Safe _ tt)

  kept_result :
      (id : ℕ) (stage : Text) (passed : Bool) (detail : Detail F)
      → Keeps (add_test_result id stage passed detail)
  unfolding add_test_result
  kept_result id stage passed detail =
      bind-Safe _ _ _ (add_test_result-Safe _ id stage passed detail) (λ _. pure-Safe _ tt)

  kept_advance : (id : ℕ) → Keeps (advance fl env o id)
  unfolding advance
  kept_advance id = then-Safe _ _ _ (advance_cycle-Safe o id) (pure-Safe _ tt)

  kept_give_up : (id : ℕ) (why : Text) → Keeps (give_up_with fl env o id why)
  unfolding give_up_with
  kept_give_up id why = then-Safe _ _ _ (fail_cycle-Safe o id why) (pure-Safe _ tt)

  kept_detected : (id : ℕ) → Keeps (detected_stage fl env o id)
  unfolding detected_stage analyse
  kept_detected id = bind-Safe _ _ _ (get_cycle-Safe o id) (λ cycle.
      bind-Safe _ _ _
        (handle-Safe _ _ _ _ (run_inference-Safe _ o _)
          (λ response.
            then-Safe _ _ _ (kept_evidence id (codes "analysis") response 2) (pure-Safe _ response))
          (λ e. pure-Safe _ _))
        (λ analysis. then-Safe _ _ _ (kept_log 200 analysis) (kept_advance id)))

  kept_context : (id : ℕ) (found : List Text) → Keeps (keep_context fl env o id found)
  unfolding keep_context
  kept_context id [] = pure-Safe _ none
  kept_context id (t ∷ ts) =
      then-Safe _ _ _ (kept_evidence id (codes "vector_memory") _ 3) (pure-Safe _ (some _))

  kept_researching : (max_sources id : ℕ) → Keeps (researching_stage fl env o max_sources id)
  unfolding researching_stage recall research
  kept_researching max_sources id = bind-Safe _ _ _ (get_cycle-Safe o id) (λ cycle.
      bind-Safe _ _ _
        (handle-Safe _ _ _ _ (search_memory-Safe _ o _ max_sources) (kept_context id)
          (λ e. pure-Safe _ none))
        (λ memory_context.
          then-Safe _ _ _
            (handle-Safe _ _ _ _ (run_inference-Safe _ o _)
              (λ findings.
                then-Safe _ _ _ (kept_evidence id (codes "llm_research") findings 4)
                  (kept_log 200 findings))
              (λ e. kept_evidence id (codes "system") _ 1))
            (kept_advance id)))

  kept_verify :
      (min : F) (id : ℕ) (evidence : List Evidence) → Keeps (verify fl env o min id evidence)
  unfolding verify judge conclude
  kept_verify min id [] = kept_give_up id (codes "NO_SOURCES_FOUND")
  kept_verify min id (e ∷ es) =
      bind-Safe _ _ _
        (handle-Safe _ _ _ _ (run_inference-Safe _ o _) (λ response. pure-Safe _ _)
          (λ x. pure-Safe _ _))
        (λ confidence. then-Safe _ _ _ (update_confidence-Safe _ id confidence) (
          then-Safe _ _ _ (kept_result id (codes "verifying") _ _)
            (if-Safe _ _ _ _ (kept_give_up id _) (kept_advance id))))

  kept_practicing : (id : ℕ) → Keeps (practicing_stage fl env o id)
  unfolding practicing_stage practise
  kept_practicing id = bind-Safe _ _ _ (get_cycle-Safe o id) (λ cycle.
      bind-Safe _ _ _ (get_evidence-Safe _ id) (λ evidence.
        then-Safe _ _ _
          (handle-Safe _ _ _ _ (run_inference-Safe _ o _)
            (λ tasks.
              then-Safe _ _ _ (kept_result id (codes "practicing") true _) (kept_log 200 tasks))
            (λ e. kept_result id (codes "practicing") false _))
          (kept_advance id)))

  kept_try_again : (id : ℕ) → Keeps (try_again fl env o id)
  unfolding try_again
  kept_try_again id = bind-Safe _ _ _ (get_cycle-Safe o id) (λ cycle.
      if-Safe _ _ _ _ (then-Safe _ _ _ (retry_cycle-Safe o id) (pure-Safe _ tt))
        (kept_give_up id _))

  kept_testing : (min : F) (id : ℕ) → Keeps (testing_stage fl env o min id)
  unfolding testing_stage evaluate
  kept_testing min id = bind-Safe _ _ _ (get_cycle-Safe o id) (λ cycle.
      bind-Safe _ _ _ (get_evidence-Safe _ id) (λ evidence.
        bind-Safe _ _ _ (get_test_results-Safe _ id) (λ results.
          bind-Safe _ _ _
            (handle-Safe _ _ _ _ (run_inference-Safe _ o _)
              (λ answer. then-Safe _ _ _ (kept_result id (codes "testing") _ _) (pure-Safe _ _))
              (λ e. then-Safe _ _ _ (kept_result id (codes "testing") true _) (pure-Safe _ _)))
            (λ rate. if-Safe _ _ _ _ (kept_try_again id) (kept_advance id)))))

  kept_stored :
      (project : ℕ) (r : Result ℕ Text) (content : Text) → Keeps (stored fl env o project r content)
  unfolding stored
  kept_stored project (Common.ok n) content w v = record {
    rows = v.rows;
    past = v.past;
    unique = v.unique;
  }
  kept_stored project (Common.err e) content w v = v

  kept_remember : (cycle : LearningCycle F) (answer : Text) → Keeps (remember fl env o cycle answer)
  unfolding remember
  kept_remember cycle answer = elim (Option-cases o.vector_memory) [
    | inl e ↦ rw (e, remember) (pure-Safe _ tt)
    | inr (store, e) ↦
        rw (e, remember)
          (bind-Safe _ _ _ (kept_slice 500 answer)
            (λ shown w v. kept_stored cycle.project_id _ (knowledge_content env cycle shown) w v))
  ]

  kept_applying : (id : ℕ) → Keeps (applying_stage fl env o id)
  unfolding applying_stage apply
  kept_applying id = bind-Safe _ _ _ (get_cycle-Safe o id) (λ cycle.
      bind-Safe _ _ _ (get_evidence-Safe _ id) (λ evidence.
        then-Safe _ _ _
          (handle-Safe _ _ _ _ (run_inference-Safe _ o _)
            (λ answer.
              then-Safe _ _ _ (kept_result id (codes "applying") true _)
                (then-Safe _ _ _ (kept_remember cycle answer) (kept_log 200 answer)))
            (λ e. kept_result id (codes "applying") false _))
          (kept_advance id)))

  -- Whatever stage runs on whatever cycle, and however it ends, an error, a panic and failing database
  -- calls included, the table of cycles stays valid.
  pub execute-Safe : (h : StageHandler F) (id : ℕ) → Safe o.max_retries (execute fl env o h id)
  unfolding execute verifying_stage
  execute-Safe detected_handler id = kept_detected id
  execute-Safe (researching_handler max_sources) id = kept_researching max_sources id
  execute-Safe (verifying_handler min) id =
      bind-Safe _ _ _ (get_evidence-Safe _ id) (kept_verify min id)
  execute-Safe practicing_handler id = kept_practicing id
  execute-Safe (testing_handler min) id = kept_testing min id
  execute-Safe applying_handler id = kept_applying id
