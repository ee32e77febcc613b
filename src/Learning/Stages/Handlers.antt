-- ===== src/Learning/Stages/Handlers.antt =====
-- crates/sovalune-self-learning/src/stages: `StageHandler::execute` of each handler.

use sovalune_core.Common.{
  ℕ, ◌+◌, ◌-◌, ◌%◌, ◌^◌, Bool, true, false, Option, none, some, List, [], ◌∷◌, ◌++◌, length, ltb,
  min, if◌then◌else◌, Result,
}
use sovalune_core.Common
use sovalune_core.Float.{Float}
use sovalune_core.Text.{Text, codes, byte_len, slice_to}
use sovalune_core.Text.Pieces.{join}
use sovalune_core.Learning.Monad.{
  Evidence, TestResult, fallback, practice, evaluation, skipped, verification, application, ok,
  panicked, M, ◌>>=◌, ◌>>◌, pure, handle,
}
use sovalune_core.Learning.Store
use sovalune_core.Learning.Orchestrator.{
  Orchestrator, LearningCycle, advance_cycle, fail_cycle, retry_cycle, get_cycle, add_evidence,
  add_test_result, run_inference, search_memory,
}
use sovalune_core.Learning.Stages.{Outside}
use sovalune_core.Learning.Stages.Prompts.{
  analysis_prompt, memory_query, research_prompt, verify_prompt, practice_prompt, test_prompt,
  apply_prompt, knowledge_content, extract_confidence, extract_rate,
}

-- the handlers, with the fields that `execute` reads
pub data StageHandler (F : Type 0) : Type 0 where
  detected_handler : StageHandler F
  researching_handler : ℕ → StageHandler F
  verifying_handler : F → StageHandler F
  practicing_handler : StageHandler F
  testing_handler : F → StageHandler F
  applying_handler : StageHandler F

-- the sum of the tiers, as an `i32`
unfoldable pub sum_trust : List Evidence → ℕ
sum_trust [] = 0
sum_trust (e ∷ es) = (e.trust_tier + sum_trust es) % 2 ^ 32

module _ (fl : Float) (env : Outside fl.F) (o : Orchestrator) where
  open fl use {F, of_ℕ, ratio, add, sub, div, minf, lt, ge}

  -- `&s[..n.min(s.len())]`
  unfoldable pub slice : ℕ → Text → M F Text
  slice n s w = elim (slice_to s (min n (byte_len s))) [ none ↦ (panicked, w) | some t ↦ (ok t, w) ]

  -- the start of a text in a message of level info
  unfoldable pub log_prefix : ℕ → Text → M F (Unit {0})
  log_prefix n s = elim env.logs [ true ↦ slice n s >> pure tt | false ↦ pure tt ]

  unfoldable pub advance : ℕ → M F (Unit {0})
  advance id = advance_cycle o id >> pure tt

  unfoldable pub give_up_with : ℕ → Text → M F (Unit {0})
  give_up_with id why = fail_cycle o id why >> pure tt

  unfoldable pub analyse : ℕ → LearningCycle F → M F Text
  analyse id cycle =
      handle (run_inference o (analysis_prompt env cycle))
        (λ response. add_evidence id (codes "analysis") none response 2 >> pure response)
        (λ e. pure (codes "Analysis not available - inference engine not configured"))

  unfoldable pub detected_stage : ℕ → M F (Unit {0})
  detected_stage id = do
    cycle ← get_cycle id
    analysis ← analyse id cycle
    log_prefix 200 analysis
    advance id

  -- what is done with the contents found in memory
  unfoldable pub keep_context : ℕ → List Text → M F (Option Text)
  keep_context id [] = pure none
  keep_context id (t ∷ ts) =
      let context = join (codes "\n---\n") (t ∷ ts) in
      add_evidence id (codes "vector_memory") none context 3 >> pure (some context)

  unfoldable pub recall : ℕ → ℕ → LearningCycle F → M F (Option Text)
  recall max_sources id cycle =
      handle (search_memory o (memory_query env cycle) max_sources) (keep_context id)
        (λ e. pure none)

  unfoldable pub research : ℕ → LearningCycle F → Option Text → M F (Unit {0})
  research id cycle memory_context =
      handle (run_inference o (research_prompt env cycle memory_context))
        (λ findings.
          add_evidence id (codes "llm_research") none findings 4 >> log_prefix 200 findings)
        (λ e.
          add_evidence id (codes "system") none
            (codes "Research limited - inference unavailable: " ++ env.to_string e) 1)

  unfoldable pub researching_stage : ℕ → ℕ → M F (Unit {0})
  researching_stage max_sources id = do
    cycle ← get_cycle id
    memory_context ← recall max_sources id cycle
    research id cycle memory_context
    advance id

  unfoldable pub average_trust : List Evidence → F
  average_trust evidence =
      let total = sum_trust evidence in
      let signed =
        if ltb total (2 ^ 31) then of_ℕ total else sub (of_ℕ 0) (of_ℕ (2 ^ 32 - total)) in
      div signed (of_ℕ (length evidence))

  unfoldable pub trust_confidence : List Evidence → F
  trust_confidence evidence =
      let trust_score = minf (div (average_trust evidence) (of_ℕ 5)) (of_ℕ 1) in
      let diversity_bonus = minf (div (of_ℕ (length evidence)) (of_ℕ 3)) (ratio 2 10) in
      minf (add trust_score diversity_bonus) (of_ℕ 1)

  -- the mean with the confidence that the answer names, if it names one
  unfoldable pub averaged : F → Text → F
  averaged confidence response =
      div
        (add confidence (elim (extract_confidence env response) [ none ↦ confidence | some x ↦ x ]))
        (of_ℕ 2)

  unfoldable pub judge : List Evidence → M F F
  judge evidence =
      let confidence = trust_confidence evidence in
      handle (run_inference o (verify_prompt env evidence))
        (λ response. pure (averaged confidence response)) (λ e. pure confidence)

  -- the rest of the stage once there is a confidence
  unfoldable pub conclude : F → ℕ → List Evidence → F → M F (Unit {0})
  conclude min_confidence id evidence confidence = do
    Store.update_confidence id confidence
    add_test_result id (codes "verifying") (ge confidence min_confidence)
        (verification confidence min_confidence (length evidence) (average_trust evidence))
    if lt confidence min_confidence
        then give_up_with id (codes "INSUFFICIENT_CONFIDENCE")
        else advance id

  unfoldable pub verify : F → ℕ → List Evidence → M F (Unit {0})
  verify min_confidence id [] = give_up_with id (codes "NO_SOURCES_FOUND")
  verify min_confidence id (e ∷ es) = judge (e ∷ es) >>= conclude min_confidence id (e ∷ es)

  unfoldable pub verifying_stage : F → ℕ → M F (Unit {0})
  verifying_stage min_confidence id = Store.get_evidence id >>= verify min_confidence id

  unfoldable pub practise : ℕ → LearningCycle F → List Evidence → M F (Unit {0})
  practise id cycle evidence =
      handle (run_inference o (practice_prompt env evidence))
        (λ tasks.
          add_test_result id (codes "practicing") true
            (practice tasks (length evidence) cycle.origin_task_id)
          >> log_prefix 200 tasks)
        (λ e. add_test_result id (codes "practicing") false (fallback (env.to_string e)))

  unfoldable pub practicing_stage : ℕ → M F (Unit {0})
  practicing_stage id = do
    cycle ← get_cycle id
    evidence ← Store.get_evidence id
    practise id cycle evidence
    advance id

  unfoldable pub rate_of : Text → F
  rate_of answer = elim (extract_rate env answer) [ none ↦ ratio 8 10 | some x ↦ x ]

  -- the pass rate; without an answer the stage counts as passed
  unfoldable pub evaluate : F → ℕ → LearningCycle F → List Evidence → List (TestResult F) → M F F
  evaluate min_pass_rate id cycle evidence test_results =
      handle (run_inference o (test_prompt env cycle evidence test_results))
        (λ answer.
          let rate = rate_of answer in
          add_test_result id (codes "testing") (ge rate min_pass_rate)
            (evaluation rate answer cycle.origin_task_id)
          >> pure rate)
        (λ e.
          add_test_result id (codes "testing") true
            (skipped (of_ℕ 1) (codes "Testing skipped - inference unavailable"))
          >> pure (of_ℕ 1))

  unfoldable pub try_again : ℕ → M F (Unit {0})
  try_again id = do
    cycle ← get_cycle id
    if ltb cycle.retry_count 3
        then (retry_cycle o id >> pure tt)
        else give_up_with id (codes "TESTS_FAILED_MAX_RETRIES")

  unfoldable pub testing_stage : F → ℕ → M F (Unit {0})
  testing_stage min_pass_rate id = do
    cycle ← get_cycle id
    evidence ← Store.get_evidence id
    test_results ← Store.get_test_results id
    pass_rate ← evaluate min_pass_rate id cycle evidence test_results
    if lt pass_rate min_pass_rate then try_again id else advance id

  -- storing in vector memory: an error is only logged
  unfoldable pub stored : ℕ → Result ℕ Text → Text → M F (Unit {0})
  stored project (Common.ok id) content w = (ok tt, record w { memory = w.memory ++ content ∷ [] })
  stored project (Common.err e) content w = (ok tt, w)

  unfoldable pub remember : LearningCycle F → Text → M F (Unit {0})
  remember cycle answer = elim o.vector_memory [
    | none ↦ pure tt
    | some store ↦ slice 500 answer >>= λ shown.
        let content = knowledge_content env cycle shown in
        λ w. stored cycle.project_id (store.insert w.clock cycle.project_id content) content w
  ]

  unfoldable pub apply : ℕ → LearningCycle F → List Evidence → M F (Unit {0})
  apply id cycle evidence =
      handle (run_inference o (apply_prompt env cycle evidence))
        (λ answer. do
          add_test_result id (codes "applying") true
              (application answer cycle.origin_task_id cycle.project_id)
          remember cycle answer
          log_prefix 200 answer)
        (λ e. add_test_result id (codes "applying") false (fallback (env.to_string e)))

  unfoldable pub applying_stage : ℕ → M F (Unit {0})
  applying_stage id = do
    cycle ← get_cycle id
    evidence ← Store.get_evidence id
    apply id cycle evidence
    advance id

  unfoldable pub execute : StageHandler F → ℕ → M F (Unit {0})
  execute detected_handler = detected_stage
  execute (researching_handler max_sources) = researching_stage max_sources
  execute (verifying_handler min_confidence) = verifying_stage min_confidence
  execute practicing_handler = practicing_stage
  execute (testing_handler min_pass_rate) = testing_stage min_pass_rate
  execute applying_handler = applying_stage
