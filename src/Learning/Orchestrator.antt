-- ===== src/Learning/Orchestrator.antt =====
-- crates/sovalune-self-learning/src/orchestrator.rs: `LearningCycleOrchestrator`.
-- The inference engine answers a prompt at a time with its stream of events or an error; vector memory
-- answers a query and the storing of a text. Publishing to NATS cannot fail
-- the operation: its error is only logged.
use sovalune_core.Common.{
  ℕ, ◌+◌, ◌≤◌, Bool, true, false, Option, none, some, List, [], ◌∷◌, ◌++◌, map, leb, ltb, ◌==◌,
  if◌then◌else◌, Result,
}
use sovalune_core.Common
use mathlib.Core.Option
use sovalune_core.Text.{Text, codes}
use sovalune_core.Learning.Status.{
  LearningCycleStatus, detected, failed, display, from_str, next, is_terminal,
}
use sovalune_core.Learning.Monad.{
  CycleRow, Detail, Payload, empty, reason, stage_change, Error, cycle_not_found,
  not_found_after_update, already_terminal, cannot_advance, max_retries_exceeded, circuit_breaker,
  invalid_status, no_inference, no_memory, inference, memory_failed, ok, M, ◌>>=◌, ◌>>◌, pure, fail,
  require,
}
use sovalune_core.Learning.Store
use sovalune_core.Types.{TokenEvent}

pub record LearningCycle (F : Type 0) : Type 0 where
  pub id : ℕ
  pub project_id : ℕ
  pub status : LearningCycleStatus
  pub origin_task_id : ℕ
  pub failure_reason : Option Text
  pub retry_count : ℕ
  pub confidence_score : Option F
  pub created_at : ℕ
  pub updated_at : ℕ

-- What the vector memory answers: the contents found for a query, and whether a text was stored.
pub record Memory : Type 0 where
  pub search : ℕ → Text → ℕ → Result (List Text) Text
  pub insert : ℕ → ℕ → Text → Result ℕ Text

pub record Orchestrator : Type 0 where
  pub nats : Bool
  pub inference_engine : Option (ℕ → Text → Result (List (Result TokenEvent Text)) Text)
  pub vector_memory : Option Memory
  pub max_retries : ℕ
  pub max_failed_cycles : ℕ

unfoldable pub new : Orchestrator
new = record {
  nats = false;
  inference_engine = none;
  vector_memory = none;
  max_retries = 3;
  max_failed_cycles = 5;
}

unfoldable pub with_nats : Orchestrator
unfolding new
with_nats = record new { nats = true }

unfoldable pub with_backends :
    Bool → (ℕ → Text → Result (List (Result TokenEvent Text)) Text) → Memory → Orchestrator
unfolding new
with_backends nats engine memory = record new {
  nats = nats;
  inference_engine = some engine;
  vector_memory = some memory;
}

-- the deltas of a stream up to the event that is marked as finished, or up to an error
unfoldable pub collect : List (Result TokenEvent Text) → Text → Result Text Text
collect [] content = Common.ok content
collect (Common.err e ∷ events) content = Common.err (codes "Inference error: " ++ e)
collect (Common.ok token ∷ events) content =
    let rest = collect events (content ++ token.delta) in
    if token.finished then Common.ok content else rest

module _ {F : Type 0} where
  -- the row with its status parsed
  unfoldable pub to_cycle : CycleRow F → LearningCycleStatus → LearningCycle F
  to_cycle r status = record {
    id = r.id;
    project_id = r.project_id;
    status = status;
    origin_task_id = r.origin_task_id;
    failure_reason = r.failure_reason;
    retry_count = r.retry_count;
    confidence_score = r.confidence_score;
    created_at = r.created_at;
    updated_at = r.updated_at;
  }

  -- `status.parse()?`
  unfoldable pub parse_status : Text → M F LearningCycleStatus
  parse_status t = require (invalid_status t) (from_str t)

  unfoldable pub publish_event : Orchestrator → Text → ℕ → Payload → M F (Unit {0})
  publish_event o subject project_id payload w =
      if o.nats
      then (
        ok tt,
        record w {
          events =
              w.events
              ++ (record { subject = subject; project_id = project_id; payload = payload }) ∷ [];
        },
      )
      else (ok tt, w)

  unfoldable pub publish_stage_change :
      Orchestrator → ℕ → ℕ → LearningCycleStatus → LearningCycleStatus → M F (Unit {0})
  publish_stage_change o cycle_id project_id from to =
      publish_event o (codes "learning.cycle.stage_changed") project_id
        (stage_change cycle_id project_id (display from) (display to))

  unfoldable pub fetch : ℕ → M F (CycleRow F)
  fetch cycle_id = do row ← Store.get cycle_id; require (cycle_not_found cycle_id) row

  unfoldable pub start_cycle : Orchestrator → ℕ → ℕ → M F (LearningCycle F)
  start_cycle o project_id origin_task_id = do
    recent_failures ← Store.count_failed_recent project_id 10
    if leb o.max_failed_cycles recent_failures then fail circuit_breaker else (do
      cycle ← Store.create project_id origin_task_id
      publish_event o (codes "learning.cycle.started") project_id empty
      pure (to_cycle cycle detected))

  -- the second half of `advance_cycle`, past the tests
  unfoldable pub move_to :
      Orchestrator
      → CycleRow F
      → LearningCycleStatus
      → LearningCycleStatus
      → ℕ
      → M F (LearningCycle F)
  move_to o cycle current_status next_status cycle_id = do
    Store.update_status cycle_id (display next_status) none
    publish_stage_change o cycle_id cycle.project_id current_status next_status
    row ← Store.get cycle_id
    updated ← require not_found_after_update row
    status ← parse_status updated.status
    pure (to_cycle updated status)

  -- out of retries: the cycle fails for good
  unfoldable pub give_up : Orchestrator → CycleRow F → ℕ → M F (LearningCycle F)
  give_up o cycle cycle_id = do
    Store.update_status cycle_id (codes "failed") (some (codes "Max retries exceeded"))
    publish_event o (codes "learning.cycle.finished") cycle.project_id
        (reason (codes "max_retries"))
    fail max_retries_exceeded

  unfoldable pub advance_cycle : Orchestrator → ℕ → M F (LearningCycle F)
  advance_cycle o cycle_id = do
    cycle ← fetch cycle_id
    current_status ← parse_status cycle.status
    if is_terminal current_status then fail (already_terminal cycle.status) else (do
      next_status ← require (cannot_advance cycle.status) (next current_status)
      if leb o.max_retries cycle.retry_count
          then give_up o cycle cycle_id
          else move_to o cycle current_status next_status cycle_id)

  unfoldable pub fail_cycle : Orchestrator → ℕ → Text → M F (LearningCycle F)
  fail_cycle o cycle_id why = do
    Store.update_status cycle_id (codes "failed") (some why)
    cycle ← fetch cycle_id
    publish_event o (codes "learning.cycle.finished") cycle.project_id (reason why)
    pure (to_cycle cycle failed)

  unfoldable pub retry_cycle : Orchestrator → ℕ → M F (LearningCycle F)
  retry_cycle o cycle_id = do
    cycle ← fetch cycle_id
    if leb o.max_retries cycle.retry_count then fail max_retries_exceeded else (do
      Store.increment_retry cycle_id
      Store.update_status cycle_id (codes "researching") none
      advance_cycle o cycle_id)

  unfoldable pub get_cycle : ℕ → M F (LearningCycle F)
  get_cycle cycle_id = do
    cycle ← fetch cycle_id
    status ← parse_status cycle.status
    pure (to_cycle cycle status)

  -- `filter_map`: a row whose status does not parse is left out
  unfoldable pub parsed_rows : List (CycleRow F) → List (LearningCycle F)
  parsed_rows [] = []
  parsed_rows (r ∷ rs) =
      let rest = parsed_rows rs in
      elim (from_str r.status) [ none ↦ rest | some status ↦ to_cycle r status ∷ rest ]

  unfoldable pub list_cycles :
      Option ℕ → Option LearningCycleStatus → ℕ → ℕ → M F (List (LearningCycle F))
  list_cycles project_id status limit offset = do
    cycles ← Store.list project_id (Option.map display status) limit offset
    pure (parsed_rows cycles)

  unfoldable pub add_evidence : ℕ → Text → Option Text → Text → ℕ → M F (Unit {0})
  add_evidence cycle_id source_type source_url excerpt trust_tier = do
    _ ← Store.add_evidence cycle_id source_type source_url excerpt trust_tier
    pure tt

  unfoldable pub add_test_result : ℕ → Text → Bool → Detail F → M F (Unit {0})
  add_test_result cycle_id stage passed detail = do
    _ ← Store.add_test_result cycle_id stage passed detail
    pure tt

  -- the answer of another part of the system
  unfoldable pub answered : {A : Type 0} → (Text → Error) → Result A Text → M F A
  answered on_error (Common.ok a) = pure a
  answered on_error (Common.err e) = fail (on_error e)

  unfoldable pub run_inference : Orchestrator → Text → M F Text
  run_inference o prompt = do
    engine ← require no_inference o.inference_engine
    stream ← (λ w. answered inference (engine w.clock prompt) w)
    answered inference (collect stream [])

  unfoldable pub search_memory : Orchestrator → Text → ℕ → M F (List Text)
  search_memory o query top_k = do
    store ← require no_memory o.vector_memory
    λ w. answered memory_failed (store.search w.clock query top_k) w
