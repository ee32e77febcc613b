-- ===== src/Learning/Invariant/Operations.antt =====
-- crates/sovalune-self-learning/src/orchestrator.rs: the operations and the invariant of the table of
-- cycles.
use sovalune_core.Common.{ℕ, ◌≡◌, refl, ◌∙◌, Option, none, some, List, [], ◌∷◌, leb, arith}
use sovalune_core.Text.{Text, codes}
use sovalune_core.Learning.Status.{
  LearningCycleStatus, detected, researching, failed, display, from_str, next, is_terminal,
}
use sovalune_core.Learning.Monad.{
  CycleRow, Payload, empty, reason, World, Error, Answer, ok, err, panicked, require,
  circuit_breaker, max_retries_exceeded, already_terminal,
}
use sovalune_core.Learning.Monad.Triple.{
  Triple, Ends, triple->>=, triple->>, triple-require, triple_if, Ends-if,
}
use sovalune_core.Learning.Store
use sovalune_core.Learning.Store.{find_row}
use sovalune_core.Learning.Orchestrator.{
  Orchestrator, LearningCycle, to_cycle, parse_status, publish_event, publish_stage_change, fetch,
  start_cycle, move_to, give_up, advance_cycle, fail_cycle, retry_cycle, get_cycle,
}
use sovalune_core.Learning.Invariant.Combine.{pure-Safe, fail-Safe}
use sovalune_core.Learning.Invariant.{
  IsValid, Safe, Holds, update_status-Safe, get-Safe, increment_retry-Safe, create-Safe,
  count_failed_recent-Safe,
}

module _ {F : Type 0} (o : Orchestrator) where
  abbrev Valid : World F → Type 0
  Valid = IsValid o.max_retries

  require-Safe :
      {A : Type 0} (P : World F → Type 0) (x : Error) (a : Option A)
      → ((w : World F) → P w → Valid w)
      → Triple P (require x a) (λ _. P) Valid
  require-Safe P x a out = triple-require Valid P (λ _. P) x a out (λ a' w e p. p)

  publish_event-Safe :
      (subject : Text) (project : ℕ) (payload : Payload)
      → Safe {F = F} o.max_retries (publish_event o subject project payload)
  unfolding publish_event
  publish_event-Safe subject project payload w v =
      Ends-if Valid (λ _. Valid) o.nats _ _
        (record { rows = v.rows; past = v.past; unique = v.unique }) v

  -- the row that is fetched stands in the table
  fetch_lem : (id : ℕ) → Triple Valid (fetch id) (λ r. Holds o.max_retries id r) Valid
  unfolding fetch
  fetch_lem id =
      triple->>= Valid Valid (λ a w. Valid w × (find_row id w.cycles ≡ a))
        (λ r. Holds o.max_retries id r) (Store.get id) _ (get-Safe o.max_retries id)
        (λ a.
          triple-require Valid (λ w. Valid w × (find_row id w.cycles ≡ a))
            (λ r. Holds o.max_retries id r) _ a (λ w h. h.0) (λ r w e h. (h.0, h.1 ∙ e)))

  pub start_cycle-Safe :
      (project origin : ℕ) → Safe {F = F} o.max_retries (start_cycle o project origin)
  unfolding start_cycle
  start_cycle-Safe project origin =
      triple->>= Valid Valid (λ _. Valid) (λ _. Valid) _ _
        (count_failed_recent-Safe o.max_retries project 10)
        (λ n.
          triple_if Valid Valid (λ _. Valid) (leb o.max_failed_cycles n) _ _
            (λ _. fail-Safe o.max_retries (LearningCycle F) circuit_breaker)
            (λ _.
              triple->>= Valid Valid (λ _. Valid) (λ _. Valid) _ _
                (create-Safe o.max_retries project origin)
                (λ cycle.
                  triple->> Valid Valid Valid (λ _. Valid) _ _
                    (publish_event-Safe (codes "learning.cycle.started") project empty)
                    (pure-Safe o.max_retries (to_cycle cycle detected)))))

  pub fail_cycle-Safe : (id : ℕ) (why : Text) → Safe {F = F} o.max_retries (fail_cycle o id why)
  unfolding fail_cycle
  fail_cycle-Safe id why =
      triple->> Valid Valid Valid (λ _. Valid) _ _
        (update_status-Safe o.max_retries id (codes "failed") failed (some why)
          (unfold display in refl))
        (triple->>= Valid Valid (λ r. Holds o.max_retries id r) (λ _. Valid) _ _ (fetch_lem id)
          (λ r.
            triple->> Valid (Holds o.max_retries id r) Valid (λ _. Valid) _ _
              (λ w h.
                publish_event-Safe (codes "learning.cycle.finished") r.project_id (reason why) w
                  h.0)
              (pure-Safe o.max_retries (to_cycle r failed))))

  move_to-Safe :
      (r : CycleRow F) (s t : LearningCycleStatus) (id : ℕ)
      → Safe o.max_retries (move_to o r s t id)
  unfolding move_to publish_stage_change parse_status
  move_to-Safe r s t id =
      triple->> Valid Valid Valid (λ _. Valid) _ _
        (update_status-Safe o.max_retries id (display t) t none refl)
        (triple->> Valid Valid Valid (λ _. Valid) _ _ (publish_event-Safe _ r.project_id _)
          (triple->>= Valid Valid (λ a w. Valid w × (find_row id w.cycles ≡ a)) (λ _. Valid) _ _
            (get-Safe o.max_retries id)
            (λ a.
              triple->>= Valid (λ w. Valid w × (find_row id w.cycles ≡ a)) (λ _. Valid) (λ _. Valid)
                _ _ (triple-require Valid _ (λ _. Valid) _ a (λ w h. h.0) (λ r' w e h. h.0))
                (λ updated.
                  triple->>= Valid Valid (λ _. Valid) (λ _. Valid) _ _
                    (require-Safe Valid _ (from_str updated.status) (λ w v. v))
                    (λ status. pure-Safe o.max_retries (to_cycle updated status))))))

  give_up-Safe : (r : CycleRow F) (id : ℕ) → Safe o.max_retries (give_up o r id)
  unfolding give_up
  give_up-Safe r id =
      triple->> Valid Valid Valid (λ _. Valid) _ _
        (update_status-Safe o.max_retries id (codes "failed") failed _ (unfold display in refl))
        (triple->> Valid Valid Valid (λ _. Valid) _ _ (publish_event-Safe _ r.project_id _)
          (fail-Safe o.max_retries (LearningCycle F) max_retries_exceeded))

  pub advance_cycle-Safe : (id : ℕ) → Safe {F = F} o.max_retries (advance_cycle o id)
  unfolding advance_cycle parse_status
  advance_cycle-Safe id =
      triple->>= Valid Valid (λ r. Holds o.max_retries id r) (λ _. Valid) _ _ (fetch_lem id)
        (λ r.
          triple->>= Valid (Holds o.max_retries id r) (λ _. Valid) (λ _. Valid) _ _
            (triple-require Valid _ (λ _. Valid) _ (from_str r.status) (λ w h. h.0)
              (λ s w e h. h.0))
            (λ s.
              triple_if Valid Valid (λ _. Valid) (is_terminal s) _ _
                (λ _. fail-Safe o.max_retries (LearningCycle F) (already_terminal r.status))
                (λ _.
                  triple->>= Valid Valid (λ _. Valid) (λ _. Valid) _ _
                    (require-Safe Valid _ (next s) (λ w v. v))
                    (λ t.
                      triple_if Valid Valid (λ _. Valid) (leb o.max_retries r.retry_count) _ _
                        (λ _. give_up-Safe r id) (λ _. move_to-Safe r s t id)))))

  pub retry_cycle-Safe : (id : ℕ) → Safe {F = F} o.max_retries (retry_cycle o id)
  unfolding retry_cycle
  retry_cycle-Safe id =
      triple->>= Valid Valid (λ r. Holds o.max_retries id r) (λ _. Valid) _ _ (fetch_lem id)
        (λ r.
          triple_if Valid (Holds o.max_retries id r) (λ _. Valid) (leb o.max_retries r.retry_count)
            _ _ (λ _ w h. fail-Safe o.max_retries (LearningCycle F) max_retries_exceeded w h.0)
            (λ left.
              triple->> Valid (Holds o.max_retries id r) Valid (λ _. Valid) _ _
                (increment_retry-Safe o.max_retries id r (ground arith))
                (triple->> Valid Valid Valid (λ _. Valid) _ _
                  (update_status-Safe o.max_retries id (codes "researching") researching none
                    (unfold display in refl))
                  (advance_cycle-Safe id))))

  pub get_cycle-Safe : (id : ℕ) → Safe {F = F} o.max_retries (get_cycle id)
  unfolding get_cycle parse_status
  get_cycle-Safe id =
      triple->>= Valid Valid (λ r. Holds o.max_retries id r) (λ _. Valid) _ _ (fetch_lem id)
        (λ r.
          triple->>= Valid (Holds o.max_retries id r) (λ _. Valid) (λ _. Valid) _ _
            (triple-require Valid _ (λ _. Valid) _ (from_str r.status) (λ w h. h.0)
              (λ s w e h. h.0))
            (λ s. pure-Safe o.max_retries (to_cycle r s)))

-- the operations that the routes and the stages call
pub data Command : Type 0 where
  start : ℕ → ℕ → Command
  advance : ℕ → Command
  give_up_on : ℕ → Text → Command
  retry : ℕ → Command

module _ {F : Type 0} (o : Orchestrator) where
  unfoldable pub perform : Command → World F → World F
  perform (start project origin) w = (start_cycle o project origin w).1
  perform (advance id) w = (advance_cycle o id w).1
  perform (give_up_on id why) w = (fail_cycle o id why w).1
  perform (retry id) w = (retry_cycle o id w).1

  unfoldable pub perform_all : List Command → World F → World F
  perform_all [] w = w
  perform_all (c ∷ cs) w = perform_all cs (perform c w)

  pub Ends-IsValid :
      {A : Type 0} (r : Answer A) (w : World F)
      → Ends (λ _. IsValid o.max_retries) (IsValid o.max_retries) r w
      → IsValid o.max_retries w
  Ends-IsValid (ok a) w h = h
  Ends-IsValid (err e) w h = h
  Ends-IsValid panicked w h = h

  perform-IsValid :
      (c : Command) (w : World F) → IsValid o.max_retries w → IsValid o.max_retries (perform c w)
  unfolding perform
  perform-IsValid (start project origin) w v =
      Ends-IsValid _ _ (start_cycle-Safe o project origin w v)
  perform-IsValid (advance id) w v = Ends-IsValid _ _ (advance_cycle-Safe o id w v)
  perform-IsValid (give_up_on id why) w v = Ends-IsValid _ _ (fail_cycle-Safe o id why w v)
  perform-IsValid (retry id) w v = Ends-IsValid _ _ (retry_cycle-Safe o id w v)

  -- After any operations, in any order and with any database calls failing, every status parses, no
  -- cycle has more retries than the limit, and no two cycles share their id.
  pub perform_all-IsValid :
      (cs : List Command) (w : World F)
      → IsValid o.max_retries w
      → IsValid o.max_retries (perform_all cs w)
  unfolding perform_all
  perform_all-IsValid [] w v = v
  perform_all-IsValid (c ∷ cs) w v = perform_all-IsValid cs (perform c w) (perform-IsValid c w v)
