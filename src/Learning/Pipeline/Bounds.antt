-- ===== src/Learning/Pipeline/Bounds.antt =====
-- crates/sovalune-api/src/routes/learning.rs: the rounds of `run`, and the table of cycles after it.
use sovalune_core.Common.{ℕ, zero, suc, ◌+◌, ◌≤◌, ◌≡◌, Bool, true, false, arith}
use sovalune_core.Float.{Float}
use sovalune_core.Text.{Text}
use sovalune_core.Learning.Status.{display, is_terminal}
use sovalune_core.Learning.Monad.{World, Answer, ok, err, panicked, M, pure, handle}
use sovalune_core.Learning.Monad.Triple.{Triple, Ends, triple->>=, triple-handle}
use sovalune_core.Learning.Orchestrator.{Orchestrator, LearningCycle, fail_cycle, get_cycle}
use sovalune_core.Learning.Invariant.{IsValid, Safe}
use sovalune_core.Learning.Invariant.Combine.{pure-Safe, bind-Safe, handle-Safe}
use sovalune_core.Learning.Invariant.Operations.{fail_cycle-Safe, get_cycle-Safe, Ends-IsValid}
use sovalune_core.Learning.Stages.{Outside}
use sovalune_core.Learning.Stages.Handlers.{execute}
use sovalune_core.Learning.Stages.Safety.{execute-Safe}
use sovalune_core.Learning.Pipeline.{
  Reply, not_found, run_failed, finished, handler_for, rounds, reply, run,
}

module _ (fl : Float) (env : Outside fl.F) (o : Orchestrator) where
  open fl use {F}

  rounds-Safe :
      (left id : ℕ) (last_stage : Text) (iterations : ℕ)
      → Safe o.max_retries (rounds fl env o left id last_stage iterations)
  unfolding rounds
  rounds-Safe zero id last_stage iterations = pure-Safe _ _
  rounds-Safe (suc left) id last_stage iterations =
      handle-Safe _ _ _ _ (get_cycle-Safe o id)
        (λ current.
          go (is_terminal current.status) current
            (rounds-Safe left id (display current.status) (iterations + 1)))
        (λ e. pure-Safe _ _)
    where
      go :
          (b : Bool) (current : LearningCycle F)
          → Safe o.max_retries (rounds fl env o left id (display current.status) (iterations + 1))
          → Safe o.max_retries (elim b [
            | true ↦ pure (last_stage, iterations + 1)
            | false ↦
                handle
                  (execute fl env o (handler_for fl current.status) id)
                  (λ _. rounds fl env o left id (display current.status) (iterations + 1))
                  (λ e.
                    handle
                      (fail_cycle o id (env.to_string e))
                      (λ _. pure (last_stage, iterations + 1))
                      (λ _. pure (last_stage, iterations + 1)))
          ])
      go true current rest = pure-Safe _ _
      go false current rest =
          handle-Safe _ _ _ _ (execute-Safe fl env o _ id) (λ _. rest)
            (λ e.
              handle-Safe _ _ _ _ (fail_cycle-Safe o id _) (λ _. pure-Safe _ _)
                (λ _. pure-Safe _ _))

  reply-Safe : (id : ℕ) (p : Text × ℕ) → Safe o.max_retries (reply fl env o id p)
  unfolding reply
  reply-Safe id (last_stage, iterations) =
      handle-Safe _ _ _ _ (get_cycle-Safe o id) (λ c. pure-Safe _ _) (λ e. pure-Safe _ _)

  run-Safe : (id : ℕ) → Safe o.max_retries (run fl env o id)
  unfolding run
  run-Safe id =
      handle-Safe _ _ _ _ (get_cycle-Safe o id)
        (λ cycle. bind-Safe _ _ _ (rounds-Safe 6 id _ 0) (reply-Safe id)) (λ e. pure-Safe _ _)

  -- A run of a cycle through its stages, whatever the engine and vector memory answer and whatever
  -- database calls fail, and also if a stage panics, leaves a valid table of cycles valid.
  pub run-IsValid :
      (id : ℕ) (w : World F) → IsValid o.max_retries w → IsValid o.max_retries (run fl env o id w).1
  run-IsValid id w v = Ends-IsValid o _ _ (run-Safe id w v)

  -- nothing is asked of a world
  abbrev Any : World F → Type 0
  Any w = Unit {0}

  Any-triple : {A : Type 0} (m : M F A) → Triple Any m (λ _. Any) Any
  Any-triple m w p = any (m w).0 (m w).1
    where
      any : {A : Type 0} (r : Answer A) (w' : World F) → Ends (λ _. Any) Any r w'
      any (ok a) w' = tt
      any (err e) w' = tt
      any panicked w' = tt

  -- what `rounds` answers counts at most one round for each that was left
  abbrev Counted : ℕ → Text × ℕ → World F → Type 0
  Counted most p w = p.1 ≤ most

  rounds_bound :
      (left id : ℕ) (last_stage : Text) (iterations most : ℕ)
      → left + iterations ≤ most
      → Triple Any (rounds fl env o left id last_stage iterations) (Counted most) Any
  unfolding rounds pure
  rounds_bound zero id last_stage iterations most h = λ w p. omega arith
  rounds_bound (suc left) id last_stage iterations most h =
      triple-handle Any Any (λ _. Any) (Counted most) _ _ _ (Any-triple (get_cycle id))
        (λ current.
          go (is_terminal current.status) current
            (rounds_bound left id (display current.status) (iterations + 1) most (omega arith)))
        (λ e w p. omega arith)
    where
      go :
          (b : Bool) (current : LearningCycle F)
          → Triple Any
              (rounds fl env o left id (display current.status) (iterations + 1))
              (Counted most)
              Any
          → Triple Any
              (elim b [
                | true ↦ pure (last_stage, iterations + 1)
                | false ↦
                    handle
                      (execute fl env o (handler_for fl current.status) id)
                      (λ _. rounds fl env o left id (display current.status) (iterations + 1))
                      (λ e.
                        handle
                          (fail_cycle o id (env.to_string e))
                          (λ _. pure (last_stage, iterations + 1))
                          (λ _. pure (last_stage, iterations + 1)))
              ])
              (Counted most)
              Any
      go true current rest = λ w p. omega arith
      go false current rest =
          triple-handle Any Any (λ _. Any) (Counted most) _ _ _ (Any-triple _) (λ _. rest)
            (λ e.
              triple-handle Any Any (λ _. Any) (Counted most) _ _ _ (Any-triple _)
                (λ _ w p. omega arith) (λ _ w p. omega arith))

  -- a reply that counts rounds counts at most `most`
  abbrev RepliesWithin : ℕ → Reply F → World F → Type 0
  RepliesWithin most (not_found t) w = Unit {0}
  RepliesWithin most (run_failed t) w = Unit {0}
  RepliesWithin most (finished c last_stage iterations) w = iterations ≤ most

  reply_bound :
      (id most : ℕ) (p : Text × ℕ)
      → Triple (Counted most p) (reply fl env o id p) (RepliesWithin most) Any
  unfolding reply pure
  reply_bound id most (last_stage, iterations) =
      triple-handle Any (λ _. iterations ≤ most) (λ _ _. iterations ≤ most) (RepliesWithin most) _ _
        _ (λ w le. kept (get_cycle id w).0 (get_cycle id w).1 le) (λ c w le. le) (λ e w _. tt)
    where
      kept :
          {A : Type 0} (r : Answer A) (w : World F)
          → iterations ≤ most
          → Ends (λ _ _. iterations ≤ most) Any r w
      kept (ok a) w le = le
      kept (err e) w le = tt
      kept panicked w le = tt

  run_bound : (id : ℕ) → Triple Any (run fl env o id) (RepliesWithin 6) Any
  unfolding run pure
  run_bound id =
      triple-handle Any Any (λ _. Any) (RepliesWithin 6) _ _ _ (Any-triple (get_cycle id))
        (λ cycle.
          triple->>= Any Any (Counted 6) (RepliesWithin 6) _ _
            (rounds_bound 6 id (display cycle.status) 0 6 (omega arith)) (reply_bound id 6))
        (λ e w p. tt)

  -- Where a run replies with a cycle, it made at most six rounds.
  pub run_at_most_six :
      (id : ℕ) (w : World F) (c : LearningCycle F) (last_stage : Text) (iterations : ℕ)
      → (run fl env o id w).0 ≡ ok (finished c last_stage iterations)
      → iterations ≤ 6
  run_at_most_six id w c last_stage iterations e = rw e at (run_bound id w tt)
