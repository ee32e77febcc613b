-- ===== src/Learning/Transitions/Retry.antt =====
-- crates/sovalune-self-learning/src/orchestrator.rs: what `retry_cycle` does to a cycle when no
-- database call fails.
use sovalune_core.Common.{ℕ, ◌+◌, ◌^◌, ◌<◌, ◌≡◌, refl, ◌∙◌, none, some, [], ==_refl, lt→ltb, arith}
use sovalune_core.Text.{codes}
use sovalune_core.Learning.Status.{researching, verifying, display, next}
use sovalune_core.Learning.Monad.{CycleRow, World, max_retries_exceeded, ok, err}
use sovalune_core.Learning.Monad.Run.{>>=_ok, >>_ok, tick, call_run}
use sovalune_core.Learning.Store
use sovalune_core.Learning.Store.{find_row, update_row}
use sovalune_core.Learning.Store.Rows.{find_row-update_row}
use sovalune_core.Learning.Orchestrator.{
  Orchestrator, LearningCycle, to_cycle, advance_cycle, retry_cycle,
}
use sovalune_core.Learning.Transitions.{
  with_status, restated, fetch_run, update_status_run, find_with_status, left_over,
  advance_cycle_moves, advance_cycle_gives_up,
}

module _ {F : Type 0} where
  with_retry : World F → ℕ → World F
  with_retry w id = record w {
    clock = w.clock + 1;
    cycles =
        update_row id (λ r. record r { retry_count = r.retry_count + 1; updated_at = w.clock + 1 })
          w.cycles;
  }

  increment_run :
      (id : ℕ) (w : World F) (r : CycleRow F)
      → w.faults ≡ []
      → find_row id w.cycles ≡ some r
      → r.retry_count + 1 < 2 ^ 31
      → Store.increment_retry id w ≡ (ok tt, with_retry w id)
  unfolding Store.increment_retry Store.raise_retry with_retry
  increment_run id w r e found small =
      call_run _ w e ∙ rw found (rw (lt→ltb (r.retry_count + 1) (2 ^ 31) small) refl)

  abbrev retried : CycleRow F → ℕ → CycleRow F
  retried r time = record r { retry_count = r.retry_count + 1; updated_at = time }

  find_with_retry :
      (id : ℕ) (w : World F) (r : CycleRow F)
      → find_row id w.cycles ≡ some r
      → find_row id (with_retry w id).cycles ≡ some (retried r (w.clock + 1))
  unfolding with_retry
  find_with_retry id w r found =
      find_row-update_row id id (λ r'. retried r' (w.clock + 1)) w.cycles (λ r'. refl)
      ∙ rw (==_refl id, found)

  -- the world in which `retry_cycle` hands over to `advance_cycle`
  handed_over : World F → ℕ → World F
  handed_over w id = with_status (with_retry (tick w) id) id (codes "researching") none

  abbrev researched : CycleRow F → World F → CycleRow F
  researched r w =
      restated (retried r (w.clock + 1 + 1)) (codes "researching") none (w.clock + 1 + 1 + 1)

  handed_over-row :
      (id : ℕ) (w : World F) (r : CycleRow F)
      → w.faults ≡ []
      → find_row id w.cycles ≡ some r
      → (find_row id (handed_over w id).cycles ≡ some (researched r w))
        × ((handed_over w id).faults ≡ [])
  unfolding handed_over with_retry
  handed_over-row id w r e found = (
    find_with_status id (codes "researching") none (with_retry (tick w) id) _
        (find_with_retry id (tick w) r found),
    e,
  )

  retry_cycle_run :
      (o : Orchestrator) (id : ℕ) (w : World F) (r : CycleRow F)
      → w.faults ≡ []
      → find_row id w.cycles ≡ some r
      → r.retry_count < o.max_retries
      → r.retry_count + 1 < 2 ^ 31
      → retry_cycle o id w ≡ advance_cycle o id (handed_over w id)
  unfolding retry_cycle handed_over
  retry_cycle_run o id w r e found left small =
      >>=_ok _ _ (fetch_run id w r e found)
      ∙ rw (left_over o r left) (
          >>_ok _ _ (increment_run id (tick w) r e found small)
          ∙ >>_ok _ _ (
              update_status_run id (codes "researching") none (with_retry (tick w) id)
                (unfold with_retry in e)))

  -- Where no database call fails and the limit of retries is below 2^31, a retry that is not the
  -- last one leaves the cycle in verifying with one more retry, whatever its status was: it sets
  -- researching and moves on at once, so the stage of research does not run again.
  pub retry_cycle_skips_research :
      (o : Orchestrator) (id : ℕ) (w : World F) (r : CycleRow F)
      → w.faults ≡ []
      → find_row id w.cycles ≡ some r
      → r.retry_count + 1 < o.max_retries
      → o.max_retries < 2 ^ 31
      → (w' : World F) × (c : LearningCycle F) × (retry_cycle o id w ≡ (ok c, w'))
        × (c.status ≡ verifying)
        × (c.retry_count ≡ r.retry_count + 1)
        × ((r' : CycleRow F) × (find_row id w'.cycles ≡ some r')
            × (r'.status ≡ display verifying)
            × (r'.retry_count ≡ r.retry_count + 1))
  retry_cycle_skips_research o id w r e found left small =
      let (row, faults) = handed_over-row id w r e found in
      let (w', moved, _, final) =
        advance_cycle_moves o id (handed_over w id) (researched r w) researching verifying faults
          row (unfold display in refl) (unfold next in refl) (omega arith) in
      (
        w',
        _,
        retry_cycle_run o id w r e found (omega arith) (omega arith) ∙ moved,
        unfold to_cycle in refl,
        unfold to_cycle in refl,
        (_, final, refl, refl),
      )

  -- Where no database call fails and the limit of retries is below 2^31, the last retry that the
  -- counter allows always fails the cycle: it is counted before the test.
  pub retry_cycle_last_fails :
      (o : Orchestrator) (id : ℕ) (w : World F) (r : CycleRow F)
      → w.faults ≡ []
      → find_row id w.cycles ≡ some r
      → r.retry_count + 1 ≡ o.max_retries
      → o.max_retries < 2 ^ 31
      → (w' : World F) × (retry_cycle o id w ≡ (err max_retries_exceeded, w'))
        × ((r' : CycleRow F) × (find_row id w'.cycles ≡ some r') × (r'.status ≡ codes "failed"))
  retry_cycle_last_fails o id w r e found last small =
      let (row, faults) = handed_over-row id w r e found in
      let (w', gave_up, final) =
        advance_cycle_gives_up o id (handed_over w id) (researched r w) researching verifying faults
          row (unfold display in refl) (unfold next in refl) (omega arith) in
      (w', retry_cycle_run o id w r e found (omega arith) (omega arith) ∙ gave_up, (_, final, refl))
