-- ===== src/Learning/Transitions.antt =====
-- crates/sovalune-self-learning/src/orchestrator.rs: what `advance_cycle` does to a cycle when no
-- database call fails. The children treat the other operations.
pub mod Retry
pub mod Start
use mathlib.Core.Option
use sovalune_core.Common.{
  ℕ, suc, ◌+◌, ◌^◌, ◌≤◌, ◌<◌, ◌≡◌, ◌≢◌, refl, sym, ap, ◌∙◌, Bool, true, false, Option, none, some,
  List, [], ◌∷◌, ◌++◌, leb, ltb, ◌==◌, ==_refl, le→leb, lt→ltb, if◌then◌else◌, Bool-cases, inl, inr,
  arith,
}
use sovalune_core.Text.{Text, codes}
use sovalune_core.Learning.Status.{
  LearningCycleStatus, detected, researching, verifying, failed, display, from_str, next,
  is_terminal,
}
use sovalune_core.Learning.Status.Progress.{from_str-iff-display}
use sovalune_core.Learning.Monad.{
  CycleRow, Payload, stage_change, reason, World, Error, max_retries_exceeded, already_terminal,
  circuit_breaker, Answer, ok, err, M, ◌>>=◌, ◌>>◌, pure, fail, require, call,
}
use sovalune_core.Learning.Monad.Run.{>>=_ok, >>=_err, >>_ok, >>_err, tick, call_run}
use sovalune_core.Learning.Store
use sovalune_core.Learning.Store.{find_row, update_row}
use sovalune_core.Learning.Store.Rows.{find_row-update_row}
use sovalune_core.Learning.Orchestrator.{
  Orchestrator, LearningCycle, to_cycle, parse_status, publish_event, publish_stage_change, fetch,
  start_cycle, move_to, give_up, advance_cycle, fail_cycle, retry_cycle, get_cycle,
}

pub goes_on : (s t : LearningCycleStatus) → next s ≡ some t → is_terminal s ≡ false
unfolding next is_terminal
goes_on detected t e = refl
goes_on s t e = ground arith

module _ {F : Type 0} where
  pub get_run :
      (id : ℕ) (w : World F) → w.faults ≡ [] → Store.get id w ≡ (ok (find_row id w.cycles), tick w)
  unfolding Store.get
  get_run id w e = call_run _ w e

  pub require_run :
      {A : Type 0} (x : Error) (a : Option A) (b : A) (w : World F)
      → a ≡ some b
      → require x a w ≡ (ok b, w)
  unfolding require pure
  require_run x a b w e = rw e

  pub fetch_run :
      (id : ℕ) (w : World F) (r : CycleRow F)
      → w.faults ≡ []
      → find_row id w.cycles ≡ some r
      → fetch id w ≡ (ok r, tick w)
  unfolding fetch require pure
  fetch_run id w r e found = >>=_ok (Store.get id) _ (get_run id w e) ∙ rw found

  abbrev pub with_status : World F → ℕ → Text → Option Text → World F
  with_status w id t why = record w {
    clock = w.clock + 1;
    cycles =
        update_row id (λ r. record r { status = t; failure_reason = why; updated_at = w.clock + 1 })
          w.cycles;
  }

  pub update_status_run :
      (id : ℕ) (t : Text) (why : Option Text) (w : World F)
      → w.faults ≡ []
      → Store.update_status id t why w ≡ (ok tt, with_status w id t why)
  unfolding Store.update_status
  update_status_run id t why w e = call_run _ w e

  pub parse_run :
      (t : Text) (s : LearningCycleStatus) (w : World F)
      → t ≡ display s
      → parse_status t w ≡ (ok s, w)
  unfolding parse_status require pure
  parse_run t s w e = rw ((from_str-iff-display t s).1 e)

  abbrev pub published : Orchestrator → Text → ℕ → Payload → World F → World F
  published o subject project payload w =
      if o.nats
      then record w {
        events =
            w.events
            ++ (record { subject = subject; project_id = project; payload = payload }) ∷ [];
      }
      else w

  pub publish_run :
      (o : Orchestrator) (subject : Text) (project : ℕ) (payload : Payload) (w : World F)
      → publish_event o subject project payload w ≡ (ok tt, published o subject project payload w)
  unfolding publish_event
  publish_run o subject project payload w = ground arith

  pub published-cycles :
      (o : Orchestrator) (subject : Text) (project : ℕ) (payload : Payload) (w : World F)
      → ((published o subject project payload w).cycles ≡ w.cycles)
        × ((published o subject project payload w).faults ≡ w.faults)
  published-cycles o subject project payload w = ground arith

  -- the row after its status was set
  abbrev pub restated : CycleRow F → Text → Option Text → ℕ → CycleRow F
  restated r t why time = record r { status = t; failure_reason = why; updated_at = time }

  pub find_with_status :
      (id : ℕ) (t : Text) (why : Option Text) (w : World F) (r : CycleRow F)
      → find_row id w.cycles ≡ some r
      → find_row id (with_status w id t why).cycles ≡ some (restated r t why (w.clock + 1))
  find_with_status id t why w r found =
      find_row-update_row id id (λ r'. restated r' t why (w.clock + 1)) w.cycles (λ r'. refl)
      ∙ rw (==_refl id, found)

  -- `move_to` sets the status, and returns the row as it is then
  move_to_run :
      (o : Orchestrator) (r : CycleRow F) (s t : LearningCycleStatus) (id : ℕ) (w : World F)
      (r0 : CycleRow F)
      → w.faults ≡ []
      → find_row id w.cycles ≡ some r0
      → (w' : World F) × (move_to o r s t id w
          ≡ (ok (to_cycle (restated r0 (display t) none (w.clock + 1)) t), w'))
        × (w'.cycles ≡ (with_status w id (display t) none).cycles)
        × (w'.faults ≡ [])
  unfolding move_to publish_stage_change pure
  move_to_run o r s t id w r0 e found =
      let w1 = with_status w id (display t) none in
      let w2 =
        published o (codes "learning.cycle.stage_changed") r.project_id
          (stage_change id r.project_id (display s) (display t)) w1 in
      let tables =
        published-cycles o (codes "learning.cycle.stage_changed") r.project_id
          (stage_change id r.project_id (display s) (display t)) w1 in
      let row = restated r0 (display t) none (w.clock + 1) in
      let found2 : find_row id w2.cycles ≡ some row =
        ap (find_row id) tables.0 ∙ find_with_status id (display t) none w r0 found in
      (
        tick w2,
        >>_ok _ _ (update_status_run id (display t) none w e)
            ∙ >>_ok _ _ (publish_run o (codes "learning.cycle.stage_changed") r.project_id _ w1)
            ∙ >>=_ok _ _ (get_run id w2 (tables.1 ∙ e))
            ∙ >>=_ok _ _ (require_run _ _ row (tick w2) found2)
            ∙ >>=_ok _ _ (parse_run (display t) t (tick w2) refl),
        tables.0,
        tables.1 ∙ e,
      )

  pub left_over :
      (o : Orchestrator) (r : CycleRow F)
      → r.retry_count < o.max_retries
      → leb o.max_retries r.retry_count ≡ false
  left_over o r left = ground arith

  pub used_up :
      (o : Orchestrator) (r : CycleRow F)
      → o.max_retries ≤ r.retry_count
      → leb o.max_retries r.retry_count ≡ true
  used_up o r h = ground arith

  -- Where no database call fails, a cycle with a retry left, in a status that has a next one, moves
  -- to that status: the row has it and no reason of failure, the retries stay, and the answer is
  -- the row.
  pub advance_cycle_moves :
      (o : Orchestrator) (id : ℕ) (w : World F) (r : CycleRow F) (s t : LearningCycleStatus)
      → w.faults ≡ []
      → find_row id w.cycles ≡ some r
      → r.status ≡ display s
      → next s ≡ some t
      → r.retry_count < o.max_retries
      → (w' : World F) × (advance_cycle o id w
          ≡ (ok (to_cycle (restated r (display t) none (w.clock + 1 + 1)) t), w'))
        × (w'.cycles
            ≡ update_row id (λ r'. restated r' (display t) none (w.clock + 1 + 1)) w.cycles)
        × (find_row id w'.cycles ≡ some (restated r (display t) none (w.clock + 1 + 1)))
  unfolding advance_cycle
  advance_cycle_moves o id w r s t e found st nx left =
      let (w', moved, cycles, faults) = move_to_run o r s t id (tick w) r e found in
      (
        w',
        >>=_ok _ _ (fetch_run id w r e found)
            ∙ >>=_ok _ _ (parse_run r.status s (tick w) st)
            ∙ rw (goes_on s t nx)
                (>>=_ok _ _ (require_run _ (next s) t (tick w) nx) ∙ rw (left_over o r left) moved),
        cycles,
        ap (find_row id) cycles ∙ find_with_status id (display t) none (tick w) r found,
      )

  -- Where no database call fails, a cycle without a retry left, in a status that has a next one, is
  -- failed by `advance_cycle`, which answers with an error.
  pub advance_cycle_gives_up :
      (o : Orchestrator) (id : ℕ) (w : World F) (r : CycleRow F) (s t : LearningCycleStatus)
      → w.faults ≡ []
      → find_row id w.cycles ≡ some r
      → r.status ≡ display s
      → next s ≡ some t
      → o.max_retries ≤ r.retry_count
      → (w' : World F) × (advance_cycle o id w ≡ (err max_retries_exceeded, w'))
        × (find_row id w'.cycles
            ≡ some (
                restated r
                  (codes "failed")
                  (some (codes "Max retries exceeded"))
                  (w.clock + 1 + 1)))
  unfolding advance_cycle give_up fail
  advance_cycle_gives_up o id w r s t e found st nx out =
      let why = some (codes "Max retries exceeded") in
      let w1 = with_status (tick w) id (codes "failed") why in
      let w2 =
        published o (codes "learning.cycle.finished") r.project_id (reason (codes "max_retries"))
          w1 in
      (
        w2,
        >>=_ok _ _ (fetch_run id w r e found)
            ∙ >>=_ok _ _ (parse_run r.status s (tick w) st)
            ∙ rw (goes_on s t nx) (
                >>=_ok _ _ (require_run _ (next s) t (tick w) nx)
                ∙ rw (used_up o r out) (
                    >>_ok _ _ (update_status_run id (codes "failed") why (tick w) e)
                    ∙ >>_ok _ _ (publish_run o _ r.project_id (reason (codes "max_retries")) w1))),
        ap (find_row id) (published-cycles o _ r.project_id (reason (codes "max_retries")) w1).0
            ∙ find_with_status id (codes "failed") why (tick w) r found,
      )
