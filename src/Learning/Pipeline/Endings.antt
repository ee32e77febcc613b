-- ===== src/Learning/Pipeline/Endings.antt =====
-- crates/sovalune-api/src/routes/learning.rs: runs that end, where no database call fails.
use sovalune_core.Common.{ℕ, suc, ◌+◌, ◌≡◌, refl, ◌∙◌, true, false, some, [], filter, ◌==◌}
use sovalune_core.Float.{Float}
use sovalune_core.Text.{Text, codes}
use sovalune_core.Learning.Status.{LearningCycleStatus, verifying, failed, display, is_terminal}
use sovalune_core.Learning.Monad.{CycleRow, Evidence, World, ok, pure}
use sovalune_core.Learning.Monad.Run.{>>=_ok, tick}
use sovalune_core.Learning.Store.{find_row}
use sovalune_core.Learning.Orchestrator.{Orchestrator, to_cycle}
use sovalune_core.Learning.Transitions.{restated}
use sovalune_core.Learning.Stages.{Outside}
use sovalune_core.Learning.Stages.Handlers.{execute}
use sovalune_core.Learning.Stages.Outcomes.{handle_ok, get_cycle_run, verifying_without_evidence}
use sovalune_core.Learning.Pipeline.{finished, handler_for, rounds, reply, run}

module _ (fl : Float) (env : Outside fl.F) (o : Orchestrator) (id : ℕ) where
  open fl use {F, ratio}

  -- a round on a terminal cycle is the last, and calls no stage
  rounds_terminal :
      (left iterations : ℕ) (last_stage : Text) (w : World F) (r : CycleRow F)
      (s : LearningCycleStatus)
      → w.faults ≡ []
      → find_row id w.cycles ≡ some r
      → r.status ≡ display s
      → is_terminal s ≡ true
      → rounds fl env o (suc left) id last_stage iterations w
        ≡ (ok (last_stage, iterations + 1), tick w)
  unfolding rounds pure is_terminal to_cycle
  rounds_terminal left iterations last_stage w r s e found st terminal =
      handle_ok _ _ _ (get_cycle_run id w r s e found st) ∙ rw terminal refl

  -- a round whose stage ends well goes on
  rounds_stage :
      (left iterations : ℕ) (last_stage : Text) (w w' : World F) (r : CycleRow F)
      (s : LearningCycleStatus)
      → w.faults ≡ []
      → find_row id w.cycles ≡ some r
      → r.status ≡ display s
      → is_terminal s ≡ false
      → execute fl env o (handler_for fl s) id (tick w) ≡ (ok tt, w')
      → rounds fl env o (suc left) id last_stage iterations w
        ≡ rounds fl env o left id (display s) (iterations + 1) w'
  unfolding rounds pure is_terminal display to_cycle
  rounds_stage left iterations last_stage w w' r s e found st open_still ran =
      handle_ok _ _ _ (get_cycle_run id w r s e found st) ∙ rw open_still (handle_ok _ _ _ ran)

  reply_run :
      (p : Text × ℕ) (w : World F) (r : CycleRow F) (s : LearningCycleStatus)
      → w.faults ≡ []
      → find_row id w.cycles ≡ some r
      → r.status ≡ display s
      → reply fl env o id p w ≡ (ok (finished (to_cycle r s) p.0 p.1), tick w)
  unfolding reply pure
  reply_run (last_stage, iterations) w r s e found st =
      handle_ok _ _ _ (get_cycle_run id w r s e found st)

  -- Where no database call fails, a run of a cycle that is completed or failed makes one round, calls
  -- no stage and changes no table: it replies with the cycle as it is.
  pub run_terminal :
      (w : World F) (r : CycleRow F) (s : LearningCycleStatus)
      → w.faults ≡ []
      → find_row id w.cycles ≡ some r
      → r.status ≡ display s
      → is_terminal s ≡ true
      → run fl env o id w ≡ (ok (finished (to_cycle r s) (display s) 1), tick (tick (tick w)))
  unfolding run to_cycle
  run_terminal w r s e found st terminal =
      handle_ok _ _ _ (get_cycle_run id w r s e found st)
      ∙ >>=_ok _ _ (rounds_terminal 5 0 (display s) (tick w) r s e found st terminal)
      ∙ reply_run (display s, 1) (tick (tick w)) r s e found st

  -- Where no database call fails, a run of a cycle that is to be verified but has no evidence fails
  -- it: the run calls the stage of verification, which gives the reason NO_SOURCES_FOUND, sees in a
  -- second round that the cycle has failed, and stops. Its reply has the failed cycle, names verifying
  -- as the last stage, and counts two rounds.
  pub run_without_evidence :
      (w : World F) (r : CycleRow F)
      → w.faults ≡ []
      → find_row id w.cycles ≡ some r
      → r.status ≡ display verifying
      → filter (λ (e : Evidence). e.cycle_id == id) w.evidence ≡ []
      → (w' : World F) × (r' : CycleRow F) × (run fl env o id w
          ≡ (ok (finished (to_cycle r' failed) (display verifying) 2), w'))
        × (find_row id w'.cycles ≡ some r')
        × (r'
            ≡ restated r
                (codes "failed")
                (some (codes "NO_SOURCES_FOUND"))
                (w.clock + 1 + 1 + 1 + 1))
  unfolding run execute handler_for is_terminal display to_cycle
  run_without_evidence w r e found st bare =
      let row =
        restated r (codes "failed") (some (codes "NO_SOURCES_FOUND")) (w.clock + 1 + 1 + 1 + 1) in
      let (w1, ran, final, quiet) =
        verifying_without_evidence fl env o (ratio 6 10) id (tick (tick w)) r e found bare in
      (
        tick (tick w1),
        row,
        handle_ok _ _ _ (get_cycle_run id w r verifying e found st)
            ∙ >>=_ok _ _ (
                rounds_stage 5 0 (display verifying) (tick w) w1 r verifying e found st refl ran
                ∙ rounds_terminal 4 1 (display verifying) w1 row failed quiet final refl refl)
            ∙ reply_run (display verifying, 2) (tick w1) row failed quiet final refl,
        final,
        refl,
      )
