-- ===== src/Learning/Stages/Outcomes.antt =====
-- crates/sovalune-self-learning/src/stages: single stages when no database call fails.
pub mod Applying
use mathlib.Core.Option
use sovalune_core.Common.{
  ℕ, ◌+◌, ◌<◌, ◌≡◌, refl, ap, ◌∙◌, Bool, true, false, Option, none, some, List, [], ◌∷◌, ◌++◌,
  filter, ◌==◌, min, Result, arith,
}
use sovalune_core.Common
use sovalune_core.Float.{Float}
use sovalune_core.Text.{Text, codes, slice_to, byte_len}
use sovalune_core.Learning.Status.{
  LearningCycleStatus, detected, researching, display, next, failed,
}
use sovalune_core.Learning.Monad.{
  CycleRow, Evidence, TestResult, Detail, application, Payload, reason, World, Error, no_inference,
  inference, Answer, ok, err, panicked, M, after, either, ◌>>=◌, ◌>>◌, pure, handle, require, fail,
}
use sovalune_core.Learning.Monad.Run.{>>=_ok, >>=_err, >>_ok, >>_err, tick, call_run}
use sovalune_core.Learning.Store
use sovalune_core.Types.{TokenEvent}
use sovalune_core.Learning.Store.{find_row, update_row, order_by_trust, refers}
use sovalune_core.Learning.Orchestrator.{
  Orchestrator, LearningCycle, Memory, to_cycle, advance_cycle, fail_cycle, get_cycle,
  add_test_result, run_inference, collect, answered,
}
use sovalune_core.Learning.Transitions.{
  fetch_run, parse_run, update_status_run, publish_run, published, published-cycles, with_status,
  find_with_status, restated, advance_cycle_moves,
}
use sovalune_core.Learning.Stages.{Outside}
use sovalune_core.Learning.Stages.Prompts.{apply_prompt}
use sovalune_core.Learning.Stages.Handlers.{
  slice, log_prefix, advance, give_up_with, analyse, detected_stage, verify, verifying_stage,
  remember, apply, applying_stage,
}

module _ {F A B : Type 0} (m : M F A) where
  pub >>=_panicked :
      (f : A → M F B) {w w' : World F} → m w ≡ (panicked, w') → (m >>= f) w ≡ (panicked, w')
  unfolding ◌>>=◌
  >>=_panicked f e = ap (λ (r : Answer A × World F). after r.0 r.1 f) e

  pub >>_panicked :
      (k : M F B) {w w' : World F} → m w ≡ (panicked, w') → (m >> k) w ≡ (panicked, w')
  unfolding ◌>>◌
  >>_panicked k e = ap (λ (r : Answer A × World F). after r.0 r.1 (λ _. k)) e

module _ {F A B : Type 0} (m : M F A) (f : A → M F B) (g : Error → M F B) where
  pub handle_ok : {w w' : World F} {a : A} → m w ≡ (ok a, w') → handle m f g w ≡ f a w'
  unfolding handle
  handle_ok e = ap (λ (r : Answer A × World F). either r.0 r.1 f g) e

  pub handle_err : {w w' : World F} {x : Error} → m w ≡ (err x, w') → handle m f g w ≡ g x w'
  unfolding handle
  handle_err e = ap (λ (r : Answer A × World F). either r.0 r.1 f g) e

module _ {F : Type 0} where
  pub get_cycle_run :
      (id : ℕ) (w : World F) (r : CycleRow F) (s : LearningCycleStatus)
      → w.faults ≡ []
      → find_row id w.cycles ≡ some r
      → r.status ≡ display s
      → get_cycle id w ≡ (ok (to_cycle r s), tick w)
  unfolding get_cycle pure
  get_cycle_run id w r s e found st =
      >>=_ok _ _ (fetch_run id w r e found) ∙ >>=_ok _ _ (parse_run r.status s (tick w) st)

  no_engine :
      (o : Orchestrator) (prompt : Text) (w : World F)
      → o.inference_engine ≡ none
      → run_inference o prompt w ≡ (err no_inference, w)
  unfolding run_inference require fail
  no_engine o prompt w e = >>=_err _ _ (rw e)

  pub get_evidence_run :
      (id : ℕ) (w : World F)
      → w.faults ≡ []
      → Store.get_evidence id w
        ≡ (ok (order_by_trust (filter (λ e. e.cycle_id == id) w.evidence)), tick w)
  unfolding Store.get_evidence
  get_evidence_run id w e = call_run _ w e

no_evidence :
    {F : Type 0} (id : ℕ) (w : World F)
    → w.faults ≡ []
    → filter (λ (e : Evidence). e.cycle_id == id) w.evidence ≡ []
    → Store.get_evidence id w ≡ (ok [], tick w)
unfolding order_by_trust
no_evidence id w e bare = get_evidence_run id w e ∙ ap (λ es. (ok (order_by_trust es), tick w)) bare

module _ (fl : Float) (env : Outside fl.F) (o : Orchestrator) where
  open fl use {F}

  pub slice_run :
      (n : ℕ) (s t : Text) (w : World F)
      → slice_to s (min n (byte_len s)) ≡ some t
      → slice fl env o n s w ≡ (ok t, w)
  unfolding slice
  slice_run n s t w e = rw (e, slice)

  pub slice_panics :
      (n : ℕ) (s : Text) (w : World F)
      → slice_to s (min n (byte_len s)) ≡ none
      → slice fl env o n s w ≡ (panicked, w)
  unfolding slice
  slice_panics n s w e = rw (e, slice)

  quiet_log :
      (n : ℕ) (s t : Text) (w : World F)
      → slice_to s (min n (byte_len s)) ≡ some t
      → log_prefix fl env o n s w ≡ (ok tt, w)
  unfolding log_prefix pure
  quiet_log n s t w e = go env.logs
    where
      go :
          (b : Bool)
          → elim b as (λ _. M F (Unit {0})) [
            | true ↦ slice fl env o n s >> pure tt
            | false ↦ pure tt
          ]
              w
            ≡ (ok tt, w)
      go true = >>_ok _ _ (slice_run n s t w e)
      go false = refl

  abbrev not_available : Text
  not_available = codes "Analysis not available - inference engine not configured"

  available : slice_to not_available (min 200 (byte_len not_available)) ≡ some not_available
  unfolding slice_to byte_len
  available = refl

  -- Where no database call fails and no inference engine is configured, the first stage still moves a
  -- detected cycle with a retry left on to researching, and writes no evidence.
  pub detected_without_engine :
      (id : ℕ) (w : World F) (r : CycleRow F)
      → o.inference_engine ≡ none
      → w.faults ≡ []
      → find_row id w.cycles ≡ some r
      → r.status ≡ display detected
      → r.retry_count < o.max_retries
      → (w' : World F) × (detected_stage fl env o id w ≡ (ok tt, w'))
        × ((r' : CycleRow F) × (find_row id w'.cycles ≡ some r')
            × (r'.status ≡ display researching))
  unfolding detected_stage analyse advance pure
  detected_without_engine id w r none_there e found st left =
      let (w', moved, _, final) =
        advance_cycle_moves o id (tick w) r detected researching e found st (unfold next in refl)
          left in
      (
        w',
        >>=_ok _ _ (get_cycle_run id w r detected e found st)
            ∙ >>=_ok _ _ (handle_err _ _ _ (no_engine o _ (tick w) none_there))
            ∙ >>_ok _ _ (quiet_log 200 not_available not_available (tick w) available)
            ∙ >>_ok _ _ moved,
        (_, final, refl),
      )

  fail_cycle_run :
      (id : ℕ) (why : Text) (w : World F) (r : CycleRow F)
      → w.faults ≡ []
      → find_row id w.cycles ≡ some r
      → (w' : World F) × (give_up_with fl env o id why w ≡ (ok tt, w'))
        × (find_row id w'.cycles ≡ some (restated r (codes "failed") (some why) (w.clock + 1)))
        × (w'.faults ≡ [])
  unfolding give_up_with fail_cycle pure
  fail_cycle_run id why w r e found =
      let row = restated r (codes "failed") (some why) (w.clock + 1) in
      let w1 = with_status w id (codes "failed") (some why) in
      let found1 = find_with_status id (codes "failed") (some why) w r found in
      let w2 = published o (codes "learning.cycle.finished") r.project_id (reason why) (tick w1) in
      let tables =
        published-cycles o (codes "learning.cycle.finished") r.project_id (reason why) (tick w1) in
      (
        w2,
        >>_ok _ _ (
            >>_ok _ _ (update_status_run id (codes "failed") (some why) w e)
            ∙ >>=_ok _ _ (fetch_run id w1 row e found1)
            ∙ >>_ok _ _ (
                publish_run o (codes "learning.cycle.finished") r.project_id (reason why)
                  (tick w1))),
        ap (find_row id) tables.0 ∙ found1,
        tables.1 ∙ e,
      )

  -- Where no database call fails, a cycle without evidence is failed by the stage of verification,
  -- with the reason NO_SOURCES_FOUND, whatever the confidence that is asked for.
  pub verifying_without_evidence :
      (min_confidence : F) (id : ℕ) (w : World F) (r : CycleRow F)
      → w.faults ≡ []
      → find_row id w.cycles ≡ some r
      → filter (λ (e : Evidence). e.cycle_id == id) w.evidence ≡ []
      → (w' : World F) × (verifying_stage fl env o min_confidence id w ≡ (ok tt, w'))
        × (find_row id w'.cycles
            ≡ some
                (restated r (codes "failed") (some (codes "NO_SOURCES_FOUND")) (w.clock + 1 + 1)))
        × (w'.faults ≡ [])
  unfolding verifying_stage verify
  verifying_without_evidence min_confidence id w r e found bare =
      let (w', failed_run, final, quiet) =
        fail_cycle_run id (codes "NO_SOURCES_FOUND") (tick w) r e found in
      (w', >>=_ok _ _ (no_evidence id w e bare) ∙ failed_run, final, quiet)
