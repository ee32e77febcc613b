-- ===== src/Learning/Transitions/Start.antt =====
-- crates/sovalune-self-learning/src/orchestrator.rs: when `start_cycle` starts a cycle, and what the
-- failure of a database call leaves behind.
use mathlib.Core.List.{reverse, reverse-append}
use sovalune_core.Common.{
  ℕ, zero, suc, ◌+◌, ◌≤◌, ◌<◌, ◌≡◌, refl, ap, ◌∙◌, Bool, true, false, ◌&&◌, none, List, [], ◌∷◌,
  ◌++◌, length, take, filter, length-append, min, leb, ◌==◌, arith,
}
use sovalune_core.Text.{codes, text_eq}
use sovalune_core.Learning.Status.{detected, display}
use sovalune_core.Learning.Monad.{CycleRow, World, circuit_breaker, empty, ok, err, pure, fail}
use sovalune_core.Learning.Monad.Run.{>>=_ok, >>_ok, tick, call_run}
use sovalune_core.Learning.Store
use sovalune_core.Learning.Store.{find_row}
use sovalune_core.Learning.Orchestrator.{Orchestrator, to_cycle, start_cycle}
use sovalune_core.Learning.Transitions.{published, publish_run, published-cycles}

module _ {A : Type 0} where
  filter-append : (p : A → Bool) (xs ys : List A) → filter p (xs ++ ys) ≡ filter p xs ++ filter p ys
  filter-append p [] ys = refl
  filter-append p (x ∷ xs) ys = ground (arith, filter-append p xs ys)

  length-filter-reverse :
      (p : A → Bool) (xs : List A) → length (filter p (reverse xs)) ≡ length (filter p xs)
  length-filter-reverse p [] = refl
  length-filter-reverse p (x ∷ xs) =
      ap (λ l. length (filter p l)) (reverse-append (x ∷ []) xs)
      ∙ ap length (filter-append p (reverse xs) (x ∷ []))
      ∙ length-append (filter p (reverse xs)) (filter p (x ∷ []))
      ∙ ground (arith, length-filter-reverse p xs)

  length-take : (n : ℕ) (xs : List A) → length (take n xs) ≡ min n (length xs)
  length-take zero xs = omega arith
  length-take (suc n) [] = omega arith
  length-take (suc n) (x ∷ xs) = omega (arith, length-take n xs)

module _ {F : Type 0} where
  abbrev pub is_failure : ℕ → CycleRow F → Bool
  is_failure project r = (r.project_id == project) && text_eq r.status (codes "failed")

  -- how many cycles of the project have failed, ever, whatever came between them
  abbrev pub failures : ℕ → World F → ℕ
  failures project w = length (filter (is_failure project) w.cycles)

  count_run :
      (project : ℕ) (w : World F)
      → w.faults ≡ []
      → Store.count_failed_recent project 10 w ≡ (ok (min 10 (failures project w)), tick w)
  unfolding Store.count_failed_recent
  count_run project w e =
      call_run _ w e
      ∙ ap (λ (n : ℕ). (ok n, tick w))
          (length-take 10 (filter (is_failure project) (reverse w.cycles))
            ∙ ap (min 10) (length-filter-reverse (is_failure project) w.cycles))

  -- Where no database call fails and the limit of failed cycles is at most 10, no cycle of a
  -- project with that many failed cycles is started, be they in a row or with completed cycles
  -- between and after them: the answer is an error, and no table changes.
  pub start_cycle_breaks :
      (o : Orchestrator) (project origin : ℕ) (w : World F)
      → w.faults ≡ []
      → o.max_failed_cycles ≤ 10
      → o.max_failed_cycles ≤ failures project w
      → start_cycle o project origin w ≡ (err circuit_breaker, tick w)
  unfolding start_cycle fail
  start_cycle_breaks o project origin w e cap many =
      >>=_ok _ _ (count_run project w e) ∙ rw (over o (failures project w) cap many) refl
    where
      over :
          (o' : Orchestrator) (n : ℕ)
          → o'.max_failed_cycles ≤ 10
          → o'.max_failed_cycles ≤ n
          → leb o'.max_failed_cycles (min 10 n) ≡ true
      over o' n c m = let le : o'.max_failed_cycles ≤ min 10 n = omega arith in ground arith

  abbrev fresh_row : ℕ → ℕ → ℕ → CycleRow F
  fresh_row project origin time = record {
    id = time;
    project_id = project;
    status = codes "detected";
    origin_task_id = origin;
    failure_reason = none;
    retry_count = 0;
    confidence_score = none;
    created_at = time;
    updated_at = time;
  }

  -- Where no database call fails, a cycle of a project with fewer failed cycles than the limit is
  -- started: it is the one new row, it is detected, and has no retry.
  pub start_cycle_starts :
      (o : Orchestrator) (project origin : ℕ) (w : World F)
      → w.faults ≡ []
      → failures project w < o.max_failed_cycles
      → (r : CycleRow F) × (w' : World F) × (start_cycle o project origin w
          ≡ (ok (to_cycle r detected), w'))
        × (w'.cycles ≡ w.cycles ++ r ∷ [])
        × (r.status ≡ display detected)
        × (r.retry_count ≡ 0)
        × (r.project_id ≡ project)
        × (r.origin_task_id ≡ origin)
  unfolding start_cycle Store.create pure
  start_cycle_starts o project origin w e few =
      let row = fresh_row project origin (w.clock + 1 + 1) in
      let w1 = record w { clock = w.clock + 1 + 1; cycles = w.cycles ++ row ∷ [] } in
      (
        row,
        published o (codes "learning.cycle.started") project empty w1,
        >>=_ok _ _ (count_run project w e)
            ∙ rw (under o (failures project w) few) (
                >>=_ok _ _ (call_run _ (tick w) e)
                ∙ >>_ok _ _ (publish_run o (codes "learning.cycle.started") project empty w1)),
        (published-cycles o (codes "learning.cycle.started") project empty w1).0,
        unfold display in refl,
        refl,
        refl,
        refl,
      )
    where
      under :
          (o' : Orchestrator) (n : ℕ)
          → n < o'.max_failed_cycles
          → leb o'.max_failed_cycles (min 10 n) ≡ false
      under o' n h = let lt : min 10 n < o'.max_failed_cycles = omega arith in ground arith
