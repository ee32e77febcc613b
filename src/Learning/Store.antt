-- ===== src/Learning/Store.antt =====
-- crates/sovalune-storage-client/src/repositories/learning_cycle.rs: `LearningCycleRepository`, each
-- method by what its query does to the tables of crates/sovalune-storage-schema/migrations.
-- A call that the database refuses for another reason, such as a project that does not exist or a
-- text that it does not take for a status, is one of the faults of the world. Limits and offsets are
-- not negative. A row's key is its `id`; an `UPDATE` of a missing key changes
-- nothing and succeeds.
pub mod Rows
use sovalune_core.Common.{
  ℕ, zero, suc, ◌+◌, ◌^◌, Bool, true, false, ◌&&◌, ◌||◌, Option, none, some, List, [], ◌∷◌, ◌++◌,
  map, length, take, drop, filter, leb, ltb, ◌==◌, if◌then◌else◌,
}
use mathlib.Core.List.{reverse}
use sovalune_core.Text.{Text, codes, text_eq}
use sovalune_core.Learning.Monad.{
  CycleRow, Evidence, TestResult, Detail, World, Error, database, Answer, ok, err, M, call,
}

-- a condition that is left out if no value is given
abbrev pub given : {A : Type 0} → (A → Bool) → Option A → Bool
given test none = true
given test (some a) = test a

module _ {F : Type 0} where
  -- the row with a key
  unfoldable pub find_row : ℕ → List (CycleRow F) → Option (CycleRow F)
  find_row id [] = none
  find_row id (r ∷ rs) = let rest = find_row id rs in if r.id == id then some r else rest

  -- `UPDATE .. WHERE id = ..`
  unfoldable pub update_row : ℕ → (CycleRow F → CycleRow F) → List (CycleRow F) → List (CycleRow F)
  update_row id f [] = []
  update_row id f (r ∷ rs) = let rest = update_row id f rs in (if r.id == id then f r else r) ∷ rest

  unfoldable pub create : ℕ → ℕ → M F (CycleRow F)
  create project_id origin_task_id = call λ w.
      let row : CycleRow F = record {
        id = w.clock;
        project_id = project_id;
        status = codes "detected";
        origin_task_id = origin_task_id;
        failure_reason = none;
        retry_count = 0;
        confidence_score = none;
        created_at = w.clock;
        updated_at = w.clock;
      } in
      (ok row, record w { cycles = w.cycles ++ row ∷ [] })

  unfoldable pub get : ℕ → M F (Option (CycleRow F))
  get id = call λ w. (ok (find_row id w.cycles), w)

  unfoldable pub update_status : ℕ → Text → Option Text → M F (Unit {0})
  update_status id status failure_reason = call λ w. (
    ok tt,
    record w {
      cycles =
          update_row id
            (λ r. record r {
              status = status;
              failure_reason = failure_reason;
              updated_at = w.clock;
            })
            w.cycles;
    },
  )

  -- an `INT` past 2^31 - 1 is an error of the database
  unfoldable pub raise_retry : ℕ → Option (CycleRow F) → World F → Answer (Unit {0}) × World F
  raise_retry id none w = (ok tt, w)
  raise_retry id (some row) w =
      if ltb (row.retry_count + 1) (2 ^ 31)
      then (
        ok tt,
        record w {
          cycles =
              update_row id
                (λ r. record r { retry_count = r.retry_count + 1; updated_at = w.clock }) w.cycles;
        },
      )
      else (err database, w)

  unfoldable pub increment_retry : ℕ → M F (Unit {0})
  increment_retry id = call λ w. raise_retry id (find_row id w.cycles) w

  unfoldable pub update_confidence : ℕ → F → M F (Unit {0})
  update_confidence id confidence_score = call λ w. (
    ok tt,
    record w {
      cycles =
          update_row id
            (λ r. record r { confidence_score = some confidence_score; updated_at = w.clock })
            w.cycles;
    },
  )

  -- the newest rows stand at the end of the table
  unfoldable pub list : Option ℕ → Option Text → ℕ → ℕ → M F (List (CycleRow F))
  list project_id status limit offset = call λ w. (
    ok (
        take limit (
          drop offset (
            filter
              (λ r.
                given (λ p. r.project_id == p) project_id && given (λ s. text_eq r.status s) status)
              (reverse w.cycles)))),
    w,
  )

  -- a row of another table that refers to a missing cycle is refused
  unfoldable pub refers : ℕ → World F → Bool
  refers id w = elim (find_row id w.cycles) [ none ↦ false | some _ ↦ true ]

  unfoldable pub add_evidence : ℕ → Text → Option Text → Text → ℕ → M F Evidence
  add_evidence cycle_id source_type source_url excerpt trust_tier = call λ w.
      let row : Evidence = record {
        id = w.clock;
        cycle_id = cycle_id;
        source_type = source_type;
        source_url = source_url;
        excerpt = excerpt;
        trust_tier = trust_tier;
        created_at = w.clock;
      } in
      if refers cycle_id w
      then (ok row, record w { evidence = w.evidence ++ row ∷ [] })
      else (err database, w)

  unfoldable pub add_test_result : ℕ → Text → Bool → Detail F → M F (TestResult F)
  add_test_result cycle_id stage passed detail = call λ w.
      let row : TestResult F = record {
        id = w.clock;
        cycle_id = cycle_id;
        stage = stage;
        passed = passed;
        detail = detail;
        created_at = w.clock;
      } in
      if refers cycle_id w
      then (ok row, record w { test_results = w.test_results ++ row ∷ [] })
      else (err database, w)

  unfoldable pub get_test_results : ℕ → M F (List (TestResult F))
  get_test_results cycle_id =
      call λ w. (ok (filter (λ t. t.cycle_id == cycle_id) w.test_results), w)

  -- the failed cycles of a project, at most `limit` of them
  unfoldable pub count_failed_recent : ℕ → ℕ → M F ℕ
  count_failed_recent project_id limit = call λ w. (
    ok (
        length (
          take limit (
            filter (λ r. (r.project_id == project_id) && text_eq r.status (codes "failed"))
              (reverse w.cycles)))),
    w,
  )

-- `ORDER BY trust_tier DESC`; rows of one tier keep their order
unfoldable pub insert_by_trust : Evidence → List Evidence → List Evidence
insert_by_trust e [] = e ∷ []
insert_by_trust e (d ∷ ds) =
    let rest = insert_by_trust e ds in
    if leb d.trust_tier e.trust_tier then e ∷ d ∷ ds else d ∷ rest

unfoldable pub order_by_trust : List Evidence → List Evidence
order_by_trust [] = []
order_by_trust (e ∷ es) = insert_by_trust e (order_by_trust es)

unfoldable pub get_evidence : {F : Type 0} → ℕ → M F (List Evidence)
get_evidence cycle_id =
    call λ w. (ok (order_by_trust (filter (λ e. e.cycle_id == cycle_id) w.evidence)), w)
