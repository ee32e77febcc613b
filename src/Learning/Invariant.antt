-- ===== src/Learning/Invariant.antt =====
-- The invariant of the table of cycles, and that each method of the repository keeps it, whatever
-- database calls fail.
pub mod Combine
pub mod Operations
use sovalune_core.Common.{
  ℕ, suc, ◌+◌, ◌^◌, ◌≤◌, ◌<◌, ◌≡◌, ◌≢◌, refl, sym, ap, Bool, true, false, Option, none, some, List,
  [], ◌∷◌, ◌++◌, All, All-append, ltb, ◌==◌, if◌then◌else◌, Bool-cases, Option-cases, inl, inr,
  arith,
}
use sovalune_core.Text.{Text, codes}
use sovalune_core.Learning.Status.{LearningCycleStatus, detected, display}
use sovalune_core.Learning.Monad.{
  CycleRow, Evidence, TestResult, Detail, World, Error, database, Answer, ok, err, M, call,
}
use sovalune_core.Learning.Monad.Triple.{Triple, Ends, triple-call, Ends-if}
use sovalune_core.Learning.Store
use sovalune_core.Learning.Store.{find_row, update_row}
use sovalune_core.Learning.Store.Rows.{
  update_row-All, update_row-All_found, found-All, update_row-Unique, Unique, append-Unique,
}

module _ {F : Type 0} where
  All-weaken :
      (P Q : CycleRow F → Type 0) (rs : List (CycleRow F))
      → ((r : CycleRow F) → P r → Q r)
      → All P rs
      → All Q rs
  All-weaken P Q [] k h = tt
  All-weaken P Q (r ∷ rs) k h = (k r h.0, All-weaken P Q rs k h.1)

  module _ (max : ℕ) where
    -- the status is one that parses, and the retries are within the limit
    abbrev pub RowOk : CycleRow F → Type 0
    RowOk r = ((s : LearningCycleStatus) × (r.status ≡ display s)) × (r.retry_count ≤ max)

    pub record IsValid (w : World F) : Type 0 where
      pub rows : All RowOk w.cycles
      pub past : All (λ r. r.id ≤ w.clock) w.cycles
      pub unique : Unique w.cycles

    -- an action that keeps the invariant, however it ends
    abbrev pub Safe : {A : Type 0} → M F A → Type 0
    Safe m = Triple IsValid m (λ _. IsValid) IsValid

    pub later-IsValid :
        (w : World F) (fs : List Bool)
        → IsValid w
        → IsValid (record w { clock = w.clock + 1; faults = fs })
    later-IsValid w fs v = record {
      rows = v.rows;
      past =
          All-weaken (λ r. r.id ≤ w.clock) (λ r. r.id ≤ w.clock + 1) w.cycles (λ r le. omega arith)
            v.past;
      unique = v.unique;
    }

    update-IsValid :
        (id : ℕ) (f : CycleRow F → CycleRow F) (w : World F)
        → ((r : CycleRow F) → (f r).id ≡ r.id)
        → ((r : CycleRow F) → RowOk r → RowOk (f r))
        → IsValid w
        → IsValid (record w { cycles = update_row id f w.cycles })
    update-IsValid id f w same keep v = record {
      rows = update_row-All RowOk id f w.cycles keep v.rows;
      past = update_row-All (λ r. r.id ≤ w.clock) id f w.cycles (λ r le. rw (same r) le) v.past;
      unique = update_row-Unique id f w.cycles same v.unique;
    }

    Safe-call :
        {A : Type 0} (act : World F → Answer A × World F)
        → Triple IsValid act (λ _. IsValid) IsValid
        → Safe (call act)
    Safe-call act h =
        triple-call IsValid IsValid IsValid (λ _. IsValid) act later-IsValid (λ w v. v) h

    pub update_status-Safe :
        (id : ℕ) (t : Text) (s : LearningCycleStatus) (why : Option Text)
        → t ≡ display s
        → Safe (Store.update_status id t why)
    unfolding Store.update_status
    update_status-Safe id t s why e = Safe-call _ (λ w v.
        update-IsValid id (λ r. record r { status = t; failure_reason = why; updated_at = w.clock })
          w (λ r. refl) (λ r h. ((s, e), h.1)) v)

    pub update_confidence-Safe : (id : ℕ) (c : F) → Safe (Store.update_confidence id c)
    unfolding Store.update_confidence
    update_confidence-Safe id c = Safe-call _ (λ w v.
        update-IsValid id (λ r. record r { confidence_score = some c; updated_at = w.clock }) w
          (λ r. refl) (λ r h. h) v)

    -- a row that is found is still found while no method changes it
    abbrev pub Holds : ℕ → CycleRow F → World F → Type 0
    Holds id r w = IsValid w × (find_row id w.cycles ≡ some r)

    pub get-Safe :
        (id : ℕ)
        → Triple IsValid (Store.get id) (λ o w. IsValid w × (find_row id w.cycles ≡ o)) IsValid
    unfolding Store.get
    get-Safe id =
        triple-call IsValid IsValid IsValid (λ o w. IsValid w × (find_row id w.cycles ≡ o)) _
          later-IsValid (λ w v. v) (λ w v. (v, refl))

    raised-IsValid :
        (id : ℕ) (r : CycleRow F) (w : World F)
        → r.retry_count < max
        → Holds id r w
        → IsValid (record w {
          cycles =
              update_row id
                (λ t. record t { retry_count = t.retry_count + 1; updated_at = w.clock })
                w.cycles;
        })
    raised-IsValid id r w left (v, found) =
        let raise : CycleRow F → CycleRow F =
          λ t. record t { retry_count = t.retry_count + 1; updated_at = w.clock } in
        record {
          rows =
              update_row-All_found RowOk id raise w.cycles r v.unique found
                ((found-All RowOk id w.cycles r v.rows found).0, omega arith) v.rows;
          past = update_row-All (λ t. t.id ≤ w.clock) id raise w.cycles (λ t le. le) v.past;
          unique = update_row-Unique id raise w.cycles (λ t. refl) v.unique;
        }

    raise_retry-Ends :
        (id : ℕ) (r : CycleRow F) (w : World F)
        → r.retry_count < max
        → Holds id r w
        → Ends
            (λ _. IsValid)
            IsValid
            (Store.raise_retry id (some r) w).0
            (Store.raise_retry id (some r) w).1
    unfolding Store.raise_retry
    raise_retry-Ends id r w left h = elim (Bool-cases (ltb (r.retry_count + 1) (2 ^ 31))) [
      | inl small ↦ rw small (raised-IsValid id r w left h)
      | inr large ↦ rw large h.0
    ]

    -- the counter is raised on the row that was found, which has a retry left
    pub increment_retry-Safe :
        (id : ℕ) (r : CycleRow F)
        → r.retry_count < max
        → Triple (Holds id r) (Store.increment_retry id) (λ _. IsValid) IsValid
    unfolding Store.increment_retry
    increment_retry-Safe id r left =
        triple-call IsValid (Holds id r) (Holds id r) (λ _. IsValid) _
          (λ w fs h. (later-IsValid w fs h.0, h.1)) (λ w h. h.0)
          (λ w h. rw h.1 (raise_retry-Ends id r w left h))

    -- the new row is the newest, and starts without a retry
    pub create-Safe : (project origin : ℕ) → Safe (Store.create project origin)
    unfolding Store.create
    create-Safe project origin =
        triple-call IsValid IsValid (λ w. All (λ r. r.id < w.clock) w.cycles × IsValid w)
          (λ _. IsValid) _
          (λ w fs v. (
            All-weaken (λ r. r.id ≤ w.clock) (λ r. r.id < w.clock + 1) w.cycles
                (λ r le. omega arith) v.past,
            later-IsValid w fs v,
          ))
          (λ w h. h.1)
          (λ w h. record {
            rows =
                All-append RowOk w.cycles _ h.1.rows
                  (((detected, unfold display in refl), omega arith), tt);
            past = All-append (λ r. r.id ≤ w.clock) w.cycles _ h.1.past (omega arith, tt);
            unique = append-Unique w.cycles _ h.0 h.1.unique;
          })

    -- the methods that leave the table of cycles alone
    pub count_failed_recent-Safe :
        (project limit : ℕ) → Safe (Store.count_failed_recent project limit)
    unfolding Store.count_failed_recent
    count_failed_recent-Safe project limit = Safe-call _ (λ w v. v)

    pub list-Safe :
        (project : Option ℕ) (status : Option Text) (limit offset : ℕ)
        → Safe (Store.list project status limit offset)
    unfolding Store.list
    list-Safe project status limit offset = Safe-call _ (λ w v. v)

    pub get_evidence-Safe : (id : ℕ) → Safe (Store.get_evidence id)
    unfolding Store.get_evidence
    get_evidence-Safe id = Safe-call _ (λ w v. v)

    pub get_test_results-Safe : (id : ℕ) → Safe (Store.get_test_results id)
    unfolding Store.get_test_results
    get_test_results-Safe id = Safe-call _ (λ w v. v)

    pub add_evidence-Safe :
        (id : ℕ) (source : Text) (url : Option Text) (excerpt : Text) (tier : ℕ)
        → Safe (Store.add_evidence id source url excerpt tier)
    unfolding Store.add_evidence
    add_evidence-Safe id source url excerpt tier = Safe-call _ (λ w v.
        Ends-if IsValid (λ _. IsValid) (Store.refers id w) _ _
          (record { rows = v.rows; past = v.past; unique = v.unique }) v)

    pub add_test_result-Safe :
        (id : ℕ) (stage : Text) (passed : Bool) (detail : Detail F)
        → Safe (Store.add_test_result id stage passed detail)
    unfolding Store.add_test_result
    add_test_result-Safe id stage passed detail = Safe-call _ (λ w v.
        Ends-if IsValid (λ _. IsValid) (Store.refers id w) _ _
          (record { rows = v.rows; past = v.past; unique = v.unique }) v)
