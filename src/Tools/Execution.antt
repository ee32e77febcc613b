-- ===== src/Tools/Execution.antt =====
-- crates/sovalune-model-runtime/src/tools.rs: the calls that wait, and their results.
use sovalune_core.Common.{
  ℕ, ◌≡◌, ◌⊎◌, inl, inr, refl, ap, false, Option, some, List, [], ◌∷◌, ◌++◌, Outcome, returns,
  panics, ok, err, Outcome-cases,
}
use mathlib.Core.List.{append_assoc, append-nil}
use mathlib.Core.Path.{subst}
use sovalune_core.Text.{Text}
use sovalune_core.Tools.{
  ToolError, ToolCall, ToolResult, ToolRegistry, ToolCallManager, enqueue, pop, next_call, execute,
  result_of, failed_result, execute_loop, execute_all,
}

module _ {Json : Type 0} where
  pop-append :
      (calls : List (ToolCall Json)) (call : ToolCall Json)
      → pop (calls ++ call ∷ []) ≡ (some call, calls)
  unfolding pop
  pop-append [] call = refl
  pop-append (c ∷ []) call = refl
  pop-append (c ∷ d ∷ calls) call =
      ap (λ (r : Option (ToolCall Json) × List (ToolCall Json)). (r.0, c ∷ r.1))
        (pop-append (d ∷ calls) call)

  -- The call that was added last is taken first, and taking it leaves the manager as it was before.
  pub next_call-enqueue :
      (call : ToolCall Json) (m : ToolCallManager Json)
      → next_call (enqueue call m) ≡ (m, some call)
  unfolding next_call enqueue
  next_call-enqueue call m =
      ap
        (λ (r : Option (ToolCall Json) × List (ToolCall Json)).
          (record m { pending_calls = r.1 }, r.0))
        (pop-append m.pending_calls call)

  module _ (elapsed : ToolCall Json → ℕ) (error_json : Text → Json) (tools : ToolRegistry Json)
      (caller : Text) where
    -- the result of a call: what the tool returned, or a failure under the id and name of the call
    abbrev pub Answers : ToolCall Json → ToolResult Json → Type 0
    Answers c r =
        (execute elapsed error_json tools c caller ≡ returns (ok r))
        ⊎ ((e : ToolError) × (execute elapsed error_json tools c caller ≡ returns (err e))
            × (r.call_id ≡ c.id)
            × (r.tool_name ≡ c.name)
            × (r.success ≡ false))

    -- the results stand for the calls one by one
    abbrev pub AnswersAll : List (ToolCall Json) → List (ToolResult Json) → Type 0
    AnswersAll [] [] = Unit
    AnswersAll [] (r ∷ rs) = ⊥
    AnswersAll (c ∷ cs) [] = ⊥
    AnswersAll (c ∷ cs) (r ∷ rs) = Answers c r × AnswersAll cs rs

    -- one of the calls panics
    abbrev pub Panics : List (ToolCall Json) → Type 0
    Panics [] = ⊥
    Panics (c ∷ cs) = (execute elapsed error_json tools c caller ≡ panics) ⊎ Panics cs

    -- what may come of the calls
    abbrev pub Replies : List (ToolCall Json) → Outcome (List (ToolResult Json)) → Type 0
    Replies cs panics = Panics cs
    Replies cs (returns rs) = AnswersAll cs rs

    result_of-Answers :
        (c : ToolCall Json)
        → ((execute elapsed error_json tools c caller ≡ panics)
            × (result_of elapsed error_json tools caller c ≡ panics))
          ⊎ ((r : ToolResult Json) × (result_of elapsed error_json tools caller c ≡ returns r)
              × Answers c r)
    unfolding result_of failed_result
    result_of-Answers c = elim (Outcome-cases (execute elapsed error_json tools c caller)) [
      | inl e ↦ inl (e, rw (e, result_of) refl)
      | inr (ok r, e) ↦ inr (r, rw (e, result_of) refl, inl e)
      | inr (err x, e) ↦ inr (
        failed_result elapsed error_json c x,
        rw (e, result_of) refl,
        inr (x, e, refl, refl, refl),
      )
    ]

    AnswersAll-snoc :
        (ds : List (ToolCall Json)) (rs : List (ToolResult Json)) (c : ToolCall Json)
        (r : ToolResult Json)
        → AnswersAll ds rs
        → Answers c r
        → AnswersAll (ds ++ c ∷ []) (rs ++ r ∷ [])
    AnswersAll-snoc [] [] c r h k = (k, tt)
    AnswersAll-snoc [] (r' ∷ rs) c r h k = absurd h
    AnswersAll-snoc (d ∷ ds) [] c r h k = absurd h
    AnswersAll-snoc (d ∷ ds) (r' ∷ rs) c r h k = (h.0, AnswersAll-snoc ds rs c r h.1 k)

    Panics-later : (ds cs : List (ToolCall Json)) → Panics cs → Panics (ds ++ cs)
    Panics-later [] cs h = h
    Panics-later (d ∷ ds) cs h = inr (Panics-later ds cs h)

    execute_loop-Replies :
        (ds cs : List (ToolCall Json)) (rs : List (ToolResult Json))
        → AnswersAll ds rs
        → Replies (ds ++ cs) (execute_loop elapsed error_json tools caller cs rs)
    unfolding execute_loop
    execute_loop-Replies ds [] rs h = rw (append-nil ds) h
    execute_loop-Replies ds (c ∷ cs) rs h = elim (result_of-Answers c) [
      | inl (e, p) ↦ rw (p, execute_loop) (Panics-later ds (c ∷ cs) (inl e))
      | inr (r, p, a) ↦
          rw (p, execute_loop)
            (subst (λ l. Replies l (execute_loop elapsed error_json tools caller cs (rs ++ r ∷ [])))
              (append_assoc ds (c ∷ []) cs)
              (execute_loop-Replies (ds ++ c ∷ []) cs (rs ++ r ∷ [])
                (AnswersAll-snoc ds rs c r h a)))
    ]

  -- `execute_all` answers every call that waits, one by one in their order: with the result of the
  -- tool, or, where there is no such tool, the permission is denied or the tool fails, with a failure
  -- under the id and the name of the call. It panics only where one of the calls does.
  pub execute_all-AnswersAll :
      (elapsed : ToolCall Json → ℕ) (error_json : Text → Json) (caller : Text)
      (m : ToolCallManager Json)
      → Replies elapsed error_json m.registry caller m.pending_calls
          (execute_all elapsed error_json caller m)
  unfolding execute_all
  execute_all-AnswersAll elapsed error_json caller m =
      execute_loop-Replies elapsed error_json m.registry caller [] m.pending_calls [] tt
