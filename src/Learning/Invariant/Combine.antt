-- ===== src/Learning/Invariant/Combine.antt =====
-- Chains, branches and handled errors of actions that keep the invariant keep it.
use sovalune_core.Common.{
  ℕ, ◌≡◌, refl, Bool, true, false, Option, none, some, [], if◌then◌else◌, Result,
}
use sovalune_core.Common
use sovalune_core.Text.{Text}
use sovalune_core.Learning.Monad.{Error, M, ◌>>=◌, ◌>>◌, pure, fail, handle, require}
use sovalune_core.Learning.Monad.Triple.{
  triple->>=, triple->>, triple-handle, triple-require, triple_if,
}
use sovalune_core.Learning.Orchestrator.{
  Orchestrator, answered, run_inference, search_memory, collect,
}
use sovalune_core.Learning.Invariant.{IsValid, Safe}

module _ {F : Type 0} (max : ℕ) where
  pub pure-Safe : {A : Type 0} (a : A) → Safe {F = F} max (pure a)
  unfolding pure
  pure-Safe a w v = v

  pub fail-Safe : (A : Type 0) (x : Error) → Safe {F = F} max (fail {A = A} x)
  unfolding fail
  fail-Safe A x w v = v

  pub require-Safe : {A : Type 0} (x : Error) (a : Option A) → Safe {F = F} max (require x a)
  require-Safe x a =
      triple-require (IsValid max) (IsValid max) (λ _. IsValid max) x a (λ w v. v) (λ a' w e v. v)

  pub bind-Safe :
      {A B : Type 0} (m : M F A) (f : A → M F B)
      → Safe max m
      → ((a : A) → Safe max (f a))
      → Safe max (m >>= f)
  bind-Safe m f = triple->>= (IsValid max) (IsValid max) (λ _. IsValid max) (λ _. IsValid max) m f

  pub then-Safe :
      {A B : Type 0} (m : M F A) (n : M F B) → Safe max m → Safe max n → Safe max (m >> n)
  then-Safe m n = triple->> (IsValid max) (IsValid max) (IsValid max) (λ _. IsValid max) m n

  pub handle-Safe :
      {A B : Type 0} (m : M F A) (f : A → M F B) (g : Error → M F B)
      → Safe max m
      → ((a : A) → Safe max (f a))
      → ((e : Error) → Safe max (g e))
      → Safe max (handle m f g)
  handle-Safe m f g =
      triple-handle (IsValid max) (IsValid max) (λ _. IsValid max) (λ _. IsValid max) m f g

  pub if-Safe :
      {A : Type 0} (b : Bool) (m n : M F A)
      → Safe max m
      → Safe max n
      → Safe max (if b then m else n)
  if-Safe b m n h k =
      triple_if (IsValid max) (IsValid max) (λ _. IsValid max) b m n (λ _. h) (λ _. k)

  answered-Safe :
      {A : Type 0} (on_error : Text → Error) (r : Result A Text)
      → Safe {F = F} max (answered on_error r)
  unfolding answered
  answered-Safe on_error (Common.ok a) = pure-Safe a
  answered-Safe on_error (Common.err e) = fail-Safe _ (on_error e)

  pub run_inference-Safe :
      (o : Orchestrator) (prompt : Text) → Safe {F = F} max (run_inference o prompt)
  unfolding run_inference
  run_inference-Safe o prompt = bind-Safe _ _ (require-Safe _ o.inference_engine) (λ engine.
      bind-Safe _ _ (λ w v. answered-Safe _ (engine w.clock prompt) w v)
        (λ stream. answered-Safe _ (collect stream [])))

  pub search_memory-Safe :
      (o : Orchestrator) (query : Text) (top_k : ℕ) → Safe {F = F} max (search_memory o query top_k)
  unfolding search_memory
  search_memory-Safe o query top_k =
      bind-Safe _ _ (require-Safe _ o.vector_memory)
        (λ store w v. answered-Safe _ (store.search w.clock query top_k) w v)
