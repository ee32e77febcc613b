-- ===== src/Engine/Answers.antt =====
-- crates/sovalune-model-runtime/src/engine.rs: what `infer` promises of its answer, beside its loop.
use sovalune_core.Common.{
  ℕ, zero, suc, ◌+◌, ◌-◌, ◌^◌, ◌≤◌, ◌<◌, ◌≡◌, refl, sym, ap, ◌∙◌, Bool, true, false, not, ◌||◌,
  none, some, List, [], ◌∷◌, ◌++◌, returns, Result, ok, err, Bool-cases, Option-cases,
  Outcome-cases, Result-cases, inl, inr, arith,
}
use native.Mathlib.Decide.{dec_lt}
use sovalune_core.Float.{Float}
use sovalune_core.HashMap.{HashMap}
use sovalune_core.Text.{Text}
use sovalune_core.Text.Equality.{text_discrete}
use sovalune_core.Types.{InferenceRequest, InferenceResult, InferenceError, display}
use sovalune_core.Retry.{
  Duration, should_retry, extract_retry_after, RetryState, new, default, has_retries_left,
}
use sovalune_core.Retry.Loop.{Run, finished, panicked, out_of_fuel, wait, loop, logged_prefix}
use sovalune_core.Retry.Loop.Budget.{loop_ends_logged}
use sovalune_core.Cache.{CacheEntry, get}
use sovalune_core.Cache.Key.{Hashed}
use sovalune_core.Engine.{InferenceEngine}
use sovalune_core.Engine.Infer.{
  infer_loop, store_answer, cache_key, infer, result_of, cached_result,
}
use sovalune_core.Engine.Loops.{attempt, answered, infer_loop-loop}
pub mod Ending

-- The promise: the answer at position `m` of a row of attempts, where every attempt from `n` up to it
-- failed with an error that is retried.
pub record FirstAnswer {A : Type 0} (lower : Text → Text) (operation : ℕ → Result A InferenceError)
    (n m : ℕ) (r : Result A InferenceError) : Type 0 where
  pub from : n ≤ m
  pub answer : operation m ≡ r
  pub earlier :
      (k : ℕ)
      → n ≤ k
      → k < m
      → (e : InferenceError) × (operation k ≡ err e) × (should_retry lower (display e) ≡ true)

retried_of : (a b : Bool) → (not a || not b) ≡ false → b ≡ true
retried_of a b h = ground arith

module _ (fl : Float) (lower : Text → Text) (logs : Bool) (bits : ℕ → ℕ) {A : Type 0}
    (operation : ℕ → Result A InferenceError) where
  position : (n k : ℕ) → n ≤ k → ¬ (n < k) → n ≡ k
  position n k le same = omega arith

  first_later :
      (n m : ℕ) (r : Result A InferenceError) (x : InferenceError)
      → operation n ≡ err x
      → should_retry lower (display x) ≡ true
      → FirstAnswer lower operation (suc n) m r
      → FirstAnswer lower operation n m r
  first_later n m r x e retried h = record {
    from = omega (arith, h.from);
    answer = h.answer;
    earlier = λ k le lt. elim (dec_lt n k) [
      | yes later ↦ h.earlier k later lt
      | no same ↦ (x, rw (← position n k le same) e, retried)
    ];
  }

  pub loop_first :
      (f : ℕ) (s : RetryState fl) (n : ℕ) (slept : List Duration) (r : Result A InferenceError)
      (calls : ℕ) (delays : List Duration)
      → loop fl lower logs bits display operation f s n slept ≡ finished r calls delays
      → (m : ℕ) × (calls ≡ suc m) × FirstAnswer lower operation n m r
  unfolding loop
  loop_first zero s n slept r calls delays h = cc
  loop_first (suc f) s n slept r calls delays h = elim (Result-cases (operation n)) [
    | inl (a, e) ↦ (
      n,
      ground arith,
      record {
        from = omega arith;
        answer = ground arith;
        earlier = λ k le lt. absurd (omega arith);
      },
    )
    | inr (x, e) ↦
        elim (Bool-cases (not (has_retries_left fl s) || not (should_retry lower (display x)))) [
          | inl stop ↦ (
            n,
            ground arith,
            record {
              from = omega arith;
              answer = ground arith;
              earlier = λ k le lt. absurd (omega arith);
            },
          )
          | inr more ↦
              elim (Outcome-cases (wait fl lower logs bits display operation s n (display x))) [
                | inl fault ↦ absurd (ground arith)
                | inr ((s', delay), again) ↦
                    let (m, c, first) =
                      loop_first f s' (suc n) (slept ++ delay ∷ []) r calls delays (ground arith) in
                    (m, c, first_later n m r x e (retried_of _ _ more) first)
              ]
        ]
  ]

suc_injective : (m n : ℕ) → suc m ≡ suc n → n ≡ m
suc_injective m n h = omega arith

module _ (fl : Float) (lower : Text → Text) (bits elapsed : ℕ → ℕ) (engine : InferenceEngine fl)
    (request : InferenceRequest fl) where
  open fl use {F}

  answered_ok :
      (run : Run (Text × ℕ) InferenceError) (result : InferenceResult) (m : ℕ)
      (delays : List Duration)
      → answered fl lower bits elapsed engine request run ≡ finished (ok result) (suc m) delays
      → run ≡ finished (ok (result.content, result.tokens_used)) (suc m) delays
  unfolding answered result_of
  answered_ok (finished (ok (content, tokens)) calls delays') result m delays h = ground arith
  answered_ok (finished (err e) calls delays') result m delays h = absurd (ground arith)
  answered_ok (panicked calls) result m delays h = absurd (ground arith)
  answered_ok out_of_fuel result m delays h = absurd (ground arith)

  module _ (order : HashMap Text (CacheEntry Text) → ℕ) (finish : List (Hashed F) → ℕ)
      (now later : ℕ) where
    pub store_answer_run :
        (key : Text) (run : Run InferenceResult InferenceError)
        → (store_answer fl lower bits elapsed engine request order later key run).1 ≡ run
    unfolding store_answer
    store_answer_run key (finished (ok result) calls delays) = refl
    store_answer_run key (finished (err e) calls delays) = refl
    store_answer_run key (panicked calls) = refl
    store_answer_run key out_of_fuel = refl

    -- on a miss, the answer of `infer` is that of its loop
    pub infer_missed :
        (f : ℕ)
        → get text_discrete now
            (cache_key fl lower bits elapsed engine request finish)
            engine.response_cache
          ≡ none
        → infer fl lower bits elapsed engine request order finish now later f
          ≡ store_answer fl lower bits elapsed engine request order later
              (cache_key fl lower bits elapsed engine request finish)
              (infer_loop fl lower bits elapsed engine request f (new fl (default fl)) 0 [])
    unfolding infer
    infer_missed f h = rw (h, infer) refl

    -- on a hit it is the cached text, with no call of the backend
    pub infer_hit :
        (f : ℕ) (cached : Text)
        → get text_discrete now
            (cache_key fl lower bits elapsed engine request finish)
            engine.response_cache
          ≡ some cached
        → infer fl lower bits elapsed engine request order finish now later f
          ≡ (engine, finished (ok (cached_result fl lower bits elapsed engine request cached)) 0 [])
    unfolding infer
    infer_hit f cached h = rw (h, infer) refl

    called_hit :
        (f m : ℕ) (r : Result InferenceResult InferenceError) (delays : List Duration)
        (cached : Text)
        → get text_discrete now
            (cache_key fl lower bits elapsed engine request finish)
            engine.response_cache
          ≡ some cached
        → (infer fl lower bits elapsed engine request order finish now later f).1
          ≡ finished r (suc m) delays
        → ⊥
    called_hit f m r delays cached hit h = ground (arith, infer_hit f cached hit)

    pub infer_called :
        (f m : ℕ) (r : Result InferenceResult InferenceError) (delays : List Duration)
        → (infer fl lower bits elapsed engine request order finish now later f).1
          ≡ finished r (suc m) delays
        → (infer_loop fl lower bits elapsed engine request f (new fl (default fl)) 0 []
            ≡ finished r (suc m) delays)
          × (infer fl lower bits elapsed engine request order finish now later f
              ≡ store_answer fl lower bits elapsed engine request order later
                  (cache_key fl lower bits elapsed engine request finish)
                  (finished r (suc m) delays))
    infer_called f m r delays h =
        let key = cache_key fl lower bits elapsed engine request finish in
        elim (Option-cases (get text_discrete now key engine.response_cache)) [
          | inr (cached, hit) ↦ absurd (called_hit f m r delays cached hit h)
          | inl missed ↦
              let run =
                infer_loop fl lower bits elapsed engine request f (new fl (default fl)) 0 [] in
              let e = infer_missed f missed in
              let same : run ≡ finished r (suc m) delays =
                sym (store_answer_run key run) ∙ sym (ap (λ p. p.1) e) ∙ h in
              (
                same,
                e ∙ ap (store_answer fl lower bits elapsed engine request order later key) same,
              )
        ]

    -- An answer of `infer` that the backend gave is that of the first attempt to succeed: its content
    -- and its number of tokens are those of the last attempt, and every attempt before it failed with
    -- an error that is retried.
    pub infer_first :
        (f m : ℕ) (result : InferenceResult) (delays : List Duration)
        → (infer fl lower bits elapsed engine request order finish now later f).1
          ≡ finished (ok result) (suc m) delays
        → FirstAnswer lower
            (attempt fl lower bits elapsed engine request)
            0
            m
            (ok (result.content, result.tokens_used))
    infer_first f m result delays h =
        let s = new fl (default fl) in
        let operation = attempt fl lower bits elapsed engine request in
        let (ran, _) = infer_called f m (ok result) delays h in
        let inner =
          answered_ok (loop fl lower false bits display operation f s 0 []) result m delays
            (sym (infer_loop-loop fl lower bits elapsed engine request f s 0 []) ∙ ran) in
        let (m', c, first) =
          loop_first fl lower false bits operation f s 0 [] _ (suc m) delays inner in
        rw (← suc_injective m m' c) first
