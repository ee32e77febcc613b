-- ===== src/Tests/EngineTests.antt =====
-- The engine at concrete inputs: a backend whose first call times out and whose later ones answer.
use sovalune_core.Common.{
  ℕ, zero, suc, ◌≤◌, ◌≡◌, refl, sym, ap, true, false, none, List, [], ◌∷◌, map, returns, Result, ok,
  err, if◌then◌else◌, ◌==◌, arith,
}
use sovalune_core.Tests.Thousandths.{thousandths}
use sovalune_core.HashMap.{HashMap}
use sovalune_core.Text.{Text, codes}
use sovalune_core.Text.Ascii.{ascii_lower}
use sovalune_core.Types.{
  InferenceRequest, InferenceResult, InferenceError, TokenEvent, timeout, display,
}
use sovalune_core.Types
use sovalune_core.Retry.{Duration, RetryState, default, new, extract_retry_after}
use sovalune_core.Retry.Loop.{finished, loop}
use sovalune_core.Cache.{CacheEntry}
use sovalune_core.Cache.Key.{Hashed}
use sovalune_core.Backend.{TokenStream, ModelBackend}
use sovalune_core.Backend.Sse.{token, done}
use sovalune_core.Engine.{InferenceEngine}
use sovalune_core.Engine
use sovalune_core.Engine.Stream.{stream_loop, wrapped_stream}
use sovalune_core.Engine.Infer.{collect, infer_loop, infer, cached_result}
use sovalune_core.Engine.Loops.{attempt, answered, stream_loop-loop, infer_loop-loop}
use sovalune_core.Engine.Answers.{FirstAnswer, infer_first}
use sovalune_core.Engine.Answers.Ending.{infer_ends}
use sovalune_core.Engine.Caching.{infer-infer}
use sovalune_core.Engine.Streaming.{collect-wrapped_stream}

abbrev lower : Text → Text
lower t = map ascii_lower t

abbrev events : TokenStream
events = ok (token 7 (codes "Hi")) ∷ ok (token 7 (codes "!")) ∷ ok (done 7) ∷ ok (done 7) ∷ []

abbrev flaky : ModelBackend thousandths
flaky = record {
  stream_inference = λ n request. if n == 0 then err (timeout 120000) else ok events;
  model_name = codes "m";
  max_context_tokens = 4096;
  health_check = true;
}

abbrev engine : InferenceEngine thousandths
engine = Engine.new thousandths flaky

abbrev request : InferenceRequest thousandths
request = record {
  id = 7;
  session_id = codes "s";
  project_id = codes "p";
  context = [];
  user_input = codes "Hello";
  config = Types.default thousandths;
}

-- as `request`, with another `top_p`
abbrev narrow : InferenceRequest thousandths
narrow = record request {
  id = 8;
  config = record { max_tokens = 2048; temperature = 700; top_p = 100; stream = true };
}

abbrev state : RetryState thousandths
state = record { config = default thousandths; attempt = 0 }

abbrev same_number : ℕ → ℕ
same_number n = n

abbrev order : HashMap Text (CacheEntry Text) → ℕ
order m = 0

abbrev finish : List (Hashed ℕ) → ℕ
finish written = 77

abbrev answer : InferenceResult
answer = record {
  request_id = 7;
  content = codes "Hi!";
  tokens_used = 2;
  model = codes "m";
  duration_ms = 1;
}

stream_loop-loop_example :
    stream_loop thousandths lower true same_number engine request 4 state 0 []
    ≡ loop thousandths lower true same_number display
        (λ k. flaky.stream_inference k request)
        4
        state
        0
        []
unfolding Engine.new
stream_loop-loop_example =
    stream_loop-loop thousandths lower same_number same_number engine request true 4 state 0 []

infer_loop-loop_example :
    infer_loop thousandths lower same_number same_number engine request 4 state 0 []
    ≡ answered thousandths lower same_number same_number engine request (
        loop thousandths lower false same_number display
          (attempt thousandths lower same_number same_number engine request)
          4
          state
          0
          [])
infer_loop-loop_example =
    infer_loop-loop thousandths lower same_number same_number engine request 4 state 0 []

inferred :
    (infer thousandths lower same_number same_number engine request order finish 0 10 4).1
    ≡ finished (ok answer) 2 (1000 ∷ [])
unfolding infer sovalune_core.Cache.get sovalune_core.HashMap.lookup Engine.new
    sovalune_core.Cache.response_cache sovalune_core.Retry.has_retries_left
    sovalune_core.Retry.should_retry sovalune_core.Text.contains display ascii_lower
    sovalune_core.Text.Decimal.print_nat extract_retry_after sovalune_core.Retry.search_after
    sovalune_core.Text.find token done sovalune_core.Retry.increment
    sovalune_core.Retry.delay_for_attempt
inferred = refl

infer_first_example :
    FirstAnswer lower
      (attempt thousandths lower same_number same_number engine request)
      0
      1
      (ok (codes "Hi!", 2))
infer_first_example =
    infer_first thousandths lower same_number same_number engine request order finish 0 10 4 1
      answer (1000 ∷ []) inferred

infer-infer_example :
    infer thousandths lower same_number same_number
      (infer thousandths lower same_number same_number engine request order finish 0 10 4).0
      narrow
      order
      finish
      300000
      300000
      0
    ≡ (
      (infer thousandths lower same_number same_number engine request order finish 0 10 4).0,
      finished
          (ok (cached_result thousandths lower same_number same_number engine narrow (codes "Hi!")))
          0
          [],
    )
unfolding sovalune_core.Cache.response_cache
infer-infer_example =
    infer-infer thousandths lower same_number same_number order finish engine request narrow 0 10
      300000 4 0 1 answer (1000 ∷ [])
      (record {
        context = refl;
        user_input = refl;
        temperature = unfold Types.default in refl;
        max_tokens = unfold Types.default in refl;
      })
      (unfold Engine.new in omega arith) inferred

error_of : Result (Text × ℕ) InferenceError → InferenceError → InferenceError
error_of (ok a) e = e
error_of (err x) e = x

err_injective :
    {e : InferenceError}
    → ◌≡◌ {A = Result (Text × ℕ) InferenceError} (err (timeout 120000)) (err e)
    → e ≡ timeout 120000
unfolding error_of
err_injective {e} h = sym (ap (λ r. error_of r e) h)

timed_out :
    (n : ℕ) (e : InferenceError)
    → attempt thousandths lower same_number same_number engine request n ≡ err e
    → e ≡ timeout 120000
unfolding attempt collect token done Engine.new
timed_out zero e h = err_injective h
timed_out (suc n) e h = absurd (ground arith)

quiet_timeout : extract_retry_after lower (display (timeout 120000)) ≡ returns none
unfolding extract_retry_after sovalune_core.Retry.search_after sovalune_core.Text.find display
    ascii_lower sovalune_core.Text.Decimal.print_nat
quiet_timeout = refl

infer_ends_example :
    (r : Result InferenceResult InferenceError) × (calls : ℕ) × (delays : List Duration) × ((infer
        thousandths lower same_number same_number engine request order finish 0 10 4).1
      ≡ finished r calls delays)
    × (calls ≤ 4)
infer_ends_example =
    infer_ends thousandths lower same_number same_number engine request order finish 0 10
      (λ n e h. rw (timed_out n e h) quiet_timeout)

collect-wrapped_stream_example :
    collect (wrapped_stream (λ k. codes "m") 7 0 events) [] 0 ≡ collect events [] 0
collect-wrapped_stream_example = collect-wrapped_stream (λ k. codes "m") 7 0 events [] 0
