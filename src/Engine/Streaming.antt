-- ===== src/Engine/Streaming.antt =====
-- crates/sovalune-model-runtime/src/engine.rs: the stream that `stream_infer` hands out, beside the one
-- that the backend gave.
use sovalune_core.Common.{
  ℕ, ◌+◌, ◌%◌, ◌^◌, ◌≡◌, refl, [], ◌∷◌, ◌++◌, ok, err, Bool-cases, inl, inr, arith,
}
use sovalune_core.Text.{Text}
use sovalune_core.Backend.{TokenStream}
use sovalune_core.Engine.Stream.{wrapped_stream}
use sovalune_core.Engine.Infer.{collect}

-- Reading the stream of `stream_infer` up to its end, as `infer` reads the backend's, gives the same
-- content, number of tokens or error as reading the backend's.
pub collect-wrapped_stream :
    (fresh : ℕ → Text) (id k : ℕ) (events : TokenStream) (content : Text) (tokens_used : ℕ)
    → collect (wrapped_stream fresh id k events) content tokens_used
      ≡ collect events content tokens_used
unfolding collect wrapped_stream
collect-wrapped_stream fresh id k [] content tokens_used = refl
collect-wrapped_stream fresh id k (err e ∷ events) content tokens_used = refl
collect-wrapped_stream fresh id k (ok token ∷ events) content tokens_used =
    elim (Bool-cases token.finished) [
      | inl h ↦ ground arith
      | inr h ↦ ground (
        arith,
        collect-wrapped_stream fresh id k events (content ++ token.delta)
            ((tokens_used + 1) % 2 ^ 32),
      )
    ]
