-- ===== src/Tokens/Limits.antt =====
-- crates/sovalune-model-runtime/src/tokenizer.rs: the tables of `ContextLimits`.
use sovalune_core.Common.{ℕ, ◌≤◌, List, [], ◌∷◌, All, arith}
use sovalune_core.Text.{Text}
use sovalune_core.Tokens.{
  first_arm, max_tokens, max_output_tokens, max_tokens_arms, max_output_tokens_arms,
}

first_arm_bounds :
    (lo hi : ℕ) (model : Text) (arms : List (Text × ℕ)) (otherwise : ℕ)
    → (lo ≤ otherwise) × (otherwise ≤ hi)
    → All (λ arm. (lo ≤ arm.1) × (arm.1 ≤ hi)) arms
    → (lo ≤ first_arm model arms otherwise) × (first_arm model arms otherwise ≤ hi)
unfolding first_arm
first_arm_bounds lo hi model [] otherwise h all = h
first_arm_bounds lo hi model ((name, value) ∷ arms) otherwise h all =
    ground (arith, first_arm_bounds lo hi model arms otherwise h all.1)

max_output_tokens_bounds :
    (model : Text) → (2048 ≤ max_output_tokens model) × (max_output_tokens model ≤ 4096)
unfolding max_output_tokens
max_output_tokens_bounds model =
    first_arm_bounds 2048 4096 model max_output_tokens_arms 2048 (omega arith) (omega arith)

max_tokens_bounds : (model : Text) → (4096 ≤ max_tokens model) × (max_tokens model ≤ 200000)
unfolding max_tokens
max_tokens_bounds model =
    first_arm_bounds 4096 200000 model max_tokens_arms 4096 (omega arith) (omega arith)

-- For every model name the output limit is at least 2048 and at most the context limit, which is at
-- most 200000.
pub max_output_tokens-le-max_tokens :
    (model : Text)
    → (2048 ≤ max_output_tokens model)
      × (max_output_tokens model ≤ max_tokens model)
      × (max_tokens model ≤ 200000)
max_output_tokens-le-max_tokens model =
    omega (arith, max_output_tokens_bounds model, max_tokens_bounds model)
