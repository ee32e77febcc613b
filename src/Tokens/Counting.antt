-- ===== src/Tokens/Counting.antt =====
-- crates/sovalune-model-runtime/src/tokenizer.rs: the counts of `TokenCounter`.

use sovalune_core.Common.{
  ℕ, zero, suc, ◌+◌, ◌*◌, ◌/◌, ◌≤◌, ◌<◌, ◌≡◌, refl, Bool, ◌||◌, some, [], ◌∷◌, length, max,
  if◌then◌else◌, Bool-cases, Option-cases, inl, inr, arith,
}
use sovalune_core.HashMap.{lookup}
use sovalune_core.HashMap.Laws.{lookup-insert}
use sovalune_core.Text.{Text, codes, starts_with, is_whitespace}
use sovalune_core.Text.Search.{contains_prefix}
use native.Mathlib.Decide.{ℕ_discrete}
use sovalune_core.Tokens.{
  TokenCounter, encoding_for, is_ascii_punctuation, word_run, heuristic_loop, count_tiktoken,
  count_heuristic, count_tokens_inner, hash_text, count_tokens,
}

-- The arm for gpt-4o is never reached: every name that it matches is matched by the arm for gpt-4.
pub encoding_for-cl100k : (model : Text) → encoding_for model ≡ codes "cl100k_base"
unfolding encoding_for
encoding_for-cl100k model = ground (arith, contains_prefix model (codes "gpt-4") (codes "o"))

-- what a character that is no white space adds
abbrev charged : ℕ → ℕ → ℕ
charged c count = if is_ascii_punctuation c then count + 2 else count + 1

charge_bounds : (c count : ℕ) → (count < charged c count) × (charged c count ≤ count + 2)
charge_bounds c count = ground arith

module _ (is_alphanumeric : ℕ → Bool) where
  word_run_bounds :
      (t : Text) (n : ℕ)
      → (n ≤ (word_run is_alphanumeric t n).0)
        × ((word_run is_alphanumeric t n).0 + length (word_run is_alphanumeric t n).1
            ≡ n + length t)
  unfolding word_run
  word_run_bounds [] n = omega arith
  word_run_bounds (c ∷ t) n = ground (arith, word_run_bounds t (n + 1))

  heuristic_loop_total :
      (f : ℕ) (t : Text) (count : ℕ)
      → length t < f
      → (n : ℕ) × (heuristic_loop is_alphanumeric f t count ≡ some n)
        × (count ≤ n)
        × (n ≤ count + 3 * length t)
  unfolding heuristic_loop
  heuristic_loop_total zero t count h = absurd (omega arith)
  heuristic_loop_total (suc f) [] count h = (count, refl, omega arith, omega arith)
  heuristic_loop_total (suc f) (c ∷ t) count h = elim (Bool-cases (is_whitespace c)) [
    | inl white ↦
        let (n, run, lo, hi) = heuristic_loop_total f t count (omega arith) in
        (n, rw white run, lo, omega arith)
    | inr black ↦ elim (Bool-cases (is_alphanumeric c)) [
      | inl letter ↦
          let bounds = word_run_bounds t 1 in
          let charge = charge_bounds c count in
          let (word_len, t') = word_run is_alphanumeric t 1 in
          let (n, run, lo, hi) =
            heuristic_loop_total f t' (charged c count + word_len / 4) (omega arith) in
          (n, rw (black, letter) run, omega arith, omega arith)
      | inr other ↦
          let charge = charge_bounds c count in
          let (n, run, lo, hi) = heuristic_loop_total f t (charged c count) (omega arith) in
          (n, rw (black, other) run, omega arith, omega arith)
    ]
  ]

  -- The heuristic count is defined for every text, is at least 1, and is at most 3 to a character.
  pub count_heuristic_total :
      (text : Text)
      → (n : ℕ) × (count_heuristic is_alphanumeric text ≡ some n)
        × (1 ≤ n)
        × (n ≤ max (3 * length text) 1)
  unfolding count_heuristic
  count_heuristic_total text =
      let (n, run, lo, hi) = heuristic_loop_total (suc (length text)) text 0 (omega arith) in
      (max n 1, rw (run, count_heuristic), omega arith, omega arith)

  pub count_tokens_inner_total :
      (text model : Text) → (n : ℕ) × (count_tokens_inner is_alphanumeric text model ≡ some n)
  unfolding count_tokens_inner
  count_tokens_inner_total text model =
      elim (Bool-cases (starts_with model (codes "gpt-") || starts_with model (codes "text-"))) [
        | inl openai ↦ (count_tiktoken text model, rw openai)
        | inr other ↦ let (n, run, _, _) = count_heuristic_total text in (n, rw (other, run))
      ]

  module _ (finish : Text → ℕ) where
    -- The cache goes by the text alone: once a text is counted for one model, it has that count for
    -- every model.
    pub count_tokens_ignores_model :
        (text model model' : Text) (cache cache' : TokenCounter) (n : ℕ)
        → count_tokens is_alphanumeric finish text model cache ≡ some (cache', n)
        → count_tokens is_alphanumeric finish text model' cache' ≡ some (cache', n)
    unfolding count_tokens
    count_tokens_ignores_model text model model' cache cache' n h =
        elim (Option-cases (lookup ℕ_discrete (hash_text finish text) cache)) [
          | inr (m, found) ↦ ground arith
          | inl missed ↦ elim (Option-cases (count_tokens_inner is_alphanumeric text model)) [
            | inl out ↦ absurd (ground arith)
            | inr (m, counted) ↦ ground (
              arith,
              lookup-insert ℕ_discrete (hash_text finish text) (hash_text finish text) m cache,
            )
          ]
        ]
