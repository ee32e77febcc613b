-- ===== src/Tokens.antt =====
-- crates/sovalune-model-runtime/src/tokenizer.rs: `TokenCounter` and `ContextLimits`.
-- What the hasher makes of a text, of which a hash has the last 64 bits, and `char::is_alphanumeric`
-- are parameters.
pub mod Counting
pub mod Limits
pub mod Cached
use sovalune_core.Common.{
  ℕ, zero, suc, ◌+◌, ◌-◌, ◌*◌, ◌/◌, ◌%◌, ◌^◌, Bool, true, false, ◌&&◌, ◌||◌, Option, none, some,
  List, [], ◌∷◌, length, max, leb, ltb, ◌==◌, if◌then◌else◌,
}
use sovalune_core.HashMap.{HashMap, lookup}
use sovalune_core.HashMap
use sovalune_core.Text.{Text, codes, byte_len, text_eq, contains, starts_with, is_whitespace}
use native.Mathlib.Decide.{ℕ_discrete}

-- the cache: hash of a text to its count
abbrev pub TokenCounter : Type 0
TokenCounter = HashMap ℕ ℕ

unfoldable pub new : TokenCounter
new = []

-- the arms of a `match` on `model.contains(..)`, in their order
unfoldable pub encoding_for : Text → Text
encoding_for model =
    if contains model (codes "gpt-4")
    then codes "cl100k_base"
    else if contains model (codes "gpt-3.5")
    then codes "cl100k_base"
    else if contains model (codes "gpt-4o")
    then codes "o200k_base"
    else codes "cl100k_base"

-- `(len / chars_per_token).ceil()`, with 3.5 characters to a token, or 4
unfoldable pub tokens_of_len : Text → ℕ → ℕ
tokens_of_len encoding len =
    if text_eq encoding (codes "o200k_base") then (2 * len + 6) / 7 else (len + 3) / 4

unfoldable pub count_tiktoken : Text → Text → ℕ
count_tiktoken text model = tokens_of_len (encoding_for model) (byte_len text)

-- `char::is_ascii_punctuation`
unfoldable pub is_ascii_punctuation : ℕ → Bool
is_ascii_punctuation c =
    (leb 33 c && leb c 47)
    || (leb 58 c && leb c 64)
    || (leb 91 c && leb c 96)
    || (leb 123 c && leb c 126)

pub record ContextMessage : Type 0 where
  pub role : Text
  pub content : Option Text

-- a `u64`
unfoldable pub hash_text : (Text → ℕ) → Text → ℕ
hash_text finish text = finish text % 2 ^ 64

module _ (is_alphanumeric : ℕ → Bool) where
  -- the inner loop: the letters that follow, counted, and what is behind them
  unfoldable pub word_run : Text → ℕ → ℕ × Text
  word_run [] word_len = (word_len, [])
  word_run (c ∷ t) word_len =
      let rest = word_run t (word_len + 1) in if is_alphanumeric c then rest else (word_len, c ∷ t)

  -- the outer loop, on fuel: each round takes at least one character
  unfoldable pub heuristic_loop : ℕ → Text → ℕ → Option ℕ
  heuristic_loop zero t count = none
  heuristic_loop (suc f) [] count = some count
  heuristic_loop (suc f) (c ∷ t) count =
      let skipped = heuristic_loop f t count in
      let count' = if is_ascii_punctuation c then count + 2 else count + 1 in
      let (word_len, t') = word_run t 1 in
      let word = heuristic_loop f t' (count' + word_len / 4) in
      let single = heuristic_loop f t count' in
      if is_whitespace c then skipped else if is_alphanumeric c then word else single

  -- the fuel is the number of characters and one
  unfoldable pub count_heuristic : Text → Option ℕ
  count_heuristic text = elim (heuristic_loop (suc (length text)) text 0) [
    | none ↦ none
    | some count ↦ some (max count 1)
  ]

  unfoldable pub count_tokens_inner : Text → Text → Option ℕ
  count_tokens_inner text model =
      if starts_with model (codes "gpt-") || starts_with model (codes "text-")
      then some (count_tiktoken text model)
      else count_heuristic text

  module _ (finish : Text → ℕ) where
    -- the new cache and the count; `none` only if the fuel runs out
    unfoldable pub count_tokens : Text → Text → TokenCounter → Option (TokenCounter × ℕ)
    count_tokens text model cache = elim (lookup ℕ_discrete (hash_text finish text) cache) [
      | some count ↦ some (cache, count)
      | none ↦ elim (count_tokens_inner text model) [
        | none ↦ none
        | some count ↦ some (HashMap.insert ℕ_discrete (hash_text finish text) count cache, count)
      ]
    ]

    -- the loop over the messages
    unfoldable pub context_loop :
        List ContextMessage → Text → ℕ → TokenCounter → Option (TokenCounter × ℕ)
    context_loop [] model total cache = some (cache, total + 2)
    context_loop (msg ∷ msgs) model total cache = elim msg.content [
      | none ↦ context_loop msgs model (total + 4) cache
      | some content ↦ elim (count_tokens content model cache) [
        | none ↦ none
        | some (cache', n) ↦ context_loop msgs model (total + 4 + n) cache'
      ]
    ]

    unfoldable pub count_context_tokens :
        List ContextMessage → Text → TokenCounter → Option (TokenCounter × ℕ)
    count_context_tokens messages model cache = context_loop messages model 0 cache

unfoldable pub clear_cache : TokenCounter → TokenCounter
clear_cache cache = []

unfoldable pub cache_size : TokenCounter → ℕ
cache_size cache = length cache

-- an arm `m if m.contains(name) => value`; the first that matches gives the value
unfoldable pub first_arm : Text → List (Text × ℕ) → ℕ → ℕ
first_arm model [] otherwise = otherwise
first_arm model ((name, value) ∷ arms) otherwise =
    let rest = first_arm model arms otherwise in if contains model name then value else rest

abbrev pub max_tokens_arms : List (Text × ℕ)
max_tokens_arms =
    (codes "gpt-4o", 128000)
    ∷ (codes "gpt-4-turbo", 128000)
    ∷ (codes "gpt-4", 8192)
    ∷ (codes "gpt-3.5-turbo-16k", 16385)
    ∷ (codes "gpt-3.5", 4096)
    ∷ (codes "claude-3-opus", 200000)
    ∷ (codes "claude-3-sonnet", 200000)
    ∷ (codes "claude-3-haiku", 200000)
    ∷ (codes "llama-3-70b", 8192)
    ∷ (codes "llama-3-8b", 8192)
    ∷ (codes "mixtral", 32768)
    ∷ (codes "gemini-pro", 32768)
    ∷ []

unfoldable pub max_tokens : Text → ℕ
max_tokens model = first_arm model max_tokens_arms 4096

abbrev pub max_output_tokens_arms : List (Text × ℕ)
max_output_tokens_arms =
    (codes "gpt-4o", 4096)
    ∷ (codes "gpt-4-turbo", 4096)
    ∷ (codes "gpt-4", 4096)
    ∷ (codes "gpt-3.5", 4096)
    ∷ (codes "claude-3-opus", 4096)
    ∷ (codes "claude-3-sonnet", 4096)
    ∷ (codes "claude-3-haiku", 4096)
    ∷ (codes "llama-3", 2048)
    ∷ (codes "mixtral", 4096)
    ∷ []

unfoldable pub max_output_tokens : Text → ℕ
max_output_tokens model = first_arm model max_output_tokens_arms 2048
