-- ===== src/Tests/TokensTests.antt =====
-- The token counters at concrete inputs.
use sovalune_core.Common.{
  ℕ, ◌≤◌, ◌≡◌, ◌⊎◌, inl, inr, sym, ap, ◌∙◌, refl, Bool, none, some, List, [], ◌∷◌, leb, ◌&&◌, arith,
}
use sovalune_core.Text.{Text, codes}
use sovalune_core.HashMap.{lookup}
use sovalune_core.Tokens.{
  TokenCounter, ContextMessage, hash_text, count_context_tokens, encoding_for, count_heuristic,
  count_tokens_inner, count_tokens, max_tokens, max_output_tokens,
}
use sovalune_core.Tokens.Counting.{count_heuristic_total}
use sovalune_core.Tokens.Cached.{Apart, IsSound, plain_count, count_context_tokens-plain}

abbrev is_letter : ℕ → Bool
is_letter c = leb b'a' c && leb c b'z'

-- a hash that tells the empty text from the others
abbrev emptiness : Text → ℕ
emptiness [] = 0
emptiness (c ∷ t) = 1

counted : count_heuristic is_letter (codes "hello, world") ≡ some 6
unfolding count_heuristic sovalune_core.Tokens.heuristic_loop sovalune_core.Text.is_whitespace
    sovalune_core.Tokens.word_run sovalune_core.Tokens.is_ascii_punctuation
counted = refl

count_heuristic_total_example :
    (n : ℕ) × (count_heuristic is_letter (codes "a b") ≡ some n) × (1 ≤ n) × (n ≤ 9)
count_heuristic_total_example = count_heuristic_total is_letter (codes "a b")

first_count :
    count_tokens is_letter emptiness (codes "abcdefgh") (codes "gpt-4") [] ≡ some ((1, 2) ∷ [], 2)
unfolding hash_text count_tokens lookup count_tokens_inner sovalune_core.Text.starts_with
    sovalune_core.HashMap.insert sovalune_core.Tokens.count_tiktoken
    sovalune_core.Tokens.tokens_of_len sovalune_core.Text.text_eq encoding_for
    sovalune_core.Text.contains sovalune_core.Text.byte_len
first_count = refl

abbrev messages : List ContextMessage
messages =
    record { role = codes "user"; content = some [] }
    ∷ record { role = codes "tool"; content = none }
    ∷ record { role = codes "user"; content = some (codes "a b") }
    ∷ []

-- the contents of the messages
abbrev Said : Text → Type 0
Said t = (t ≡ []) ⊎ (t ≡ codes "a b")

zero_one : (m n : ℕ) → m ≡ 0 → n ≡ 1 → m ≡ n → ⊥
zero_one m n p q h = omega arith

contents_Apart : Apart is_letter (codes "llama") emptiness Said
unfolding hash_text
contents_Apart t u (inl p) (inl q) same = p ∙ sym q
contents_Apart t u (inl p) (inr q) same =
    absurd (
      zero_one 0 1 refl refl (sym (ap (hash_text emptiness) p) ∙ same ∙ ap (hash_text emptiness) q))
contents_Apart t u (inr p) (inl q) same = absurd (
    zero_one 0 1 refl refl
      (sym (ap (hash_text emptiness) q) ∙ sym same ∙ ap (hash_text emptiness) p))
contents_Apart t u (inr p) (inr q) same = p ∙ sym q

count_context_tokens-plain_example :
    (cache' : TokenCounter) × (n : ℕ) × (count_context_tokens is_letter emptiness messages
        (codes "llama")
        []
      ≡ some (cache', n))
    × (plain_count is_letter (codes "llama") messages ≡ some n)
    × IsSound is_letter (codes "llama") emptiness Said cache'
unfolding lookup
count_context_tokens-plain_example =
    count_context_tokens-plain is_letter (codes "llama") emptiness Said contents_Apart messages []
      (inl refl, (tt, (inr refl, tt))) (λ t n one h. ground arith)
