-- ===== src/Tokens/Cached.antt =====
-- crates/sovalune-model-runtime/src/tokenizer.rs: counting with the cache and counting without it.
use sovalune_core.Common.{
  ℕ, ◌+◌, ◌≡◌, refl, ap, ◌∙◌, Bool, Option, none, some, List, [], ◌∷◌, Option-cases, inl, inr,
  arith,
}
use sovalune_core.HashMap.{HashMap, lookup}
use sovalune_core.HashMap
use sovalune_core.HashMap.Laws.{lookup-insert}
use sovalune_core.Text.{Text}
use native.Mathlib.Decide.{ℕ_discrete}
use sovalune_core.Tokens.{
  TokenCounter, ContextMessage, hash_text, count_tokens_inner, count_tokens, context_loop,
  count_context_tokens,
}
use sovalune_core.Tokens.Counting.{count_tokens_inner_total}

module _ (is_alphanumeric : ℕ → Bool) (model : Text) where
  -- the tokens of a content that may be missing
  abbrev pub plain_content : Option Text → Option ℕ
  plain_content none = some 0
  plain_content (some content) = count_tokens_inner is_alphanumeric content model

  abbrev add_message : Option ℕ → Option ℕ → Option ℕ
  add_message (some n) (some rest) = some (4 + n + rest)
  add_message _ _ = none

  -- the tokens of a context, counted without a cache: 4 to a message with those of its content, and 2
  pub plain_count : List ContextMessage → Option ℕ
  plain_count [] = some 2
  plain_count (msg ∷ msgs) = add_message (plain_content msg.content) (plain_count msgs)

  module _ (finish : Text → ℕ) (counted : Text → Type 0) where
    -- every entry is, for the texts that are counted, the count of its text for the model
    abbrev pub IsSound : TokenCounter → Type 0
    IsSound cache =
        (t : Text) (n : ℕ)
        → counted t
        → lookup ℕ_discrete (hash_text finish t) cache ≡ some n
        → count_tokens_inner is_alphanumeric t model ≡ some n

    -- no two of the texts that are counted have one hash
    abbrev pub Apart : Type 0
    Apart = (t u : Text) → counted t → counted u → hash_text finish t ≡ hash_text finish u → t ≡ u

    abbrev pub ContentCounted : Option Text → Type 0
    ContentCounted none = Unit
    ContentCounted (some content) = counted content

    abbrev pub AllCounted : List ContextMessage → Type 0
    AllCounted [] = Unit
    AllCounted (msg ∷ msgs) = ContentCounted msg.content × AllCounted msgs

    insert-IsSound :
        Apart
        → (text : Text) (m : ℕ) (cache : TokenCounter) → counted text
        → count_tokens_inner is_alphanumeric text model ≡ some m
        → IsSound cache
        → IsSound (HashMap.insert ℕ_discrete (hash_text finish text) m cache)
    insert-IsSound apart text m cache one plain sound t k other hit =
        elim (ℕ_discrete (hash_text finish t) (hash_text finish text)) [
          | yes p ↦ rw (apart t text other one p) (
              ground (
                arith,
                lookup-insert ℕ_discrete (hash_text finish text) (hash_text finish t) m cache,
              ))
          | no p ↦ ground (
            arith,
            lookup-insert ℕ_discrete (hash_text finish text) (hash_text finish t) m cache,
            sound t k other,
          )
        ]

    -- one text: its count is that without the cache
    count_tokens-IsSound :
        Apart
        → (text : Text) (cache : TokenCounter) → counted text
        → IsSound cache
        → (cache' : TokenCounter) × (n : ℕ) × (count_tokens is_alphanumeric finish text model cache
            ≡ some (cache', n))
          × (count_tokens_inner is_alphanumeric text model ≡ some n)
          × IsSound cache'
    unfolding count_tokens
    count_tokens-IsSound apart text cache one sound =
        elim (Option-cases (lookup ℕ_discrete (hash_text finish text) cache)) [
          | inr (m, found) ↦
              (cache, m, rw (found, count_tokens) refl, sound text m one found, sound)
          | inl missed ↦
              let (m, plain) = count_tokens_inner_total is_alphanumeric text model in
              (
                HashMap.insert ℕ_discrete (hash_text finish text) m cache,
                m,
                rw (missed, plain, count_tokens) refl,
                plain,
                insert-IsSound apart text m cache one plain sound,
              )
        ]

    -- the loop from a total and a cache counts what counting without a cache does, and the new cache
    -- is sound
    abbrev Counts : List ContextMessage → ℕ → TokenCounter → Type 0
    Counts msgs total cache =
        (cache' : TokenCounter) × (n : ℕ) × (context_loop is_alphanumeric finish msgs model total
            cache
          ≡ some (cache', total + n))
        × (plain_count msgs ≡ some n)
        × IsSound cache'

    context_loop-some :
        (role content : Text) (msgs : List ContextMessage) (total m : ℕ)
        (cache cache' : TokenCounter)
        → count_tokens is_alphanumeric finish content model cache ≡ some (cache', m)
        → context_loop is_alphanumeric finish
            (record { role = role; content = some content } ∷ msgs)
            model
            total
            cache
          ≡ context_loop is_alphanumeric finish msgs model (total + 4 + m) cache'
    unfolding context_loop
    context_loop-some role content msgs total m cache cache' h = rw (h, context_loop) refl

    message-Counts :
        Apart
        → (role : Text) (content : Option Text) (msgs : List ContextMessage) (total : ℕ)
          (cache : TokenCounter)
        → ContentCounted content
        → IsSound cache
        → ((total' : ℕ) (cache' : TokenCounter) → IsSound cache' → Counts msgs total' cache')
        → Counts (record { role = role; content = content } ∷ msgs) total cache
    unfolding context_loop plain_count
    message-Counts apart role none msgs total cache one sound rest =
        let (cache', n, ran, plain, sound') = rest (total + 4) cache sound in
        (cache', 4 + 0 + n, ran ∙ ap (λ k. some (cache', k)) (omega arith), rw plain refl, sound')
    message-Counts apart role (some content) msgs total cache one sound rest =
        let (cache1, m, counted_so, plain_so, sound1) =
          count_tokens-IsSound apart content cache one sound in
        let (cache', n, ran, plain, sound') = rest (total + 4 + m) cache1 sound1 in
        (
          cache',
          4 + m + n,
          context_loop-some role content msgs total m cache cache1 counted_so
              ∙ ran
              ∙ ap (λ k. some (cache', k)) (omega arith),
          rw (plain_so, plain) refl,
          sound',
        )

    context_loop-plain :
        Apart
        → (msgs : List ContextMessage) (total : ℕ) (cache : TokenCounter) → AllCounted msgs
        → IsSound cache
        → Counts msgs total cache
    unfolding context_loop plain_count
    context_loop-plain apart [] total cache all sound = (cache, 2, refl, refl, sound)
    context_loop-plain apart (msg ∷ msgs) total cache (one, all) sound =
        message-Counts apart msg.role msg.content msgs total cache one sound
          (λ total' cache' sound'. context_loop-plain apart msgs total' cache' all sound')

    -- Where no two of the texts that are counted have one hash, and the cache is sound for the model on
    -- them, count_context_tokens ends, with the same count of the messages as without a cache: 4 to a
    -- message, the tokens of its content for the model, and 2. The cache stays sound.
    pub count_context_tokens-plain :
        Apart
        → (messages : List ContextMessage) (cache : TokenCounter) → AllCounted messages
        → IsSound cache
        → (cache' : TokenCounter) × (n : ℕ) × (count_context_tokens is_alphanumeric finish messages
              model cache
            ≡ some (cache', n))
          × (plain_count messages ≡ some n)
          × IsSound cache'
    unfolding count_context_tokens
    count_context_tokens-plain apart messages cache all sound =
        let (cache', n, ran, plain, sound') = context_loop-plain apart messages 0 cache all sound in
        (cache', n, ran ∙ ap (λ k. some (cache', k)) (omega arith), plain, sound')
