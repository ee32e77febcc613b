-- ===== src/Chat/Generation/Results.antt =====
-- crates/sovalune-api/src/routes/ws.rs with model-runtime's context.rs and backend/openai.rs: what of a
-- round's context is sent to the model.
use mathlib.Core.List.{append-nil}
use sovalune_core.Common.{
  ℕ, ◌-◌, ◌≤◌, ◌≡◌, refl, sym, ap, ◌∙◌, false, List, [], ◌∷◌, ◌++◌, map, filter, All, All-append,
  Outcome, returns, le→leb, Outcome-cases, inl, inr, arith,
}
use sovalune_core.Float.{Float}
use sovalune_core.Text.{Text, codes, text_eq}
use sovalune_core.Types.{ContextSection}
use sovalune_core.Context.{
  ContextBuilder, add_section, with_system, with_memory_section, with_history_entry,
  with_user_input, tier_priority, insert_sorted, sort_by_priority, cut, truncate_to_tokens,
  push_section, build_loop, build, wadd,
}
use sovalune_core.Context
use sovalune_core.Backend.OpenAi.{OpenAiBackend, build_request}
use sovalune_core.Backend.Requests.{is_sent, system_message, user_message, build_request_messages}
use sovalune_core.Chat.{Task}
use sovalune_core.Chat.Prompt.{with_memories, with_history, base_context, context_for}
use sovalune_core.Chat.Generation.{Environment, inference_request}

-- no section stands behind the user's
abbrev Early : List ContextSection → Type 0
Early = All (λ (s : ContextSection). s.priority ≤ 50)

insert_sorted-last :
    (s u : ContextSection) (ss : List ContextSection)
    → s.priority ≤ u.priority
    → insert_sorted s (ss ++ u ∷ []) ≡ insert_sorted s ss ++ u ∷ []
unfolding insert_sorted
insert_sorted-last s u [] h = rw (le→leb s.priority u.priority h) refl
insert_sorted-last s u (t ∷ ss) h = ground (arith, insert_sorted-last s u ss h)

sort-last :
    (u : ContextSection) (ss : List ContextSection)
    → u.priority ≡ 50
    → Early ss
    → sort_by_priority (ss ++ u ∷ []) ≡ sort_by_priority ss ++ u ∷ []
unfolding sort_by_priority insert_sorted
sort-last u [] p h = refl
sort-last u (s ∷ ss) p h =
    ap (insert_sorted s) (sort-last u ss p h.1)
    ∙ insert_sorted-last s u (sort_by_priority ss) (omega (arith, h.0))

module _ (u : ContextSection) (user : is_sent u ≡ false) where
  push_section-user :
      (max_tokens used used' : ℕ) (out : List ContextSection)
      → push_section max_tokens used u ≡ returns (used', out)
      → filter is_sent out ≡ []
  unfolding push_section cut
  push_section-user max_tokens used used' out h =
      elim (Outcome-cases (truncate_to_tokens u.content (max_tokens - used))) [
        | inl p ↦ ground arith
        | inr (t, p) ↦ ground arith
      ]

  filter-append :
      (ss ts : List ContextSection)
      → filter is_sent (ss ++ ts) ≡ filter is_sent ss ++ filter is_sent ts
  filter-append [] ts = refl
  filter-append (s ∷ ss) ts = ground (arith, filter-append ss ts)

  build_loop-user :
      (max_tokens used : ℕ) (ss result c : List ContextSection)
      → build_loop max_tokens used (ss ++ u ∷ []) result ≡ returns c
      → (c' : List ContextSection) × (build_loop max_tokens used ss result ≡ returns c')
        × (filter is_sent c ≡ filter is_sent c')
  unfolding build_loop
  build_loop-user max_tokens used [] result c h =
      elim (Outcome-cases (push_section max_tokens used u)) [
        | inl p ↦ absurd (ground arith)
        | inr ((used', out), p) ↦
            let e : result ++ out ≡ c = ground arith in
            (
              result,
              refl,
              sym (ap (filter is_sent) e)
                  ∙ filter-append result out
                  ∙ ap (λ l. filter is_sent result ++ l)
                      (push_section-user max_tokens used used' out p)
                  ∙ append-nil (filter is_sent result),
            )
      ]
  build_loop-user max_tokens used (s ∷ ss) result c h =
      elim (Outcome-cases (push_section max_tokens used s)) [
        | inl p ↦ absurd (ground arith)
        | inr ((used', out), p) ↦
            let (c', e, same) =
              build_loop-user max_tokens used' ss (result ++ out) c (ground arith) in
            (c', rw (p, build_loop) e, same)
      ]

module _ (to_uppercase : Text → Text) where
  memories-Early :
      (ms : List (Text × Text)) (b : ContextBuilder)
      → Early b.sections
      → Early (with_memories to_uppercase ms b).sections
  unfolding with_memories with_memory_section tier_priority add_section
  memories-Early [] b h = h
  memories-Early (m ∷ ms) b h =
      memories-Early ms (with_memory_section to_uppercase m.0 m.1 b)
        (All-append _ b.sections _ h (ground arith, tt))

  history-Early :
      (hs : List (Text × Text)) (b : ContextBuilder)
      → Early b.sections
      → Early (with_history to_uppercase hs b).sections
  unfolding with_history with_history_entry add_section
  history-Early [] b h = h
  history-Early (m ∷ ms) b h =
      history-Early ms (with_history_entry m.0 m.1 b)
        (All-append _ b.sections _ h (omega arith, tt))

  base_context-Early :
      (prompt : Text) (task : Task) → Early (base_context to_uppercase prompt task).sections
  unfolding base_context with_system add_section Context.new
  base_context-Early prompt task =
      history-Early task.history _ (memories-Early task.memory_entries _ (omega arith, tt))

  user_section : Text → ContextSection
  user_section input = record {
    role = codes "user";
    content = input;
    priority = 50;
    token_estimate = Context.estimate_tokens input;
  }

  context_for-shared :
      (prompt : Text) (task : Task) (input : Text) (c : List ContextSection)
      → context_for to_uppercase prompt task input ≡ returns c
      → (c' : List ContextSection) × (build (base_context to_uppercase prompt task) ≡ returns c')
        × (filter is_sent c ≡ filter is_sent c')
  unfolding context_for build with_user_input add_section user_section text_eq
  context_for-shared prompt task input c h =
      let b = base_context to_uppercase prompt task in
      let u = user_section input in
      let sorted = sort-last u b.sections refl (base_context-Early prompt task) in
      build_loop-user u refl b.max_tokens 0 (sort_by_priority b.sections) [] c
        (sym (ap (λ ss. build_loop b.max_tokens 0 ss []) sorted) ∙ h)

returned :
    {a b : List ContextSection}
    → ◌≡◌ {A = Outcome (List ContextSection)} (returns a) (returns b)
    → a ≡ b
returned e = ground arith

module _ (fl : Float) (env : Environment fl) (task : Task) (prompt : Text) (b : OpenAiBackend) where
  -- The rounds of a generation send the model the same messages: whatever the user's input and the
  -- results of the tools that two contexts are built with, where both are built, the requests made from
  -- them have the same messages. What the tools answered reaches the model in none.
  pub results_not_sent :
      (x y : Text) (cx cy : List ContextSection) (i j : ℕ)
      → context_for env.to_uppercase prompt task x ≡ returns cx
      → context_for env.to_uppercase prompt task y ≡ returns cy
      → (build_request fl b (inference_request fl env task i cx)).messages
        ≡ (build_request fl b (inference_request fl env task j cy)).messages
  unfolding inference_request
  results_not_sent x y cx cy i j hx hy =
      let (c, ex, sx) = context_for-shared env.to_uppercase prompt task x cx hx in
      let (d, ey, sy) = context_for-shared env.to_uppercase prompt task y cy hy in
      let same : c ≡ d = returned (sym ex ∙ ey) in
      build_request_messages fl b (inference_request fl env task i cx)
      ∙ ap (λ ss. map system_message ss ++ user_message [] ∷ [])
          (sx ∙ ap (filter is_sent) same ∙ sym sy)
      ∙ sym (build_request_messages fl b (inference_request fl env task j cy))
