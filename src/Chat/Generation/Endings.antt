-- ===== src/Chat/Generation/Endings.antt =====
-- crates/sovalune-api/src/routes/ws.rs: how a generation ends, and what it stores.

use mathlib.Core.Path.{subst}
use sovalune_core.Common.{
  ℕ, zero, suc, ◌+◌, ◌≡◌, ◌⊎◌, refl, true, false, Option, none, some, List, [], ◌∷◌, ◌++◌, returns,
  Result, ok, err, Bool-cases, Outcome-cases, Result-cases, inl, inr, arith,
}
use sovalune_core.Float.{Float}
use sovalune_core.Text.{Text, codes}
use sovalune_core.Json.{Json}
use sovalune_core.Types.{ContextSection, InferenceError, TokenEvent}
use sovalune_core.Types
use sovalune_core.Tools.{ToolCall, ToolResult}
use sovalune_core.Tools.Parser.{parse_text_tool_calls}
use sovalune_core.Chat.{Task, ServerMessage, message_complete, error}
use sovalune_core.Chat.Prompt.{context_for, tool_input}
use sovalune_core.Chat.Generation.{
  State, send, read_stream, run_calls, Environment, prompt, inference_request, next_context,
  use_tools, after_reading, run_round, generate_loop, Generated, kept, conclude, generate,
}
use sovalune_core.Chat.Generation.Transcript.{
  deltas, Kept, EndsInError, Goes, silent, state_of, read_stream-Goes, run_calls-Kept,
}

ended : (s : State) (code message : Text) → EndsInError (send (error code message) s).sent
unfolding send
ended s code message = (s.sent, code, message, refl)

module _ (fl : Float) (env : Environment fl) (task : Task) where
  next_context-Kept :
      (ran : List (ToolResult Json) × State) (next : List ContextSection × State)
      → Kept ran.1
      → next_context fl env task ran ≡ returns next
      → Kept next.1
  unfolding next_context
  next_context-Kept (results, s) next h e =
      elim (Outcome-cases (
        context_for env.to_uppercase (prompt fl env task) task
          (tool_input env.pretty results task.content s.full_response))) [
            | inl p ↦ absurd (ground arith)
            | inr (context, p) ↦ let e' : s ≡ next.1 = ground arith in subst Kept e' h
          ]

  use_tools-Kept :
      (tcs : List (ToolCall Json)) (s : State) (next : Option (List ContextSection) × State)
      → Kept s
      → use_tools fl env task tcs s ≡ returns next
      → Kept next.1
  unfolding use_tools
  use_tools-Kept [] s next h e = subst Kept (state_of e) h
  use_tools-Kept (tc ∷ tcs) s next h e =
      elim (Outcome-cases (
        run_calls task.session_id env.polls env.to_string env.error_json env.elapsed env.registry
          (tc ∷ tcs) [] s)) [
            | inl p ↦ absurd (ground arith)
            | inr (ran, p) ↦
                let kept =
                  run_calls-Kept task.session_id env.polls env.to_string env.error_json env.elapsed
                    env.registry (tc ∷ tcs) [] s ran h p in
                elim (Outcome-cases (next_context fl env task ran)) [
                  | inl q ↦ absurd (ground arith)
                  | inr ((context, s'), q) ↦
                      let e' : s' ≡ next.1 = ground arith in
                      subst Kept e' (next_context-Kept ran (context, s') kept q)
                ]
          ]

  after_reading-Kept :
      (round : ℕ) (chunk : Text) (s : State) (next : Option (List ContextSection) × State)
      → Kept s
      → after_reading fl env task round (chunk, s) ≡ returns next
      → Kept next.1
  unfolding after_reading
  after_reading-Kept round chunk s next h e =
      use_tools-Kept (parse_text_tool_calls env.from_str (env.fresh round) chunk) s next h e

  -- a round that does not panic
  run_round-Goes :
      (round : ℕ) (context : List ContextSection) (s : State)
      (r : Result (Option (List ContextSection) × State) State)
      → Kept s
      → run_round fl env task round context s ≡ returns r
      → Goes r
  unfolding run_round
  run_round-Goes round context s r h e =
      elim (Outcome-cases (env.stream_infer round (inference_request fl env task round context))) [
        | inl p ↦ absurd (ground arith)
        | inr (err x, p) ↦
            let m = error (codes "INFERENCE_FAILED") (Types.display x) in
            let e' : err (send m s) ≡ r = ground arith in
            subst Goes e' (ended s (codes "INFERENCE_FAILED") (Types.display x))
        | inr (ok stream, p) ↦
            let goes = read_stream-Goes task.session_id env.polls stream [] s h in
            elim (Result-cases (read_stream task.session_id env.polls stream [] s)) [
              | inr (s', q) ↦
                  let e' : err s' ≡ r = ground arith in
                  let ended_so : EndsInError s'.sent = subst Goes q goes in subst Goes e' ended_so
              | inl ((chunk, s'), q) ↦
                  let kept : Kept s' = subst Goes q goes in
                  elim (Outcome-cases (after_reading fl env task round (chunk, s'))) [
                    | inl k ↦ absurd (ground arith)
                    | inr (next, k) ↦
                        let e' : ok next ≡ r = ground arith in
                        subst Goes e' (after_reading-Kept round chunk s' next kept k)
                  ]
            ]
      ]

  -- the loop, where it does not panic
  abbrev Ends : Result State State → Type 0
  Ends (ok s) = Kept s
  Ends (err s) = EndsInError s.sent

  generate_loop-Ends :
      (left round : ℕ) (context : List ContextSection) (s : State) (r : Result State State)
      → Kept s
      → generate_loop fl env task left round context s ≡ returns r
      → Ends r
  unfolding generate_loop
  generate_loop-Ends zero round context s r h e =
      let e' : ok (record s { polled = s.polled + 1 }) ≡ r = ground arith in subst Ends e' h
  generate_loop-Ends (suc left) round context s r h e = elim (Bool-cases (env.polls s.polled)) [
    | inl p ↦ let e' : ok (record s { polled = s.polled + 1 }) ≡ r = ground arith in subst Ends e' h
    | inr p ↦
        let s0 : State = record s { polled = s.polled + 1 } in
        elim (Outcome-cases (run_round fl env task round context s0)) [
          | inl q ↦ absurd (ground arith)
          | inr (err s', q) ↦
              let e' : err s' ≡ r = ground arith in
              subst Ends e' (run_round-Goes round context s0 (err s') h q)
          | inr (ok (none, s'), q) ↦
              let e' : ok s' ≡ r = ground arith in
              subst Ends e' (run_round-Goes round context s0 (ok (none, s')) h q)
          | inr (ok (some context', s'), q) ↦
              generate_loop-Ends left (round + 1) context' s' r
                (run_round-Goes round context s0 (ok (some context', s')) h q) (ground arith)
        ]
  ]

  -- What was sent is the message that the store took, or the store refused it and has none.
  abbrev pub Stored : Generated fl env task → Type 0
  Stored g =
      ((env.create_message (codes "assistant") (deltas g.sent) ≡ ok tt)
        × (g.saved ≡ some (codes "assistant", deltas g.sent)))
      ⊎ ((e : Text) × (env.create_message (codes "assistant") (deltas g.sent) ≡ err e)
          × (g.saved ≡ none))

  -- The generation completed: what was sent was given to the store, and its end was announced last.
  abbrev pub Completed : Generated fl env task → Text → Type 0
  Completed g message_id =
      Stored g
      × (g.cleaned ≡ true)
      × ((before : List ServerMessage) × (g.sent
            ≡ before ++ message_complete task.session_id message_id ∷ []))

  -- The generation failed: nothing is stored, and the token of cancellation stays in the map.
  abbrev pub Failed : Generated fl env task → Type 0
  Failed g = (g.saved ≡ none) × (g.cleaned ≡ false) × EndsInError g.sent

  conclude-Stored :
      (message_id : Text) (s : State) → Kept s → Stored (conclude fl env task message_id (ok s))
  unfolding conclude kept send
  conclude-Stored message_id s h =
      let m = message_complete task.session_id message_id in
      let same : s.full_response ≡ deltas (send m s).sent = silent s m (unfold deltas in refl) h in
      elim (Result-cases (env.create_message (codes "assistant") s.full_response)) [
        | inl (tt, taken) ↦ inl (rw (← same) taken, rw (taken, ← same) refl)
        | inr (e, refused) ↦ inr (e, rw (← same) refused, rw refused refl)
      ]

  conclude-cases :
      (message_id : Text) (r : Result State State)
      → Ends r
      → Completed (conclude fl env task message_id r) message_id
        ⊎ Failed (conclude fl env task message_id r)
  unfolding conclude
  conclude-cases message_id (ok s) h = inl (conclude-Stored message_id s h, refl, (s.sent, refl))
  conclude-cases message_id (err s) h = inr (refl, refl, h)

  -- A generation that does not panic ends in one of two ways. Either it completes: the text that the
  -- client was sent token by token, put together, is given to the store as one message of the
  -- assistant, which is there afterwards exactly if the store took it, the last message announces the
  -- end in both cases, and the token of cancellation is taken out. Or it fails: the last message is an
  -- error, nothing is stored of what was sent, and the token stays.
  pub generate_ends :
      (message_id : Text) (g : Generated fl env task)
      → generate fl env task message_id ≡ returns g
      → Completed g message_id ⊎ Failed g
  unfolding generate
  generate_ends message_id g e =
      elim (Outcome-cases (context_for env.to_uppercase (prompt fl env task) task task.content)) [
        | inl p ↦ absurd (ground arith)
        | inr (context, p) ↦
            let s : State = record { full_response = []; sent = []; polled = 0 } in
            elim (Outcome-cases (generate_loop fl env task 10 1 context s)) [
              | inl q ↦ absurd (ground arith)
              | inr (r, q) ↦
                  let e' : conclude fl env task message_id r ≡ g = ground arith in
                  subst (λ x. Completed x message_id ⊎ Failed x) e'
                    (conclude-cases message_id r
                      (generate_loop-Ends 10 1 context s r (unfold deltas in refl) q))
            ]
      ]
