-- ===== src/Chat/Generation/Transcript.antt =====
-- crates/sovalune-api/src/routes/ws.rs: the answer so far, beside what has been sent of it.
use mathlib.Core.List.{append_assoc, append-nil}
use mathlib.Core.Path.{subst}
use sovalune_core.Common.{
  ℕ, ◌+◌, ◌≡◌, refl, sym, ap, ◌∙◌, Bool, List, [], ◌∷◌, ◌++◌, Outcome, returns, panics, Result, ok,
  err, Bool-cases, Outcome-cases, inl, inr, arith,
}
use sovalune_core.Text.{Text, codes}
use sovalune_core.Json.{Json}
use sovalune_core.Backend.{TokenStream}
use sovalune_core.Tools.{ToolCall, ToolResult, ToolRegistry, ToolError, execute}
use sovalune_core.Chat.{
  ServerMessage, token, tool_call_started, tool_call_finished, message_complete,
  learning_cycle_update, error,
}
use sovalune_core.Chat.Generation.{State, send, read_stream, result_summary, finish_call, run_calls}

-- the text that a client has been sent token by token
unfoldable pub deltas : List ServerMessage → Text
deltas [] = []
deltas (token session_id delta ∷ ms) = delta ++ deltas ms
deltas (tool_call_started session_id tool arguments ∷ ms) = deltas ms
deltas (tool_call_finished session_id tool summary ∷ ms) = deltas ms
deltas (message_complete session_id message_id ∷ ms) = deltas ms
deltas (learning_cycle_update cycle_id status detail ∷ ms) = deltas ms
deltas (error code message ∷ ms) = deltas ms

deltas-append : (ms ns : List ServerMessage) → deltas (ms ++ ns) ≡ deltas ms ++ deltas ns
unfolding deltas
deltas-append [] ns = refl
deltas-append (token session_id delta ∷ ms) ns =
    ap (λ t. delta ++ t) (deltas-append ms ns) ∙ sym (append_assoc delta (deltas ms) (deltas ns))
deltas-append (tool_call_started session_id tool arguments ∷ ms) ns = deltas-append ms ns
deltas-append (tool_call_finished session_id tool summary ∷ ms) ns = deltas-append ms ns
deltas-append (message_complete session_id message_id ∷ ms) ns = deltas-append ms ns
deltas-append (learning_cycle_update cycle_id status detail ∷ ms) ns = deltas-append ms ns
deltas-append (error code message ∷ ms) ns = deltas-append ms ns

-- the answer so far is what has been sent of it
abbrev pub Kept : State → Type 0
Kept s = s.full_response ≡ deltas s.sent

-- the last message sent is an error
abbrev pub EndsInError : List ServerMessage → Type 0
EndsInError ms =
    (before : List ServerMessage) × (code : Text) × (message : Text) × (ms
      ≡ before ++ error code message ∷ [])

abbrev pub Goes : {A : Type 0} → Result (A × State) State → Type 0
Goes (ok (a, s)) = Kept s
Goes (err s) = EndsInError s.sent

pub silent : (s : State) (m : ServerMessage) → deltas (m ∷ []) ≡ [] → Kept s → Kept (send m s)
unfolding send
silent s m quiet h =
    h
    ∙ sym (
        deltas-append s.sent (m ∷ [])
        ∙ ap (λ t. deltas s.sent ++ t) quiet
        ∙ append-nil (deltas s.sent))

spoken :
    (s : State) (session_id delta : Text)
    → Kept s
    → s.full_response ++ delta ≡ deltas (s.sent ++ token session_id delta ∷ [])
unfolding deltas
spoken s session_id delta h =
    ap (λ t. t ++ delta) h
    ∙ sym (
        deltas-append s.sent (token session_id delta ∷ [])
        ∙ ap (λ t. deltas s.sent ++ t) (append-nil delta))

pub state_of :
    {A : Type 0} {a : A} {s : State} {next : A × State}
    → ◌≡◌ {A = Outcome (A × State)} (returns (a, s)) (returns next)
    → s ≡ next.1
state_of e = ground arith

module _ (session_id : Text) (polls : ℕ → Bool) where
  pub read_stream-Goes :
      (events : TokenStream) (chunk : Text) (s : State)
      → Kept s
      → Goes (read_stream session_id polls events chunk s)
  unfolding read_stream send
  read_stream-Goes [] chunk s h = h
  read_stream-Goes (err e ∷ events) chunk s h = elim (Bool-cases (polls s.polled)) [
    | inl p ↦ rw (p, read_stream) h
    | inr p ↦ rw (p, read_stream) (s.sent, _, _, refl)
  ]
  read_stream-Goes (ok t ∷ events) chunk s h = elim (Bool-cases (polls s.polled)) [
    | inl p ↦ rw (p, read_stream) h
    | inr p ↦ elim (Bool-cases t.finished) [
      | inl f ↦ rw (p, f, read_stream) h
      | inr f ↦
          rw (p, f, read_stream)
            (read_stream-Goes events (chunk ++ t.delta)
              (record s {
                full_response = s.full_response ++ t.delta;
                sent = s.sent ++ token session_id t.delta ∷ [];
                polled = s.polled + 1;
              })
              (spoken s session_id t.delta h))
    ]
  ]

  module _ (to_string : Json → Text) (error_json : Text → Json) where
    finish_call-Kept :
        (tc : ToolCall Json) (o : Outcome (Result (ToolResult Json) ToolError))
        (results : List (ToolResult Json)) (s : State) (next : List (ToolResult Json) × State)
        → Kept s
        → finish_call session_id polls to_string error_json tc o results s ≡ returns next
        → Kept next.1
    unfolding finish_call
    finish_call-Kept tc panics results s next h e = absurd (ground arith)
    finish_call-Kept tc (returns (err x)) results s next h e = rw (← state_of e) h
    finish_call-Kept tc (returns (ok result)) results s next h e =
        elim (Outcome-cases (result_summary session_id polls to_string error_json result)) [
          | inl p ↦ absurd (ground arith)
          | inr (summary, p) ↦
              let m = tool_call_finished session_id tc.name summary in
              let e' : send m s ≡ next.1 = ground arith in
              subst Kept e' (silent s m (unfold deltas in refl) h)
        ]

    module _ (elapsed : ToolCall Json → ℕ) (registry : ToolRegistry Json) where
      pub run_calls-Kept :
          (tcs : List (ToolCall Json)) (results : List (ToolResult Json)) (s : State)
          (next : List (ToolResult Json) × State)
          → Kept s
          → run_calls session_id polls to_string error_json elapsed registry tcs results s
            ≡ returns next
          → Kept next.1
      unfolding run_calls
      run_calls-Kept [] results s next h e = subst Kept (state_of e) h
      run_calls-Kept (tc ∷ tcs) results s next h e =
          let m = tool_call_started session_id tc.name tc.arguments in
          let o = execute elapsed error_json registry tc (codes "ws_user") in
          elim (Outcome-cases
            (finish_call session_id polls to_string error_json tc o results (send m s))) [
              | inl p ↦ absurd (ground arith)
              | inr ((results', s'), p) ↦
                  run_calls-Kept tcs results' s' next
                    (finish_call-Kept tc o results (send m s) (results', s')
                      (silent s m (unfold deltas in refl) h) p)
                    (ground arith)
            ]
