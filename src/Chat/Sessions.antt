-- ===== src/Chat/Sessions.antt =====
-- crates/sovalune-api/src/routes/ws.rs: the messages that start a generation, and those that stop it.
use sovalune_core.Common.{
  ℕ, ◌≡◌, ◌⊎◌, refl, true, [], ◌∷◌, ◌++◌, ok, err, Result-cases, inl, inr, arith,
}
use sovalune_core.HashMap.Laws.{lookup-insert, lookup-remove}
use sovalune_core.Text.{Text, codes}
use sovalune_core.Text.Equality.{text_discrete}
use sovalune_core.Chat.{
  Task, Socket, Services, error, send_error, start_generation, accept_message, handle_stop,
}
use sovalune_core.Chat.Generation.{clean_up}

-- One error is sent, and all else stays.
abbrev pub Refused : Text → Text → Socket → Socket → Type 0
Refused code message s s' = s' ≡ record s { sent = s.sent ++ error code message ∷ [] }

module _ (services : Services) (session_id project_id content : Text) where
  open services use {parse_uuid, create_message}

  -- A stop that follows the start of a generation cancels that generation's token.
  pub stop-start :
      (s : Socket)
      → (handle_stop services session_id
          (start_generation services session_id project_id content s)).cancelled
        ≡ s.next_token ∷ s.cancelled
  unfolding handle_stop start_generation
  stop-start s =
      ground (arith, lookup-insert text_discrete session_id session_id s.next_token s.cancel_tokens)

  -- The message is kept, nothing is sent, and one task waits for it, with a token of its own, which a
  -- stop of the session cancels.
  abbrev pub Accepted : Socket → Socket → Type 0
  Accepted s s' =
      (s'.saved ≡ s.saved ++ (codes "user", content) ∷ [])
      × (s'.sent ≡ s.sent)
      × (s'.cancelled ≡ s.cancelled)
      × ((t : Task) × (s'.tasks ≡ s.tasks ++ t ∷ [])
          × (t.session_id ≡ session_id)
          × (t.project_id ≡ project_id)
          × (t.content ≡ content)
          × ((handle_stop services session_id s').cancelled ≡ t.cancel_token ∷ s.cancelled))

  start_generation-Accepted :
      (s : Socket) → Accepted s (start_generation services session_id project_id content s)
  unfolding start_generation
  start_generation-Accepted s = (refl, refl, refl, (_, refl, refl, refl, refl, stop-start s))

  -- A message of a user is accepted exactly if both identifiers parse and the store takes it: it is
  -- kept, nothing is sent or cancelled, and one task waits for it, with a token that a stop of the
  -- session then cancels. Otherwise the first of these that fails names the one error that is sent,
  -- and nothing else changes.
  pub accept_message-cases :
      (s : Socket)
      → ((p : ℕ) × (q : ℕ) × (parse_uuid session_id ≡ ok p)
          × (parse_uuid project_id ≡ ok q)
          × (create_message (codes "user") content ≡ ok tt)
          × Accepted s (accept_message services session_id project_id content s))
        ⊎ ((e : Text) × (parse_uuid session_id ≡ err e)
            × Refused
                (codes "INVALID_SESSION")
                (codes "Invalid session ID: " ++ e)
                s
                (accept_message services session_id project_id content s))
        ⊎ ((p : ℕ) × (e : Text) × (parse_uuid session_id ≡ ok p)
            × (parse_uuid project_id ≡ err e)
            × Refused
                (codes "INVALID_PROJECT")
                (codes "Invalid project ID: " ++ e)
                s
                (accept_message services session_id project_id content s))
        ⊎ ((p : ℕ) × (q : ℕ) × (e : Text) × (parse_uuid session_id ≡ ok p)
            × (parse_uuid project_id ≡ ok q)
            × (create_message (codes "user") content ≡ err e)
            × Refused
                (codes "DB_ERROR")
                (codes "Failed to save message: " ++ e)
                s
                (accept_message services session_id project_id content s))
  unfolding accept_message send_error
  accept_message-cases s = elim (Result-cases (parse_uuid session_id)) [
    | inr (e, p) ↦ inr (inl (e, p, rw (p, accept_message) refl))
    | inl (a, p) ↦ elim (Result-cases (parse_uuid project_id)) [
      | inr (e, q) ↦ inr (inr (inl (a, e, p, q, rw (p, q, accept_message) refl)))
      | inl (b, q) ↦ elim (Result-cases (create_message (codes "user") content)) [
        | inr (e, r) ↦ inr (inr (inr (a, b, e, p, q, r, rw (p, q, r, accept_message) refl)))
        | inl (tt, r) ↦
            inl (a, b, p, q, r, rw (p, q, r, accept_message) (start_generation-Accepted s))
      ]
    ]
  ]

-- Once a generation of a session has cleaned up, a stop of that session cancels nothing, also where
-- another generation of the session has been started before and still runs.
pub stop-clean_up :
    (services : Services) (session_id : Text) (s : Socket)
    → handle_stop services session_id
        (record s { cancel_tokens = clean_up true session_id s.cancel_tokens })
      ≡ record s { cancel_tokens = clean_up true session_id s.cancel_tokens }
unfolding handle_stop clean_up
stop-clean_up services session_id s =
    ground (arith, lookup-remove text_discrete session_id session_id s.cancel_tokens)
