-- ===== src/Storage/History.antt =====
-- crates/sovalune-storage-client/src/repositories/session.rs: which messages of a session are read.
use sovalune_core.Common.{
  ℕ, suc, ◌+◌, ◌≤◌, ◌≡◌, refl, ap, ◌∙◌, true, false, List, [], ◌∷◌, ◌++◌, ok, err, ◌==◌, length,
  Bool-cases, inl, inr, arith,
}
use sovalune_core.Text.{codes}
use sovalune_core.Storage.{
  Session, Message, CreateMessage, Tables, pos, statement, query, limited, limit_to, oldest_first,
  newest_first, advance, answered, run_with, read_only,
}
use sovalune_core.Storage.Projects.{keep, has_row}
use sovalune_core.Storage.Sessions.{
  create_message, new_message, messages_of, get_messages, get_recent_messages, in_order,
}
use sovalune_core.Storage.Ordering.{
  AllBefore, limit_to-AllBefore, newest_first-AllBefore, oldest_first-AllBefore,
  oldest_first-length, oldest_first_append, newest_first_append, insert_oldest_last,
  limit_to_append,
}

messages_of_append :
    (id : ℕ) (rows : List Message) (m : Message)
    → (m.session_id == id) ≡ true
    → messages_of id (rows ++ m ∷ []) ≡ messages_of id rows ++ m ∷ []
unfolding messages_of keep
messages_of_append id [] m h = rw h refl
messages_of_append id (r ∷ rows) m h = ground (arith, messages_of_append id rows m h)

module _ (id n : ℕ) where
  read_messages :
      (t : Tables)
      → t.faults ≡ []
      → (get_messages id (pos n) t).0
        ≡ ok (limit_to (oldest_first (λ (m : Message). m.created_at) (messages_of id t.messages)) n)
  unfolding get_messages query statement run_with answered read_only limited
  read_messages t h = rw h refl

  read_recent :
      (t : Tables)
      → t.faults ≡ []
      → (get_recent_messages id (pos n) t).0
        ≡ ok (
            oldest_first
              (λ (m : Message). m.created_at)
              (limit_to
                (newest_first (λ (m : Message). m.created_at) (messages_of id t.messages))
                n))
  unfolding get_recent_messages query statement run_with answered read_only limited in_order
  read_recent t h = rw h refl

own_session : (id : ℕ) → (id == id) ≡ true
own_session id = ground arith

module _ (t : Tables) (message : CreateMessage) (calm : t.faults ≡ []) where
  -- a message of a session that is there is added
  pub create_message_stored :
      has_row (λ (s : Session). s.id) message.session_id t.sessions ≡ true
      → create_message message t ≡ (
        ok (new_message message t.clock),
        record t {
          messages = t.messages ++ new_message message t.clock ∷ [];
          clock = t.clock + 1;
          faults = [];
        },
      )
  unfolding create_message statement run_with answered advance
  create_message_stored there = rw (calm, there) refl

  pub create_message_refused :
      has_row (λ (s : Session). s.id) message.session_id t.sessions ≡ false
      → create_message message t ≡ (
        err (codes "violates foreign key constraint"),
        record t { clock = t.clock + 1; faults = [] },
      )
  unfolding create_message statement run_with answered advance
  create_message_refused missing = rw (calm, missing) refl

  -- the oldest messages are the same as before
  pub get_messages-create_message :
      (n : ℕ)
      → AllBefore
          (λ (m : Message). m.created_at)
          t.clock
          (messages_of message.session_id t.messages)
      → n ≤ length (messages_of message.session_id t.messages)
      → (get_messages message.session_id (pos n) (create_message message t).1).0
        ≡ (get_messages message.session_id (pos n) t).0
  unfolding new_message
  get_messages-create_message n older full =
      let created : Message → ℕ = λ m. m.created_at in
      let id = message.session_id in
      let old = messages_of id t.messages in
      elim (Bool-cases (has_row (λ (s : Session). s.id) id t.sessions)) [
        | inr missing ↦
            rw (create_message_refused missing, read_messages id n t calm)
              (read_messages id n _ refl)
        | inl there ↦
            let row = new_message message t.clock in
            let enough : n ≤ length (oldest_first created old) =
              rw (oldest_first-length created old) full in
            rw (create_message_stored there, read_messages id n t calm)
              (read_messages id n _ refl
                ∙ ap ok (
                    rw
                      (
                        messages_of_append id t.messages row (own_session id),
                        oldest_first_append created old row older,
                      )
                      (limit_to_append (oldest_first created old) (row ∷ []) n enough)))
      ]

  -- the new message comes last, after the `n` newest of those before
  get_recent_messages-create_message :
      (n : ℕ)
      → has_row (λ (s : Session). s.id) message.session_id t.sessions ≡ true
      → AllBefore
          (λ (m : Message). m.created_at)
          t.clock
          (messages_of message.session_id t.messages)
      → (get_recent_messages message.session_id (pos (suc n)) (create_message message t).1).0
        ≡ ok (
            oldest_first
              (λ (m : Message). m.created_at)
              (limit_to
                (newest_first
                  (λ (m : Message). m.created_at)
                  (messages_of message.session_id t.messages))
                n)
            ++ new_message message t.clock ∷ [])
  unfolding new_message limit_to oldest_first
  get_recent_messages-create_message n there older =
      let created : Message → ℕ = λ m. m.created_at in
      let id = message.session_id in
      let row = new_message message t.clock in
      let old = messages_of id t.messages in
      let recent = limit_to (newest_first created old) n in
      let before : AllBefore created t.clock (oldest_first created recent) =
        oldest_first-AllBefore created t.clock recent (
          limit_to-AllBefore created t.clock (newest_first created old) n
            (newest_first-AllBefore created t.clock old older)) in
      rw (create_message_stored there) (
        read_recent id (suc n) _ refl
        ∙ ap ok (
            rw
              (
                messages_of_append id t.messages row (own_session id),
                newest_first_append created old row older,
              )
              (insert_oldest_last created row (oldest_first created recent) before)))

  -- A message that is added to a session comes last among its recent messages, whatever their number
  -- is, after as many of the newest before it as the limit leaves. But once the session has as many
  -- messages as are asked for, the message is not among those that get_messages returns, which are the
  -- oldest, as before. The session is there, its messages are older than the clock, and the database
  -- answers.
  pub create_message-reads :
      (n : ℕ)
      → has_row (λ (s : Session). s.id) message.session_id t.sessions ≡ true
      → AllBefore
          (λ (m : Message). m.created_at)
          t.clock
          (messages_of message.session_id t.messages)
      → suc n ≤ length (messages_of message.session_id t.messages)
      → ((get_recent_messages message.session_id (pos (suc n)) (create_message message t).1).0
          ≡ ok (
              oldest_first
                (λ (m : Message). m.created_at)
                (limit_to
                  (newest_first
                    (λ (m : Message). m.created_at)
                    (messages_of message.session_id t.messages))
                  n)
              ++ new_message message t.clock ∷ []))
        × ((get_messages message.session_id (pos (suc n)) (create_message message t).1).0
            ≡ (get_messages message.session_id (pos (suc n)) t).0)
  create_message-reads n there older full = (
    get_recent_messages-create_message n there older,
    get_messages-create_message (suc n) older full,
  )
