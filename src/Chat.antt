-- ===== src/Chat.antt =====
-- crates/sovalune-api/src/routes/ws.rs: the messages of the chat, and what the socket does with each that
-- arrives. A token of cancellation is a number; `cancelled` are those that have been cancelled. A spawned
-- task waits in `tasks`: it runs beside the handler, as Chat/Generation.antt has it.
pub mod Prompt
pub mod Generation
pub mod Sessions
use sovalune_core.Common.{
  ℕ, suc, ◌+◌, Bool, true, false, Option, none, some, List, [], ◌∷◌, ◌++◌, Outcome, returns, panics,
  Result, ok, err, if◌then◌else◌,
}
use sovalune_core.HashMap.{HashMap, lookup}
use sovalune_core.HashMap
use sovalune_core.Text.{Text, codes}
use sovalune_core.Text.Equality.{text_discrete}
use sovalune_core.Json.{Json}
use sovalune_core.Retry.Loop.{logged_prefix}

pub data ClientMessage : Type 0 where
  user_message : Text → Text → Text → ClientMessage
  stop_generation : Text → ClientMessage
  join_session : Text → Text → ClientMessage

pub data ServerMessage : Type 0 where
  token : Text → Text → ServerMessage
  tool_call_started : Text → Text → Json → ServerMessage
  tool_call_finished : Text → Text → Text → ServerMessage
  message_complete : Text → Text → ServerMessage
  learning_cycle_update : Text → Text → Json → ServerMessage
  error : Text → Text → ServerMessage

-- what a task is given: of a memory its tier and content, of a message its role and content
pub record Task : Type 0 where
  pub session_id : Text
  pub project_id : Text
  pub content : Text
  pub memory_entries : List (Text × Text)
  pub history : List (Text × Text)
  pub cancel_token : ℕ

pub record Socket : Type 0 where
  pub sent : List ServerMessage
  pub saved : List (Text × Text)
  pub cancel_tokens : HashMap Text ℕ
  pub cancelled : List ℕ
  pub next_token : ℕ
  pub tasks : List Task

unfoldable pub new : Socket
new = record {
  sent = [];
  saved = [];
  cancel_tokens = [];
  cancelled = [];
  next_token = 0;
  tasks = [];
}

unfoldable pub send_error : Text → Text → Socket → Socket
send_error code message s = record s { sent = s.sent ++ error code message ∷ [] }

-- the services that the handler calls, each with what it answers to this message
pub record Services : Type 0 where
  pub parse_uuid : Text → Result ℕ Text
  pub create_message : Text → Text → Result (Unit {0}) Text
  pub search_by_text_with_embedding : Text → Result (List (Text × Text)) Text
  -- the fallback, `MemoryRepository::list`
  pub list : Text → Result (List (Text × Text)) Text
  pub get_recent_messages : Text → Result (List (Text × Text)) Text

-- `unwrap_or_default`
unfoldable pub or_default : Result (List (Text × Text)) Text → List (Text × Text)
or_default (ok found) = found
or_default (err e) = []

module _ (services : Services) where
  open services use {
    parse_uuid, create_message, search_by_text_with_embedding, list, get_recent_messages,
  }

  unfoldable pub find_memory : Text → List (Text × Text)
  unfolding or_default
  find_memory content = elim (search_by_text_with_embedding content) [
    | ok found ↦ found
    | err e ↦ or_default (list content)
  ]

  -- the message is stored, its context is loaded and the generation is spawned
  unfoldable pub start_generation : Text → Text → Text → Socket → Socket
  unfolding find_memory or_default
  start_generation session_id project_id content s = record s {
    saved = s.saved ++ (codes "user", content) ∷ [];
    cancel_tokens = HashMap.insert text_discrete session_id s.next_token s.cancel_tokens;
    next_token = s.next_token + 1;
    tasks =
        s.tasks
        ++ record {
          session_id = session_id;
          project_id = project_id;
          content = content;
          memory_entries = find_memory content;
          history = or_default (get_recent_messages session_id);
          cancel_token = s.next_token;
        }
          ∷ [];
  }

  unfoldable pub accept_message : Text → Text → Text → Socket → Socket
  unfolding start_generation send_error
  accept_message session_id project_id content s = elim (parse_uuid session_id) [
    | err e ↦ send_error (codes "INVALID_SESSION") (codes "Invalid session ID: " ++ e) s
    | ok _ ↦ elim (parse_uuid project_id) [
      | err e ↦ send_error (codes "INVALID_PROJECT") (codes "Invalid project ID: " ++ e) s
      | ok _ ↦ elim (create_message (codes "user") content) [
        | err e ↦ send_error (codes "DB_ERROR") (codes "Failed to save message: " ++ e) s
        | ok _ ↦ start_generation session_id project_id content s
      ]
    ]
  ]

  -- `info!` prints the head of the content
  unfoldable pub handle_user_message : Bool → Text → Text → Text → Socket → Outcome Socket
  unfolding accept_message
  handle_user_message logs session_id project_id content s = elim (logged_prefix logs 50 content) [
    | panics ↦ panics
    | returns _ ↦ returns (accept_message session_id project_id content s)
  ]

  unfoldable pub handle_stop : Text → Socket → Socket
  handle_stop session_id s = elim (lookup text_discrete session_id s.cancel_tokens) [
    | none ↦ s
    | some t ↦ record s { cancelled = t ∷ s.cancelled }
  ]

  -- a text that arrives, as serde reads it
  unfoldable pub handle_text : Bool → Result ClientMessage Text → Socket → Outcome Socket
  unfolding handle_user_message handle_stop send_error
  handle_text logs (err e) s =
      returns (send_error (codes "PARSE_ERROR") (codes "Invalid message format: " ++ e) s)
  handle_text logs (ok (user_message session_id project_id content)) s =
      handle_user_message logs session_id project_id content s
  handle_text logs (ok (join_session session_id project_id)) s = returns s
  handle_text logs (ok (stop_generation session_id)) s = returns (handle_stop session_id s)
