-- ===== src/Storage/Sessions.antt =====
-- crates/sovalune-storage-client/src/repositories/session.rs: each method by what its query does to the
-- tables. A row that names a project or a session that is not there is refused, as the references of
-- migration 003 have it.
use sovalune_core.Common.{ℕ, Option, List, [], ◌∷◌, ◌++◌, Result, ok, err, ◌==◌, if◌then◌else◌}
use sovalune_core.Text.{Text, codes}
use sovalune_core.Storage.{
  Project, Session, Message, CreateMessage, Int64, M, statement, query, page, limited, newest_first,
  oldest_first,
}
use sovalune_core.Storage.Projects.{find_row, has_row, keep}

unfoldable pub create_session : ℕ → M Session
unfolding statement has_row
create_session project_id = statement (λ t.
    let row : Session = record { id = t.clock; project_id = project_id; created_at = t.clock } in
    if has_row (λ (p : Project). p.id) project_id t.projects
    then ok (row, record t { sessions = t.sessions ++ row ∷ [] })
    else err (codes "violates foreign key constraint"))

unfoldable pub get_session : ℕ → M (Option Session)
unfolding query find_row
get_session id = query (λ t. ok (find_row (λ (s : Session). s.id) id t.sessions))

unfoldable pub list_sessions : ℕ → Int64 → Int64 → M (List Session)
unfolding query page newest_first keep
list_sessions project_id limit offset = query (λ t. page limit offset (
    newest_first (λ (s : Session). s.created_at)
      (keep (λ (s : Session). s.project_id == project_id) t.sessions)))

unfoldable pub new_message : CreateMessage → ℕ → Message
new_message message now = record {
  id = now;
  session_id = message.session_id;
  role = message.role;
  content = message.content;
  tool_call = message.tool_call;
  request_id = message.request_id;
  created_at = now;
}

unfoldable pub create_message : CreateMessage → M Message
unfolding statement has_row new_message
create_message message = statement (λ t.
    let row = new_message message t.clock in
    if has_row (λ (s : Session). s.id) message.session_id t.sessions
    then ok (row, record t { messages = t.messages ++ row ∷ [] })
    else err (codes "violates foreign key constraint"))

unfoldable pub messages_of : ℕ → List Message → List Message
unfolding keep
messages_of session_id messages = keep (λ (m : Message). m.session_id == session_id) messages

unfoldable pub get_messages : ℕ → Int64 → M (List Message)
unfolding query limited oldest_first messages_of
get_messages session_id limit = query (λ t.
    limited limit
      (oldest_first (λ (m : Message). m.created_at) (messages_of session_id t.messages)))

-- the answer of the inner query, in the order of the outer one
unfoldable pub in_order : Result (List Message) Text → Result (List Message) Text
unfolding oldest_first
in_order (ok rows) = ok (oldest_first (λ (m : Message). m.created_at) rows)
in_order (err e) = err e

unfoldable pub get_recent_messages : ℕ → Int64 → M (List Message)
unfolding query limited newest_first messages_of in_order
get_recent_messages session_id limit = query (λ t. in_order (
    limited limit
      (newest_first (λ (m : Message). m.created_at) (messages_of session_id t.messages))))
