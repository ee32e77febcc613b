-- ===== src/Routes/Messages.antt =====
-- crates/sovalune-api/src/routes/sessions.rs: the messages that the route answers with after one is added.
use sovalune_core.Common.{ℕ, ◌≤◌, ◌≡◌, refl, ap, Option, some, [], length}
use mathlib.Core.Option
use sovalune_core.Text.{Text, codes}
use sovalune_core.Json.{Json, as_str}
use sovalune_core.Json
use sovalune_core.Storage.{Message, CreateMessage, Tables}
use sovalune_core.Storage.Sessions.{messages_of, create_message}
use sovalune_core.Storage.Ordering.{AllBefore}
use sovalune_core.Storage.History.{get_messages-create_message}
use sovalune_core.Routes.{reply, respond, data_json}
use sovalune_core.Routes.Sessions.{message_json, added, uuid_at, messages, add_message}

module _ (parse_uuid : Text → Option ℕ) (new_uuid id : ℕ) (body : Json) (role content : Text) where
  -- the message of a request that has both of its fields
  asked_message : CreateMessage
  asked_message = record {
    session_id = id;
    role = role;
    content = content;
    tool_call = Json.get (codes "tool_call") body;
    request_id = Option.get_or (uuid_at parse_uuid (codes "request_id") body) new_uuid;
  }

  module _ (print_uuid to_rfc3339 : ℕ → Text) (t : Tables)
      (has_role : as_str (Json.at (codes "role") body) ≡ some role)
      (has_content : as_str (Json.at (codes "content") body) ≡ some content) where
    add_message_asked :
        add_message print_uuid to_rfc3339 parse_uuid new_uuid id body t
        ≡ respond (added print_uuid to_rfc3339) (create_message asked_message t)
    unfolding add_message asked_message
    add_message_asked = rw (has_role, has_content, add_message) refl

    -- The route of the messages of a session with 100 messages answers the same after another is
    -- added over its route as before: the new message is not shown. The body has a role and a
    -- content, the messages there are older than the clock, and the database answers.
    pub messages-add_message :
        t.faults ≡ []
        → AllBefore (λ (m : Message). m.created_at) t.clock (messages_of id t.messages)
        → 100 ≤ length (messages_of id t.messages)
        → (messages print_uuid to_rfc3339 id
            (add_message print_uuid to_rfc3339 parse_uuid new_uuid id body t).1).0
          ≡ (messages print_uuid to_rfc3339 id t).0
    unfolding messages respond asked_message
    messages-add_message calm older full = rw add_message_asked (
        ap (reply (data_json (message_json print_uuid to_rfc3339)))
          (get_messages-create_message t asked_message calm 100 older full))
