-- ===== src/Routes/Sessions.antt =====
-- crates/sovalune-api/src/routes/sessions.rs. `new_uuid` is the identifier that is taken where the
-- request gives none.
use mathlib.Core.Option
use sovalune_core.Common.{ℕ, Option, none, some, [], ◌∷◌, ok}
use sovalune_core.Text.{Text, codes}
use sovalune_core.Json.{Json, null, as_str, string, object_of}
use sovalune_core.Json
use sovalune_core.Storage.{Session, Message, Int64, pos, Tables}
use sovalune_core.Storage.Sessions.{list_sessions, create_session, get_messages, create_message}
use sovalune_core.Routes.{Response, validation_error, respond, data_json, limit_of, offset_of}

-- a field of the body that is an identifier
unfoldable pub uuid_at : (Text → Option ℕ) → Text → Json → Option ℕ
uuid_at parse_uuid key body = elim (as_str (Json.at key body)) [
  | none ↦ none
  | some text ↦ parse_uuid text
]

module _ (print_uuid to_rfc3339 : ℕ → Text) where
  unfoldable pub session_json : Session → Json
  session_json s = object_of (
      (codes "id", string (print_uuid s.id))
      ∷ (codes "project_id", string (print_uuid s.project_id))
      ∷ (codes "created_at", string (to_rfc3339 s.created_at))
      ∷ [])

  unfoldable pub message_json : Message → Json
  message_json m = object_of (
      (codes "id", string (print_uuid m.id))
      ∷ (codes "session_id", string (print_uuid m.session_id))
      ∷ (codes "role", string m.role)
      ∷ (codes "content", string m.content)
      ∷ (codes "tool_call", Option.get_or m.tool_call null)
      ∷ (codes "request_id", string (print_uuid m.request_id))
      ∷ (codes "created_at", string (to_rfc3339 m.created_at))
      ∷ [])

  unfoldable pub list : Option ℕ → Option Int64 → Option Int64 → Tables → Response × Tables
  unfolding respond data_json limit_of offset_of session_json validation_error
  list (some project_id) limit offset t =
      respond (data_json session_json)
        (list_sessions project_id (limit_of limit) (offset_of offset) t)
  list none limit offset t = (validation_error (codes "project_id is required"), t)

  unfoldable pub created : Session → Response
  unfolding session_json
  created s = ok (session_json s)

  unfoldable pub added : Message → Response
  unfolding message_json
  added m = ok (message_json m)

  unfoldable pub create : (Text → Option ℕ) → Json → Tables → Response × Tables
  unfolding respond created uuid_at
  create parse_uuid body t = elim (uuid_at parse_uuid (codes "project_id") body) [
    | none ↦ (validation_error (codes "project_id is required"), t)
    | some project_id ↦ respond created (create_session project_id t)
  ]

  unfoldable pub messages : ℕ → Tables → Response × Tables
  unfolding respond data_json message_json
  messages id t = respond (data_json message_json) (get_messages id (pos 100) t)

  unfoldable pub add_message : (Text → Option ℕ) → ℕ → ℕ → Json → Tables → Response × Tables
  unfolding respond added uuid_at
  add_message parse_uuid new_uuid id body t = elim (as_str (Json.at (codes "role") body)) [
    | none ↦ (validation_error (codes "role is required"), t)
    | some role ↦ elim (as_str (Json.at (codes "content") body)) [
      | none ↦ (validation_error (codes "content is required"), t)
      | some content ↦ respond added (
          create_message
            (record {
              session_id = id;
              role = role;
              content = content;
              tool_call = Json.get (codes "tool_call") body;
              request_id = Option.get_or (uuid_at parse_uuid (codes "request_id") body) new_uuid;
            })
            t)
    ]
  ]
