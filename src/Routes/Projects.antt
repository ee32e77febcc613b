-- ===== src/Routes/Projects.antt =====
-- crates/sovalune-api/src/routes/projects.rs.

use sovalune_core.Common.{ℕ, Option, none, some, [], ◌∷◌, ok}
use sovalune_core.Text.{Text, codes}
use sovalune_core.Json.{Json, as_str, string, object_of}
use sovalune_core.Json
use sovalune_core.Storage.{Project, Int64, Tables}
use sovalune_core.Storage.Projects as Repository
use sovalune_core.Routes.{
  Response, validation_error, not_found, respond, data_json, limit_of, offset_of,
}

module _ (print_uuid to_rfc3339 : ℕ → Text) where
  -- `ProjectResponse`, and what the other handlers answer
  unfoldable pub project_json : Project → Json
  project_json p = object_of (
      (codes "id", string (print_uuid p.id))
      ∷ (codes "name", string p.name)
      ∷ (codes "settings", p.settings)
      ∷ (codes "created_at", string (to_rfc3339 p.created_at))
      ∷ [])

  unfoldable pub list : Option Int64 → Option Int64 → Tables → Response × Tables
  unfolding respond data_json limit_of offset_of project_json
  list limit offset t =
      respond (data_json project_json) (Repository.list (limit_of limit) (offset_of offset) t)

  unfoldable pub created : Project → Response
  unfolding project_json
  created p = ok (project_json p)

  unfoldable pub create : Json → Tables → Response × Tables
  unfolding respond created
  create body t = elim (as_str (Json.at (codes "name") body)) [
    | none ↦ (validation_error (codes "name is required"), t)
    | some name ↦
        respond created (
          Repository.create (record { name = name; settings = Json.get (codes "settings") body }) t)
  ]

  unfoldable pub found : Option Project → Response
  unfolding project_json not_found
  found (some p) = ok (project_json p)
  found none = not_found (codes "Project not found")

  unfoldable pub get : ℕ → Tables → Response × Tables
  unfolding respond found
  get id t = respond found (Repository.get id t)
