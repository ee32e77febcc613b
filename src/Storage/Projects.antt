-- ===== src/Storage/Projects.antt =====
-- crates/sovalune-storage-client/src/repositories/project.rs: each method by what its query does to the
-- tables. The sessions of a project that is deleted go with it, and their messages with them.
use mathlib.Core.Option
use sovalune_core.Common.{
  ℕ, Bool, false, not, ◌||◌, Option, none, some, List, [], ◌∷◌, ◌++◌, ok, ◌==◌, map, if◌then◌else◌,
}
use sovalune_core.Json.{object_of}
use sovalune_core.Storage.{
  Project, CreateProject, UpdateProject, Session, Message, Tables, Int64, M, pure, ◌>>◌, statement,
  query, page, newest_first,
}

-- `WHERE id = $1`
unfoldable pub find_row : {A : Type 0} → (A → ℕ) → ℕ → List A → Option A
find_row id_of id [] = none
find_row id_of id (a ∷ rest) =
    let later = find_row id_of id rest in if id_of a == id then some a else later

unfoldable pub keep : {A : Type 0} → (A → Bool) → List A → List A
keep test [] = []
keep test (a ∷ rest) = let later = keep test rest in if test a then a ∷ later else later

unfoldable pub has_row : {A : Type 0} → (A → ℕ) → ℕ → List A → Bool
has_row id_of id [] = false
has_row id_of id (a ∷ rest) = (id_of a == id) || has_row id_of id rest

unfoldable pub create : CreateProject → M Project
unfolding statement
create project = statement (λ t.
    let row : Project = record {
      id = t.clock;
      name = project.name;
      settings = Option.get_or project.settings (object_of []);
      created_at = t.clock;
    } in
    ok (row, record t { projects = t.projects ++ row ∷ [] }))

unfoldable pub get : ℕ → M (Option Project)
unfolding query find_row
get id = query (λ t. ok (find_row (λ (p : Project). p.id) id t.projects))

unfoldable pub changed : ℕ → (Project → Project) → Project → Project
changed id change p = if p.id == id then change p else p

-- one of the statements of `update`, if its value is given
unfoldable pub set_field : {A : Type 0} → ℕ → Option A → (A → Project → Project) → M (Unit {0})
unfolding statement changed pure
set_field id none change = pure tt
set_field id (some a) change =
    statement (λ t. ok (tt, record t { projects = map (changed id (change a)) t.projects }))

unfoldable pub update : ℕ → UpdateProject → M (Option Project)
unfolding ◌>>◌ set_field get
update id u = do
  set_field id u.name (λ name p. record p { name = name })
  set_field id u.settings (λ settings p. record p { settings = settings })
  get id

unfoldable pub list : Int64 → Int64 → M (List Project)
unfolding query page newest_first
list limit offset =
    query (λ t. page limit offset (newest_first (λ (p : Project). p.created_at) t.projects))

-- `ON DELETE CASCADE` of both tables
unfoldable pub without_project : ℕ → Tables → Tables
unfolding keep has_row
without_project id t =
    let gone = keep (λ (s : Session). s.project_id == id) t.sessions in
    record t {
      projects = keep (λ (p : Project). not (p.id == id)) t.projects;
      sessions = keep (λ (s : Session). not (s.project_id == id)) t.sessions;
      messages =
          keep (λ (m : Message). not (has_row (λ (s : Session). s.id) m.session_id gone))
            t.messages;
    }

unfoldable pub delete : ℕ → M (Unit {0})
unfolding statement without_project
delete id = statement (λ t. ok (tt, without_project id t))
