-- ===== src/Routes.antt =====
-- crates/sovalune-api/src/routes: the answer of a handler, a status with a body. Identifiers and times
-- are printed by parameters, and `parse_uuid` is `Uuid::parse_str`; a row of the database that is
-- refused is answered with the text of its error.
pub mod Projects
pub mod Sessions
pub mod Messages
use mathlib.Core.Option
use sovalune_core.Common.{ℕ, Option, none, some, List, [], ◌∷◌, Result, ok, err, leb, if◌then◌else◌}
use sovalune_core.Text.{Text, codes}
use sovalune_core.Json.{Json, string, array, items, object_of}
use sovalune_core.Storage.{Int64, pos, negsuc, Tables, M}

-- a body, or a status and a body
abbrev pub Response : Type 0
Response = Result Json (ℕ × Json)

unfoldable pub error_json : Text → Text → Json
error_json code message = object_of (
    (
      codes "error",
      object_of ((codes "code", string code) ∷ (codes "message", string message) ∷ []),
    )
    ∷ [])

unfoldable pub internal_error : Text → Response
internal_error e = err (500, error_json (codes "INTERNAL_ERROR") e)

unfoldable pub validation_error : Text → Response
validation_error message = err (400, error_json (codes "VALIDATION_ERROR") message)

unfoldable pub not_found : Text → Response
not_found message = err (404, error_json (codes "NOT_FOUND") message)

-- what is answered to a result of the repository
unfoldable pub reply : {A : Type 0} → (A → Response) → Result A Text → Response
unfolding internal_error
reply answer (ok a) = answer a
reply answer (err e) = internal_error e

unfoldable pub respond : {A : Type 0} → (A → Response) → Result A Text × Tables → Response × Tables
unfolding reply
respond answer x = (reply answer x.0, x.1)

unfoldable pub mapped : {A : Type 0} → (A → Json) → List A → List Json
mapped write [] = []
mapped write (a ∷ rest) = write a ∷ mapped write rest

unfoldable pub data_json : {A : Type 0} → (A → Json) → List A → Response
unfolding mapped
data_json write rows = ok (object_of ((codes "data", array (items (mapped write rows))) ∷ []))

-- `limit.unwrap_or(20).min(100)`
unfoldable pub at_most_100 : Int64 → Int64
at_most_100 (pos n) = if leb n 100 then pos n else pos 100
at_most_100 (negsuc n) = negsuc n

unfoldable pub limit_of : Option Int64 → Int64
unfolding at_most_100
limit_of limit = at_most_100 (Option.get_or limit (pos 20))

unfoldable pub offset_of : Option Int64 → Int64
offset_of offset = Option.get_or offset (pos 0)
