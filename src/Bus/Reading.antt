-- ===== src/Bus/Reading.antt =====
-- crates/sovalune-bus/src/lib.rs: what the derived `Deserialize` reads of the messages that are
-- subscribed. A field that occurs twice is refused, one that is not known is passed over, an `Option`
-- may be left out, and a record that is not flattened is also read from an array of its fields.
use mathlib.Core.Option
use sovalune_core.Common.{Bool, Option, none, some, List, [], ◌∷◌, if◌then◌else◌}
use sovalune_core.Text.{Text, codes, text_eq}
use sovalune_core.Json.{Json, as_str, null, boolean, array, object, Fields, end, field, elements}
use sovalune_core.Bus.{
  InferencePayload, delta, done, InferenceResponse, ToolResult, TrainingJobResult,
}

-- `?` on an `Option`
infixl 5 ◌>>=◌
abbrev ◌>>=◌ : {A B : Type 0} → Option A → (A → Option B) → Option B
none >>= f = none
some a >>= f = f a

unfoldable pub first_of : Json → Option (Option Json) → Option (Option Json)
first_of j (some none) = some (some j)
first_of j _ = none

-- `none` where the field occurs twice
unfoldable pub take_field : Text → Fields → Option (Option Json)
unfolding first_of
take_field key end = some none
take_field key (field k j rest) =
    let later = take_field key rest in if text_eq key k then first_of j later else later

unfoldable pub read_bool : Json → Option Bool
read_bool (boolean b) = some b
read_bool _ = none

unfoldable pub read_optional : {A : Type 0} → (Json → Option A) → Json → Option (Option A)
read_optional read null = some none
read_optional read j = Option.map some (read j)

-- a field that has to be there
unfoldable pub present : {A : Type 0} → (Json → Option A) → Option (Option Json) → Option A
present read (some (some j)) = read j
present read _ = none

-- a field that may be left out
unfoldable pub perhaps : {A : Type 0} → (Json → Option A) → Option (Option Json) → Option (Option A)
unfolding read_optional
perhaps read (some (some j)) = read_optional read j
perhaps read (some none) = some none
perhaps read none = none

unfoldable pub result_of :
    Option Text → Option Bool → Option (Option Json) → Option (Option Text) → Option ToolResult
result_of request_id ok result error = do
  request_id ← request_id
  ok ← ok
  result ← result
  error ← error
  some (record { request_id = request_id; ok = ok; result = result; error = error })

unfoldable pub result_of_elements : List Json → Option ToolResult
unfolding result_of as_str read_bool read_optional
result_of_elements (request_id ∷ ok ∷ result ∷ error ∷ []) =
    result_of (as_str request_id) (read_bool ok) (read_optional some result)
      (read_optional as_str error)
result_of_elements _ = none

unfoldable pub read_result : Json → Option ToolResult
unfolding result_of result_of_elements present perhaps as_str read_bool take_field elements
read_result (object fs) =
    result_of (present as_str (take_field (codes "request_id") fs))
      (present read_bool (take_field (codes "ok") fs))
      (perhaps some (take_field (codes "result") fs))
      (perhaps as_str (take_field (codes "error") fs))
read_result (array js) = result_of_elements (elements js)
read_result _ = none

unfoldable pub job_result_of :
    Option Text
    → Option Bool
    → Option (Option Text)
    → Option Json
    → Option (Option Text)
    → Option TrainingJobResult
job_result_of job_id ok artifact_uri metrics error = do
  job_id ← job_id
  ok ← ok
  artifact_uri ← artifact_uri
  metrics ← metrics
  error ← error
  some (record {
    job_id = job_id;
    ok = ok;
    artifact_uri = artifact_uri;
    metrics = metrics;
    error = error;
  })

unfoldable pub job_result_of_elements : List Json → Option TrainingJobResult
unfolding job_result_of as_str read_bool read_optional
job_result_of_elements (job_id ∷ ok ∷ artifact_uri ∷ metrics ∷ error ∷ []) =
    job_result_of (as_str job_id) (read_bool ok) (read_optional as_str artifact_uri) (some metrics)
      (read_optional as_str error)
job_result_of_elements _ = none

unfoldable pub read_job_result : Json → Option TrainingJobResult
unfolding job_result_of job_result_of_elements present perhaps as_str read_bool take_field elements
read_job_result (object fs) =
    job_result_of (present as_str (take_field (codes "job_id") fs))
      (present read_bool (take_field (codes "ok") fs))
      (perhaps as_str (take_field (codes "artifact_uri") fs))
      (present some (take_field (codes "metrics") fs))
      (perhaps as_str (take_field (codes "error") fs))
read_job_result (array js) = job_result_of_elements (elements js)
read_job_result _ = none

-- the untagged payload: the first of its two forms that fits
unfoldable pub read_done : Option Bool → Option Text → Option InferencePayload
read_done finished message_id = do
  finished ← finished
  message_id ← message_id
  some (done finished message_id)

unfoldable pub read_payload : Fields → Option InferencePayload
unfolding read_done present as_str read_bool take_field
read_payload fs = elim (present as_str (take_field (codes "delta") fs)) [
  | some text ↦ some (delta text)
  | none ↦
      read_done (present read_bool (take_field (codes "done") fs))
        (present as_str (take_field (codes "message_id") fs))
]

unfoldable pub response_of : Option Text → Option InferencePayload → Option InferenceResponse
response_of request_id payload = do
  request_id ← request_id
  payload ← payload
  some (record { request_id = request_id; payload = payload })

-- the payload is flattened into the fields of the response
unfoldable pub read_response : Json → Option InferenceResponse
unfolding response_of present as_str take_field read_payload
read_response (object fs) =
    response_of (present as_str (take_field (codes "request_id") fs)) (read_payload fs)
read_response _ = none
