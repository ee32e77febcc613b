-- ===== src/Bus/Wire.antt =====
-- crates/sovalune-bus/src/lib.rs: what is read of a message that was written.

use sovalune_core.Common.{◌≡◌, refl, Option, none, some}
use sovalune_core.Text.{Text, text_eq}
use sovalune_core.Json.{
  Json, null, boolean, number, decimal, string, array, object, fields, object_of, as_str,
}
use sovalune_core.Bus.{
  InferencePayload, delta, done, InferenceResponse, ToolResult, TrainingJobResult, optional,
  result_json, job_result_json, response_json, payload_fields,
}
use sovalune_core.Bus.Reading.{
  first_of, take_field, read_bool, read_optional, present, perhaps, result_of, read_result,
  job_result_of, read_job_result, read_done, read_payload, response_of, read_response,
}

-- a value of null is read as none
unfoldable pub settled : Option Json → Option Json
settled (some null) = none
settled result = result

optional_any :
    (result : Option Json) → read_optional some (optional (λ j. j) result) ≡ some (settled result)
unfolding read_optional optional settled
optional_any none = refl
optional_any (some null) = refl
optional_any (some (boolean b)) = refl
optional_any (some (number n)) = refl
optional_any (some (decimal t)) = refl
optional_any (some (string t)) = refl
optional_any (some (array js)) = refl
optional_any (some (object fs)) = refl

optional_text : (t : Option Text) → read_optional as_str (optional string t) ≡ some t
unfolding read_optional optional as_str
optional_text none = refl
optional_text (some t) = refl

-- A result of a tool that was written is read as it was, but a result of null is read as none.
pub read_result-result_json :
    (r : ToolResult) → read_result (result_json r) ≡ some (record r { result = settled r.result })
unfolding read_result result_json object_of fields take_field first_of text_eq present perhaps
    as_str read_bool result_of
read_result-result_json r = rw (optional_any r.result, optional_text r.error) refl

-- A result of a training job that was written is read as it was.
pub read_job_result-job_result_json :
    (r : TrainingJobResult) → read_job_result (job_result_json r) ≡ some r
unfolding read_job_result job_result_json object_of fields take_field first_of text_eq present
    perhaps as_str read_bool job_result_of
read_job_result-job_result_json r = rw (optional_text r.artifact_uri, optional_text r.error) refl

response_read :
    (request_id : Text) (payload : InferencePayload)
    → read_response (response_json (record { request_id = request_id; payload = payload }))
      ≡ some (record { request_id = request_id; payload = payload })
unfolding read_response response_json payload_fields take_field first_of text_eq present as_str
    read_bool read_payload read_done response_of
response_read request_id (delta text) = refl
response_read request_id (done finished message_id) = refl

-- A response of the model that was written is read as it was: its two untagged forms are not mixed up.
pub read_response-response_json : (r : InferenceResponse) → read_response (response_json r) ≡ some r
read_response-response_json r = response_read r.request_id r.payload
