-- ===== src/Tests/BackendTests.antt =====
-- The backends at concrete inputs. The reader of JSON knows one chunk.
use sovalune_core.Common.{
  ◌≡◌, refl, Option, none, some, List, [], ◌∷◌, ◌++◌, map, filter, ok, if◌then◌else◌,
}
use sovalune_core.Tests.Thousandths.{thousandths}
use sovalune_core.Text.{Text, codes, text_eq}
use sovalune_core.Types.{ContextSection, InferenceRequest, InferenceError, TokenEvent}
use sovalune_core.Types
use sovalune_core.Backend.Sse.{StreamChunk, token, done, text_events, token_stream}
use sovalune_core.Backend.OpenAi.{OpenAiBackend, build_request, max_context_tokens}
use sovalune_core.Backend.OpenAi
use sovalune_core.Backend.Lines.{concat, token_stream-concat}
use sovalune_core.Backend.Requests.{is_sent, system_message, user_message, build_request_messages}

abbrev hello : StreamChunk
hello = record { choices = record { content = some (codes "Hi"); finish_reason = none } ∷ [] }

abbrev stop : StreamChunk
stop = record { choices = record { content = none; finish_reason = some (codes "stop") } ∷ [] }

abbrev read : Text → Option StreamChunk
read t =
    if text_eq t (codes "{hi}")
    then some hello
    else if text_eq t (codes "{stop}")
    then some stop
    else none

abbrev newline : Text
newline = 10 ∷ []

-- a body in two chunks, cut at the end of a line
abbrev chunks : List Text
chunks = (codes "data: {hi}" ++ newline) ∷ (codes "data: [DONE]" ++ newline) ∷ []

token_stream-concat_example :
    token_stream 7 read (map ok chunks) ≡ text_events 7 read (concat chunks)
token_stream-concat_example =
    token_stream-concat 7 read chunks
      ((codes "data: {hi}", refl), ((codes "data: [DONE]", refl), tt))

whole_line :
    token_stream 7 read (ok (codes "data: {hi}" ++ newline) ∷ []) ≡ ok (token 7 (codes "Hi")) ∷ []
unfolding token_stream sovalune_core.Text.Pieces.lines sovalune_core.Text.Pieces.lines_from
    sovalune_core.Text.Pieces.trim_matches sovalune_core.Text.Pieces.trim_start
    sovalune_core.Text.is_whitespace sovalune_core.Text.starts_with
    sovalune_core.Text.Pieces.strip_prefix text_eq
whole_line = refl

-- the same line, cut in the middle: both halves are dropped
cut_line : token_stream 7 read (ok (codes "data: {h") ∷ ok (codes "i}" ++ newline) ∷ []) ≡ []
unfolding token_stream sovalune_core.Text.Pieces.lines sovalune_core.Text.Pieces.lines_from
    sovalune_core.Text.Pieces.trim_matches sovalune_core.Text.Pieces.trim_start
    sovalune_core.Text.is_whitespace sovalune_core.Text.starts_with
    sovalune_core.Text.Pieces.strip_prefix text_eq
cut_line = refl

-- the last chunk's reason to finish and the end marker each make an event
two_ends :
    token_stream 7 read (
      ok (codes "data: {stop}" ++ (newline ++ (newline ++ (codes "data: [DONE]" ++ newline)))) ∷ [])
    ≡ ok (done 7) ∷ ok (done 7) ∷ []
unfolding token_stream sovalune_core.Text.Pieces.lines sovalune_core.Text.Pieces.lines_from
    sovalune_core.Text.Pieces.trim_matches sovalune_core.Text.Pieces.trim_start
    sovalune_core.Text.is_whitespace sovalune_core.Text.starts_with
    sovalune_core.Text.Pieces.strip_prefix text_eq
two_ends = refl

abbrev section : Text → Text → ContextSection
section role content = record { role = role; content = content; priority = 0; token_estimate = 1 }

abbrev request : InferenceRequest thousandths
request = record {
  id = 7;
  session_id = codes "s";
  project_id = codes "p";
  context =
      section (codes "system") (codes "Be brief") ∷ section (codes "user") (codes "Hello") ∷ [];
  user_input = [];
  config = Types.default thousandths;
}

abbrev backend : OpenAiBackend
backend = OpenAi.new (codes "http://h/") (codes "k") (codes "gpt-4o-mini") 120

build_request_messages_example :
    (build_request thousandths backend request).messages
    ≡ map system_message (filter is_sent request.context) ++ user_message [] ∷ []
build_request_messages_example = build_request_messages thousandths backend request
