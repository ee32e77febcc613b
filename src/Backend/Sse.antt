-- ===== src/Backend/Sse.antt =====
-- crates/sovalune-model-runtime/src/backend/openai.rs: the lines of the event stream. A chunk of the
-- body is kept as the text that `from_utf8_lossy` makes of it; `from_str` is serde's reading of a
-- `StreamChunk`.
use mathlib.Core.Option
use sovalune_core.Common.{
  ℕ, true, false, ◌||◌, Option, none, some, List, [], ◌∷◌, ◌++◌, Result, ok, err, if◌then◌else◌,
}
use sovalune_core.Text.{Text, codes, text_eq, starts_with, is_whitespace, is_empty}
use sovalune_core.Text.Pieces.{lines, trim_matches, strip_prefix}
use sovalune_core.Types.{TokenEvent, http}
use sovalune_core.Backend.{TokenStream}

-- `choices[i]`, with the content of its delta
pub record StreamChoice : Type 0 where
  pub content : Option Text
  pub finish_reason : Option Text

pub record StreamChunk : Type 0 where
  pub choices : List StreamChoice

unfoldable pub token : ℕ → Text → TokenEvent
token id delta = record { request_id = id; delta = delta; finished = false; message_id = none }

unfoldable pub done : ℕ → TokenEvent
done id = record { request_id = id; delta = []; finished = true; message_id = none }

-- a chunk without events is left out
unfoldable pub some_events : TokenStream → Option TokenStream
some_events [] = none
some_events (e ∷ es) = some (e ∷ es)

module _ (id : ℕ) where
  unfoldable pub content_events : Option Text → TokenStream
  unfolding token
  content_events none = []
  content_events (some content) = ok (token id content) ∷ []

  unfoldable pub finish_events : Option Text → TokenStream
  unfolding done
  finish_events none = []
  finish_events (some _) = ok (done id) ∷ []

  -- the loop over the choices
  unfoldable pub choice_events : List StreamChoice → TokenStream
  unfolding content_events finish_events
  choice_events [] = []
  choice_events (c ∷ cs) =
      content_events c.content ++ (finish_events c.finish_reason ++ choice_events cs)

  module _ (from_str : Text → Option StreamChunk) where
    -- what follows `data: `, trimmed
    unfoldable pub data_events : Text → TokenStream
    unfolding choice_events done
    data_events payload =
        if text_eq payload (codes "[DONE]")
        then ok (done id) ∷ []
        else elim (from_str payload) [ none ↦ [] | some chunk ↦ choice_events chunk.choices ]

    -- `line` is trimmed
    unfoldable pub trimmed_events : Text → TokenStream
    unfolding data_events
    trimmed_events line =
        if is_empty line || starts_with line (codes ":")
        then []
        else elim (strip_prefix (codes "data: ") line) [
          | none ↦ []
          | some payload ↦ data_events (trim_matches is_whitespace payload)
        ]

    unfoldable pub parse_sse_line : Text → TokenStream
    unfolding trimmed_events
    parse_sse_line line = trimmed_events (trim_matches is_whitespace line)

    -- the loop over the lines of a chunk
    unfoldable pub line_events : List Text → TokenStream
    unfolding parse_sse_line
    line_events [] = []
    line_events (line ∷ rest) = parse_sse_line line ++ line_events rest

    -- the events of a text, line by line
    unfoldable pub text_events : Text → TokenStream
    unfolding line_events
    text_events text = line_events (lines text)

    -- what `filter_map` makes of a chunk, or of the failure to read it
    unfoldable pub chunk_events : Result Text Text → Option TokenStream
    unfolding some_events text_events
    chunk_events (ok text) = some_events (text_events text)
    chunk_events (err e) = some (err (http e) ∷ [])

    -- `filter_map(...).flatten()`
    unfoldable pub token_stream : List (Result Text Text) → TokenStream
    unfolding chunk_events
    token_stream [] = []
    token_stream (c ∷ cs) = Option.get_or (chunk_events c) [] ++ token_stream cs
