-- ===== src/Backend/Lines.antt =====
-- crates/sovalune-model-runtime/src/backend/openai.rs: how the cutting of a body into chunks matters to
-- the event stream.
use mathlib.Core.List.{append_assoc}
use mathlib.Core.Option
use sovalune_core.Common.{
  ℕ, ◌≡◌, refl, sym, ap, ◌∙◌, Option, List, [], ◌∷◌, ◌++◌, map, ok, All, ◌==◌, Bool-cases, inl, inr,
}
use sovalune_core.Text.{Text}
use sovalune_core.Text.Pieces.{line_of, lines, lines_from}
use sovalune_core.Backend.{TokenStream}
use sovalune_core.Backend.Sse.{
  StreamChunk, some_events, parse_sse_line, line_events, text_events, chunk_events, token_stream,
}

-- the text ends with a newline
abbrev pub EndsLine : Text → Type 0
EndsLine t = (s : Text) × (t ≡ s ++ 10 ∷ [])

-- the chunks put together again
unfoldable pub concat : List Text → Text
concat [] = []
concat (t ∷ ts) = t ++ concat ts

lines_from-append :
    (read s t : Text)
    → lines_from read ((s ++ 10 ∷ []) ++ t) ≡ lines_from read (s ++ 10 ∷ []) ++ lines t
unfolding lines_from lines
lines_from-append read [] t = refl
lines_from-append read (c ∷ s) t = elim (Bool-cases (c == 10)) [
  | inl h ↦ rw (h, lines_from) (ap (λ ls. line_of read ∷ ls) (lines_from-append [] s t))
  | inr h ↦ rw (h, lines_from) (lines_from-append (c ∷ read) s t)
]

module _ (id : ℕ) (from_str : Text → Option StreamChunk) where
  line_events-append :
      (ls ms : List Text)
      → line_events id from_str (ls ++ ms)
        ≡ line_events id from_str ls ++ line_events id from_str ms
  unfolding line_events
  line_events-append [] ms = refl
  line_events-append (l ∷ ls) ms =
      ap (λ es. parse_sse_line id from_str l ++ es) (line_events-append ls ms)
      ∙ sym (
          append_assoc (parse_sse_line id from_str l) (line_events id from_str ls)
            (line_events id from_str ms))

  text_events-append :
      (s t : Text)
      → EndsLine s
      → text_events id from_str (s ++ t) ≡ text_events id from_str s ++ text_events id from_str t
  unfolding text_events lines
  text_events-append s t (s', e) = rw e (
      ap (line_events id from_str) (lines_from-append [] s' t)
      ∙ line_events-append (lines_from [] (s' ++ 10 ∷ [])) (lines t))

  some_events-get : (es : TokenStream) → Option.get_or (some_events es) [] ≡ es
  unfolding some_events
  some_events-get [] = refl
  some_events-get (e ∷ es) = refl

  -- Where every chunk of a body ends with a newline, the stream has the events of the whole body read
  -- at once, wherever it is cut into chunks.
  pub token_stream-concat :
      (chunks : List Text)
      → All EndsLine chunks
      → token_stream id from_str (map ok chunks) ≡ text_events id from_str (concat chunks)
  unfolding token_stream chunk_events concat lines lines_from
  token_stream-concat [] h = unfold text_events line_events in refl
  token_stream-concat (t ∷ ts) (h, hs) = rw (some_events-get (text_events id from_str t)) (
      ap (λ es. text_events id from_str t ++ es) (token_stream-concat ts hs)
      ∙ sym (text_events-append t (concat ts) h))
