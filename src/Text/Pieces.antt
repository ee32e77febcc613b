-- ===== src/Text/Pieces.antt =====
-- The pieces of a text: lines, words, what a separator parts, and the trimming of both ends.
use mathlib.Core.List.{reverse}
use sovalune_core.Common.{ℕ, ◌+◌, Bool, true, false, Option, none, some, List, [], ◌∷◌, ◌++◌, ◌==◌}
use sovalune_core.Text.{Text, byte_len, find, slice_from, slice_to, is_whitespace}

-- `pieces.join(separator)`
unfoldable pub join : Text → List Text → Text
join separator [] = []
join separator (t ∷ []) = t
join separator (t ∷ u ∷ ts) = t ++ (separator ++ join separator (u ∷ ts))

-- the piece read so far, backwards, in front of the others, if there is any of it
flush : Text → List Text → List Text
flush [] rest = rest
flush (c ∷ read) rest = reverse (c ∷ read) ∷ rest

-- a line that a newline ends, backwards, without the carriage return
unfoldable pub line_of : Text → Text
line_of [] = []
line_of (c ∷ read) = elim (c == 13) [ true ↦ reverse read | false ↦ reverse (c ∷ read) ]

unfoldable pub lines_from : Text → Text → List Text
unfolding flush line_of
lines_from read [] = flush read []
lines_from read (c ∷ t) = elim (c == 10) [
  | true ↦ line_of read ∷ lines_from [] t
  | false ↦ lines_from (c ∷ read) t
]

-- `t.lines()`
unfoldable pub lines : Text → List Text
lines t = lines_from [] t

unfoldable pub words_from : Text → Text → List Text
unfolding flush
words_from read [] = flush read []
words_from read (c ∷ t) = elim (is_whitespace c) [
  | true ↦ flush read (words_from [] t)
  | false ↦ words_from (c ∷ read) t
]

-- `t.split_whitespace()`
unfoldable pub words : Text → List Text
words t = words_from [] t

unfoldable pub trim_start : (ℕ → Bool) → Text → Text
trim_start test [] = []
trim_start test (c ∷ t) = elim (test c) [ true ↦ trim_start test t | false ↦ c ∷ t ]

-- `t.trim_matches(test)`
unfoldable pub trim_matches : (ℕ → Bool) → Text → Text
trim_matches test t = reverse (trim_start test (reverse (trim_start test t)))

-- `t.split(separator).next()`, which is always there
unfoldable pub before : Text → Text → Text
before separator t = elim (find t separator) [
  | none ↦ t
  | some n ↦ elim (slice_to t n) [ none ↦ t | some s ↦ s ]
]

-- `t.split(separator).nth(1)`
unfoldable pub second_piece : Text → Text → Option Text
second_piece separator t = elim (find t separator) [
  | none ↦ none
  | some n ↦ elim (slice_from t (n + byte_len separator)) [
    | none ↦ none
    | some rest ↦ some (before separator rest)
  ]
]

-- `ts.find_map(f)`
unfoldable pub find_map {ℓ} : {A B : Type ℓ} → (A → Option B) → List A → Option B
find_map f [] = none
find_map f (a ∷ rest) = elim (f a) [ none ↦ find_map f rest | some b ↦ some b ]

-- `t.trim_end_matches(test)`
unfoldable pub trim_end_matches : (ℕ → Bool) → Text → Text
trim_end_matches test t = reverse (trim_start test (reverse t))

-- `t.strip_prefix(p)`
unfoldable pub strip_prefix : Text → Text → Option Text
strip_prefix [] t = some t
strip_prefix (a ∷ p) [] = none
strip_prefix (a ∷ p) (b ∷ t) =
    let rest = strip_prefix p t in elim (a == b) [ true ↦ rest | false ↦ none ]
