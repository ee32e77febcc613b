-- ===== src/Tools/Parsing.antt =====
-- crates/sovalune-model-runtime/src/tools.rs: the calls that `ToolCallParser` finds in a text.
use mathlib.Core.List.{reverse, reverse-cons, append-nil, append_assoc}
use sovalune_core.Common.{
  ℕ, ◌+◌, ◌*◌, ◌≤◌, ◌≡◌, ◌≢◌, refl, sym, ap, ◌∙◌, true, false, Option, some, List, [], ◌∷◌, ◌++◌,
  length, filter, length-append, All, ◌==◌, Bool-cases, inl, inr, if◌then◌else◌, arith,
}
use sovalune_core.Text.{Text, codes, starts_with, is_whitespace}
use sovalune_core.Text.Pieces.{line_of, lines_from, lines, trim_matches, trim_start}
use sovalune_core.Json.{Json, string, object_of, as_str, at, get}
use sovalune_core.Tools.Parser.{
  ParserState, is_fence, call_of, block_calls, at_fence, at_line, parse_lines,
  parse_text_tool_calls,
}

-- no character ends a line
abbrev pub IsLine : Text → Type 0
IsLine = All (λ c. (c ≢ 10) × (c ≢ 13))

line_of_plain : (r : Text) → IsLine r → line_of r ≡ reverse r
unfolding line_of
line_of_plain [] h = refl
line_of_plain (c ∷ r) h = elim (Bool-cases (c == 13)) [
  | inl e ↦ absurd (ground arith)
  | inr e ↦ rw (e, line_of) refl
]

lines_from-line :
    (read t u : Text)
    → IsLine read
    → IsLine t
    → lines_from read (t ++ 10 ∷ u) ≡ (reverse read ++ t) ∷ lines u
unfolding lines_from lines
lines_from-line read [] u h k =
    ap (λ l. l ∷ lines_from [] u) (line_of_plain read h ∙ sym (append-nil (reverse read)))
lines_from-line read (c ∷ t) u h k = elim (Bool-cases (c == 10)) [
  | inl e ↦ absurd (ground arith)
  | inr e ↦
      rw (e, lines_from)
        (lines_from-line (c ∷ read) t u (k.0, h) k.1
          ∙ ap (λ l. l ∷ lines_from [] u)
              (ap (λ r. r ++ t) (reverse-cons c read) ∙ append_assoc (reverse read) (c ∷ []) t))
]

pub lines-line : (t u : Text) → IsLine t → lines (t ++ 10 ∷ u) ≡ t ∷ lines u
unfolding lines
lines-line t u h = lines_from-line [] t u tt h

-- a call as the system prompt asks for it: a block of JSON, with one line for the object
unfoldable pub printed_call : Text → Text
printed_call body = codes "```json" ++ 10 ∷ (body ++ 10 ∷ (codes "```" ++ 10 ∷ []))

printed_lines :
    (body : Text)
    → IsLine body
    → lines (printed_call body) ≡ codes "```json" ∷ body ∷ codes "```" ∷ []
unfolding printed_call lines lines_from
printed_lines body h =
    lines-line (codes "```json") (body ++ 10 ∷ (codes "```" ++ 10 ∷ [])) (omega arith)
    ∙ ap (λ ls. codes "```json" ∷ ls)
        (lines-line body (codes "```" ++ 10 ∷ []) h
          ∙ ap (λ ls. body ∷ ls) (lines-line (codes "```") [] (omega arith)))

abbrev start : ParserState
start = record { in_code_block = false; current_block = []; calls = [] }

module _ (from_str : Text → Option Json) (fresh : ℕ → Text) where
  opening :
      at_fence from_str fresh start
      ≡ record { in_code_block = true; current_block = []; calls = [] }
  unfolding at_fence
  opening = refl

  block_lines :
      (body : Text)
      → is_fence body ≡ false
      → (parse_lines from_str fresh (codes "```json" ∷ body ∷ codes "```" ∷ []) start).calls
        ≡ block_calls from_str fresh 0 (body ++ 10 ∷ [])
  unfolding parse_lines at_line trim_matches trim_start is_whitespace starts_with
  block_lines body h = rw h refl

  -- A call printed as the system prompt asks for it is read back: a block of one line that serde reads
  -- as an object with a name and arguments gives one call, with that name and those arguments and a
  -- fresh identifier.
  pub parse-printed_call :
      (body name : Text) (arguments : Json)
      → IsLine body
      → is_fence body ≡ false
      → from_str (body ++ 10 ∷ [])
        ≡ some (object_of ((codes "name", string name) ∷ (codes "arguments", arguments) ∷ []))
      → parse_text_tool_calls from_str fresh (printed_call body)
        ≡ record { id = codes "call_" ++ fresh 0; name = name; arguments = arguments } ∷ []
  unfolding parse_text_tool_calls block_calls object_of as_str at get sovalune_core.Text.text_eq
  parse-printed_call body name arguments line plain read =
      ap (λ ls. (parse_lines from_str fresh ls start).calls) (printed_lines body line)
      ∙ block_lines body plain
      ∙ rw (read, block_calls) refl

  block_calls-le : (k : ℕ) (block : Text) → length (block_calls from_str fresh k block) ≤ 1
  unfolding block_calls call_of
  block_calls-le k block = ground arith

  at_fence-bound :
      (s : ParserState)
      → length (at_fence from_str fresh s).calls * 2
          + (if (at_fence from_str fresh s).in_code_block then 1 else 0)
        ≤ length s.calls * 2 + 1 + (if s.in_code_block then 1 else 0)
  unfolding at_fence
  at_fence-bound s = ground (
    arith,
    length-append s.calls (block_calls from_str fresh (length s.calls) s.current_block),
    block_calls-le (length s.calls) s.current_block,
  )

  at_line-calls :
      (l : Text) (s : ParserState)
      → ((at_line from_str fresh l s).calls ≡ s.calls)
        × ((at_line from_str fresh l s).in_code_block ≡ s.in_code_block)
  unfolding at_line
  at_line-calls l s = ground arith

  parse_lines-bound :
      (ls : List Text) (s : ParserState)
      → length (parse_lines from_str fresh ls s).calls * 2
        ≤ length s.calls * 2 + length (filter is_fence ls) + (if s.in_code_block then 1 else 0)
  unfolding parse_lines
  parse_lines-bound [] s = ground arith
  parse_lines-bound (l ∷ ls) s = elim (Bool-cases (is_fence l)) [
    | inl h ↦
        rw (h, parse_lines)
          (omega (arith, at_fence-bound s, parse_lines-bound ls (at_fence from_str fresh s)))
    | inr h ↦
        rw (h, parse_lines)
          (ground (arith, at_line-calls l s, parse_lines-bound ls (at_line from_str fresh l s)))
  ]

  -- Every call found in a text takes two of its lines that are fences.
  pub parse_text_tool_calls-le :
      (text : Text)
      → length (parse_text_tool_calls from_str fresh text) * 2
        ≤ length (filter is_fence (lines text))
  unfolding parse_text_tool_calls
  parse_text_tool_calls-le text = omega (arith, parse_lines-bound (lines text) start)
