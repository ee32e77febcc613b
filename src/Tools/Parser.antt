-- ===== src/Tools/Parser.antt =====
-- crates/sovalune-model-runtime/src/tools.rs: `ToolCallParser`. `from_str` is serde's reading of a
-- value; `fresh` gives the sixteen digits of the identifiers, one for each call made.
use mathlib.Core.Option
use sovalune_core.Common.{
  ℕ, Bool, true, false, ◌||◌, Option, none, some, List, [], ◌∷◌, ◌++◌, length, if◌then◌else◌,
}
use sovalune_core.Text.{Text, codes, starts_with, is_whitespace}
use sovalune_core.Text.Pieces.{lines, trim_matches}
use sovalune_core.Json.{Json, as_str, at, get, object_of}
use sovalune_core.Tools.{ToolCall}

-- `?` on an `Option`
infixl 5 ◌>>=◌
abbrev ◌>>=◌ : {A B : Type 0} → Option A → (A → Option B) → Option B
none >>= f = none
some a >>= f = f a

-- a call of the OpenAI format: nothing where a part is missing or the arguments are no JSON
unfoldable pub openai_call : (Text → Option Json) → Json → Option (ToolCall Json)
openai_call from_str tc = do
  id ← as_str (at (codes "id") tc)
  name ← as_str (at (codes "name") (at (codes "function") tc))
  arguments_str ← as_str (at (codes "arguments") (at (codes "function") tc))
  arguments ← from_str arguments_str
  some (record { id = id; name = name; arguments = arguments })

-- `filter_map(...).collect()`
unfoldable pub parse_openai_tool_calls : (Text → Option Json) → List Json → List (ToolCall Json)
unfolding openai_call
parse_openai_tool_calls from_str [] = []
parse_openai_tool_calls from_str (tc ∷ tcs) =
    let rest = parse_openai_tool_calls from_str tcs in
    elim (openai_call from_str tc) [ none ↦ rest | some call ↦ call ∷ rest ]

-- a line that opens or closes a block of code
unfoldable pub is_fence : Text → Bool
is_fence line =
    starts_with (trim_matches is_whitespace line) (codes "```json")
    || starts_with (trim_matches is_whitespace line) (codes "```")

pub record ParserState : Type 0 where
  pub in_code_block : Bool
  pub current_block : Text
  pub calls : List (ToolCall Json)

module _ (from_str : Text → Option Json) (fresh : ℕ → Text) where
  -- the call that a block asks for
  unfoldable pub call_of : ℕ → Json → List (ToolCall Json)
  call_of k value = elim (as_str (at (codes "name") value)) [
    | none ↦ []
    | some name ↦
        record {
          id = codes "call_" ++ fresh k;
          name = name;
          arguments = Option.get_or (get (codes "arguments") value) (object_of []);
        }
        ∷ []
  ]

  unfoldable pub block_calls : ℕ → Text → List (ToolCall Json)
  unfolding call_of
  block_calls k block = elim (from_str block) [ none ↦ [] | some value ↦ call_of k value ]

  -- a fence inside a block ends it, any other opens one
  unfoldable pub at_fence : ParserState → ParserState
  unfolding block_calls
  at_fence s =
      if s.in_code_block
      then record {
        in_code_block = false;
        current_block = [];
        calls = s.calls ++ block_calls (length s.calls) s.current_block;
      }
      else record s { in_code_block = true }

  -- a line that is no fence belongs to the block, if there is one
  unfoldable pub at_line : Text → ParserState → ParserState
  at_line line s =
      if s.in_code_block
      then record s { current_block = s.current_block ++ (line ++ 10 ∷ []) }
      else s

  unfoldable pub parse_lines : List Text → ParserState → ParserState
  unfolding is_fence at_fence at_line
  parse_lines [] s = s
  parse_lines (line ∷ rest) s =
      parse_lines rest (if is_fence line then at_fence s else at_line line s)

  unfoldable pub parse_text_tool_calls : Text → List (ToolCall Json)
  unfolding parse_lines
  parse_text_tool_calls text =
      (parse_lines (lines text)
        (record { in_code_block = false; current_block = []; calls = [] })).calls
