-- ===== src/Chat/Prompt.antt =====
-- crates/sovalune-api/src/routes/ws.rs: the system prompt, and the contexts that a generation builds.
use sovalune_core.Common.{List, [], ◌∷◌, ◌++◌, map, Outcome}
use sovalune_core.Text.{Text, codes}
use sovalune_core.Text.Pieces.{join}
use sovalune_core.Json.{Json}
use sovalune_core.Types.{ContextSection}
use sovalune_core.Tools.{ToolDefinition, ToolResult}
use sovalune_core.Context.{
  ContextBuilder, with_system, with_memory_section, with_history_entry, with_user_input, build,
}
use sovalune_core.Context
use sovalune_core.Chat.{Task}

abbrev newline : Text
newline = 10 ∷ []

-- the list of the tools, if there are any
unfoldable pub tools_desc : List (ToolDefinition Json) → Text
tools_desc [] = []
tools_desc (d ∷ ds) =
    newline
    ++ (newline
        ++ (codes "You have access to these tools:"
            ++ (newline
                ++ join newline (
                    map
                      (λ (t : ToolDefinition Json).
                        codes "- " ++ (t.name ++ (codes ": " ++ t.description)))
                      (d ∷ ds)))))

abbrev preamble : Text
preamble =
    codes "You are Sovalune, an AI assistant with long-term memory. "
    ++ (codes "You help users with software engineering tasks. "
        ++ (codes "Be helpful, accurate, and concise. "
            ++ (codes "You can use tools to search memory, write memory, execute code, "
                ++ (codes "search the web, and run tests. "
                    ++ (codes "When you need to use a tool, "
                        ++ codes "respond with a JSON tool call in a code block.")))))

unfoldable pub system_prompt : List (ToolDefinition Json) → Text → Text
unfolding tools_desc
system_prompt defs project_id =
    preamble
    ++ (newline
        ++ (codes "Format: ```json"
            ++ (newline
                ++ (codes "{\"name\": \"tool_name\", \"arguments\": {...}}"
                    ++ (newline
                        ++ (codes "```"
                            ++ (tools_desc defs
                                ++ (newline
                                    ++ (newline ++ (codes "Project ID: " ++ project_id))))))))))

module _ (to_uppercase : Text → Text) where
  -- the loop over the memories
  unfoldable pub with_memories : List (Text × Text) → ContextBuilder → ContextBuilder
  with_memories [] b = b
  with_memories (m ∷ ms) b = with_memories ms (with_memory_section to_uppercase m.0 m.1 b)

  -- the loop over the history
  unfoldable pub with_history : List (Text × Text) → ContextBuilder → ContextBuilder
  with_history [] b = b
  with_history (h ∷ hs) b = with_history hs (with_history_entry h.0 h.1 b)

  -- all but the user's input
  unfoldable pub base_context : Text → Task → ContextBuilder
  unfolding with_memories with_history
  base_context prompt task =
      with_history task.history
        (with_memories task.memory_entries (with_system prompt (Context.new 128000)))

  unfoldable pub context_for : Text → Task → Text → Outcome (List ContextSection)
  unfolding base_context
  context_for prompt task input = build (with_user_input input (base_context prompt task))

-- the section about the results of the tools; `pretty` is serde's `to_string_pretty`
unfoldable pub tool_section : (Json → Text) → List (ToolResult Json) → Text → Text
tool_section pretty [] section = section
tool_section pretty (r ∷ rs) section = tool_section pretty rs (
    section
    ++ (newline
        ++ (codes "### "
            ++ (r.tool_name
                ++ (codes " (call_id: "
                    ++ (r.call_id ++ (codes ")" ++ (newline ++ (pretty r.output ++ newline)))))))))

-- what the next round is told
unfoldable pub tool_input : (Json → Text) → List (ToolResult Json) → Text → Text → Text
unfolding tool_section
tool_input pretty results content full_response =
    tool_section pretty results (newline ++ (newline ++ (codes "## Tool Results" ++ newline)))
    ++ (newline ++ (newline ++ (codes "User original request: " ++ (content ++ full_response))))
