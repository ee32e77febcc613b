-- ===== src/Backend/Requests.antt =====
-- crates/sovalune-model-runtime/src/backend/openai.rs: what of a request reaches the server.
use mathlib.Core.List.{append_assoc, append-nil}
use sovalune_core.Common.{◌≡◌, sym, ap, ◌∙◌, Bool, ◌||◌, List, [], ◌∷◌, ◌++◌, arith, filter, map}
use sovalune_core.Float.{Float}
use sovalune_core.Text.{Text, codes, text_eq}
use sovalune_core.Types.{ContextSection, InferenceRequest}
use sovalune_core.Backend.OpenAi.{
  OpenAiBackend, ChatMessage, section_messages, context_messages, build_request,
}

-- the roles that `build_request` sends
abbrev pub is_sent : ContextSection → Bool
is_sent s =
    text_eq s.role (codes "system")
    || (text_eq s.role (codes "memory") || text_eq s.role (codes "history"))

abbrev pub system_message : ContextSection → ChatMessage
system_message s = record { role = codes "system"; content = s.content }

abbrev pub user_message : Text → ChatMessage
user_message content = record { role = codes "user"; content = content }

section_messages-filter :
    (s : ContextSection) (ss : List ContextSection)
    → section_messages s ++ map system_message (filter is_sent ss)
      ≡ map system_message (filter is_sent (s ∷ ss))
unfolding section_messages
section_messages-filter s ss = ground arith

context_messages-filter :
    (ss : List ContextSection) (messages : List ChatMessage)
    → context_messages ss messages ≡ messages ++ map system_message (filter is_sent ss)
unfolding context_messages
context_messages-filter [] messages = sym (append-nil messages)
context_messages-filter (s ∷ ss) messages =
    context_messages-filter ss (messages ++ section_messages s)
    ∙ append_assoc messages (section_messages s) (map system_message (filter is_sent ss))
    ∙ ap (λ ms. messages ++ ms) (section_messages-filter s ss)

module _ (fl : Float) (b : OpenAiBackend) (request : InferenceRequest fl) where
  -- The messages of a request are the contents of the sections with the roles `system`, `memory` and
  -- `history`, in their order and under the role `system`, and then the user's input.
  pub build_request_messages :
      (build_request fl b request).messages
      ≡ map system_message (filter is_sent request.context) ++ user_message request.user_input ∷ []
  unfolding build_request
  build_request_messages =
      ap (λ ms. ms ++ user_message request.user_input ∷ [])
        (context_messages-filter request.context [])
