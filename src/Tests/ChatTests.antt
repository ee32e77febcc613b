-- ===== src/Tests/ChatTests.antt =====
-- The chat at concrete inputs: a generation of one round, and the messages of one session.
use sovalune_core.Common.{
  ℕ, ◌≡◌, ◌⊎◌, refl, true, false, none, some, List, [], ◌∷◌, ◌++◌, returns, ok, err,
}
use sovalune_core.Tests.Thousandths.{thousandths}
use sovalune_core.Text.{Text, codes}
use sovalune_core.Types.{ContextSection}
use sovalune_core.Backend.{TokenStream}
use sovalune_core.Backend.Sse.{token, done}
use sovalune_core.Backend.OpenAi.{OpenAiBackend, build_request}
use sovalune_core.Backend.OpenAi
use sovalune_core.Json.{string}
use sovalune_core.Chat.{
  Task, ServerMessage, Socket, Services, message_complete, error, start_generation, accept_message,
  handle_stop,
}
use sovalune_core.Chat
use sovalune_core.Chat.Prompt.{context_for}
use sovalune_core.Chat.Generation.{Environment, Generated, generate, clean_up, inference_request}
use sovalune_core.Chat.Generation.Endings.{Completed, Failed, generate_ends}
use sovalune_core.Chat.Generation.Results.{results_not_sent}
use sovalune_core.Chat.Sessions.{Accepted, Refused, accept_message-cases}

abbrev events : TokenStream
events = ok (token 7 (codes "Hi")) ∷ ok (token 7 (codes "!")) ∷ ok (done 7) ∷ []

abbrev env : Environment thousandths
env = record {
  to_uppercase = λ t. t;
  polls = λ n. false;
  to_string = λ j. [];
  pretty = λ j. [];
  error_json = string;
  from_str = λ t. none;
  fresh = λ round k. codes "0123456789abcdef";
  elapsed = λ call. 1;
  registry = [];
  request_id = λ round. round;
  stream_infer = λ round request. returns (ok events);
  create_message = λ role content. ok tt;
}

abbrev task : Task
task = record {
  session_id = codes "s";
  project_id = codes "p";
  content = codes "Hello";
  memory_entries = (codes "verified", codes "a fact") ∷ [];
  history = (codes "user", codes "Hello") ∷ [];
  cancel_token = 0;
}

abbrev generated : Generated thousandths env task
generated = record {
  sent =
      Chat.token (codes "s") (codes "Hi")
      ∷ Chat.token (codes "s") (codes "!")
      ∷ message_complete (codes "s") (codes "m")
      ∷ [];
  saved = some (codes "assistant", codes "Hi!");
  cleaned = true;
}

run : generate thousandths env task (codes "m") ≡ returns generated
unfolding generate context_for sovalune_core.Context.build sovalune_core.Context.build_loop
    sovalune_core.Context.sort_by_priority sovalune_core.Context.with_user_input
    sovalune_core.Context.with_history_entry sovalune_core.Context.with_memory_section
    sovalune_core.Context.with_system sovalune_core.Context.new sovalune_core.Text.text_eq
    sovalune_core.Context.push_section sovalune_core.Text.byte_len
    sovalune_core.Chat.Prompt.system_prompt sovalune_core.Tools.definitions
    sovalune_core.Chat.Generation.read_stream sovalune_core.Backend.Sse.token
    sovalune_core.Backend.Sse.done sovalune_core.Chat.Generation.after_reading
    sovalune_core.Tools.Parser.parse_text_tool_calls sovalune_core.Text.Pieces.lines
    sovalune_core.Text.Pieces.lines_from sovalune_core.Text.Pieces.trim_matches
    sovalune_core.Text.Pieces.trim_start sovalune_core.Text.is_whitespace
    sovalune_core.Text.starts_with
run = refl

generate_ends_example :
    Completed thousandths env task generated (codes "m") ⊎ Failed thousandths env task generated
generate_ends_example = generate_ends thousandths env task (codes "m") generated run

abbrev backend : OpenAiBackend
backend = OpenAi.new (codes "http://h") (codes "k") (codes "m") 120

abbrev context_of : Text → List ContextSection
context_of input =
    record { role = codes "system"; content = codes "Be brief"; priority = 0; token_estimate = 2 }
    ∷ record {
      role = codes "memory";
      content = codes "[verified] a fact";
      priority = 10;
      token_estimate = 2;
    }
    ∷ record {
      role = codes "history";
      content = codes "user: Hello";
      priority = 40;
      token_estimate = 2;
    }
    ∷ record { role = codes "user"; content = input; priority = 50; token_estimate = 1 }
    ∷ []

first_context :
    context_for (λ t. t) (codes "Be brief") task (codes "abcd")
    ≡ returns (context_of (codes "abcd"))
unfolding context_for sovalune_core.Context.build sovalune_core.Context.build_loop
    sovalune_core.Context.sort_by_priority sovalune_core.Context.with_user_input
    sovalune_core.Context.with_history_entry sovalune_core.Context.with_memory_section
    sovalune_core.Context.with_system sovalune_core.Context.new sovalune_core.Text.text_eq
    sovalune_core.Context.push_section sovalune_core.Text.byte_len
first_context = refl

second_context :
    context_for (λ t. t) (codes "Be brief") task (codes "efgh")
    ≡ returns (context_of (codes "efgh"))
unfolding context_for sovalune_core.Context.build sovalune_core.Context.build_loop
    sovalune_core.Context.sort_by_priority sovalune_core.Context.with_user_input
    sovalune_core.Context.with_history_entry sovalune_core.Context.with_memory_section
    sovalune_core.Context.with_system sovalune_core.Context.new sovalune_core.Text.text_eq
    sovalune_core.Context.push_section sovalune_core.Text.byte_len
second_context = refl

results_not_sent_example :
    (build_request thousandths backend
      (inference_request thousandths env task 1 (context_of (codes "abcd")))).messages
    ≡ (build_request thousandths backend
        (inference_request thousandths env task 2 (context_of (codes "efgh")))).messages
results_not_sent_example =
    results_not_sent thousandths env task (codes "Be brief") backend (codes "abcd") (codes "efgh")
      (context_of (codes "abcd")) (context_of (codes "efgh")) 1 2 first_context second_context

abbrev services : Services
services = record {
  parse_uuid = λ t. ok 1;
  create_message = λ role content. ok tt;
  search_by_text_with_embedding = λ t. err (codes "down");
  list = λ t. ok [];
  get_recent_messages = λ t. ok [];
}

accept_message-cases_example :
    ((p : ℕ) × (q : ℕ) × (services.parse_uuid (codes "s") ≡ ok p)
      × (services.parse_uuid (codes "p") ≡ ok q)
      × (services.create_message (codes "user") (codes "Hi") ≡ ok tt)
      × Accepted services
          (codes "s")
          (codes "p")
          (codes "Hi")
          Chat.new
          (accept_message services (codes "s") (codes "p") (codes "Hi") Chat.new))
    ⊎ ((e : Text) × (services.parse_uuid (codes "s") ≡ err e)
        × Refused
            (codes "INVALID_SESSION")
            (codes "Invalid session ID: " ++ e)
            Chat.new
            (accept_message services (codes "s") (codes "p") (codes "Hi") Chat.new))
    ⊎ ((p : ℕ) × (e : Text) × (services.parse_uuid (codes "s") ≡ ok p)
        × (services.parse_uuid (codes "p") ≡ err e)
        × Refused
            (codes "INVALID_PROJECT")
            (codes "Invalid project ID: " ++ e)
            Chat.new
            (accept_message services (codes "s") (codes "p") (codes "Hi") Chat.new))
    ⊎ ((p : ℕ) × (q : ℕ) × (e : Text) × (services.parse_uuid (codes "s") ≡ ok p)
        × (services.parse_uuid (codes "p") ≡ ok q)
        × (services.create_message (codes "user") (codes "Hi") ≡ err e)
        × Refused
            (codes "DB_ERROR")
            (codes "Failed to save message: " ++ e)
            Chat.new
            (accept_message services (codes "s") (codes "p") (codes "Hi") Chat.new))
accept_message-cases_example =
    accept_message-cases services (codes "s") (codes "p") (codes "Hi") Chat.new

-- two generations of the session have started
abbrev busy : Socket
busy = record Chat.new { cancel_tokens = (codes "s", 1) ∷ []; next_token = 2 }
