-- ===== src/Lib.antt =====
-- Sovalune Core: a platform for AI agents with long-term memory and self-learning. Its server answers
-- HTTP and WebSocket requests (crates/sovalune-api), asks language models through
-- crates/sovalune-model-runtime, keeps its tables in PostgreSQL (crates/sovalune-storage-client), and
-- learns from failed tasks in learning cycles (crates/sovalune-self-learning), whose stages ask the
-- model runtime and write evidence and test results to the tables.
--
-- Parts and files:
--   Learning.Status        crates/sovalune-self-learning/src/lib.rs: LearningCycleStatus
--   Learning.Monad         the world of the learning crates (tables, database faults, clock, events)
--                          and the actions on it; Monad.Triple has their pre- and postconditions
--   Learning.Store         crates/sovalune-storage-client/src/repositories/learning_cycle.rs, each
--                          method by what its query does to the tables
--   Learning.Orchestrator  crates/sovalune-self-learning/src/orchestrator.rs, method by method
--   Learning.Invariant, Learning.Transitions  the theorems on the table of cycles and on the moves
--   Learning.Stages        crates/sovalune-self-learning/src/stages: Prompts has the texts, Handlers
--                          the handlers, Safety and Outcomes their theorems
--   Learning.Pipeline      crates/sovalune-api/src/routes/learning.rs: run; Bounds and Endings the theorems
--   Types                  crates/sovalune-model-runtime/src/types.rs
--   Retry, Retry.Loop      crates/sovalune-model-runtime/src/retry.rs: RetryConfig, RetryState,
--                          should_retry, extract_retry_after, retry_with_backoff!
--   Cache                  crates/sovalune-model-runtime/src/cache.rs: Cache, CacheFactory
--   Context                crates/sovalune-model-runtime/src/context.rs: ContextBuilder
--   Tokens                 crates/sovalune-model-runtime/src/tokenizer.rs: TokenCounter, ContextLimits;
--                          Counting and Cached the theorems on counts without and with the cache
--   Backend                crates/sovalune-model-runtime/src/backend: Sse and OpenAi have openai.rs,
--                          Local local.rs; Lines and Requests the theorems on the stream and the messages
--   Engine                 crates/sovalune-model-runtime/src/engine.rs: Stream has stream_infer, Infer
--                          infer; Loops, Answers, Caching and Streaming the theorems
--   Cache.Key              crates/sovalune-model-runtime/src/cache.rs: model_cache_key
--   Embedding              crates/sovalune-model-runtime/src/embedding.rs
--   Tools                  crates/sovalune-model-runtime/src/tools.rs: ToolRegistry, ToolCallManager;
--                          Tools.Parser has ToolCallParser
--   Tools.Executors        crates/sovalune-model-runtime/src/executors.rs: Code has the tools without a
--                          store, Registry the registries; Sound and Answers the theorems
--   Memory                 crates/sovalune-storage-client/src/repositories/memory.rs, with the table and
--                          the actions on it; Repository has each method by what its query does
--   Memory.Store           crates/sovalune-vector-memory/src/store.rs and lib.rs
--   Chat                   crates/sovalune-api/src/routes/ws.rs: the handler of a message; Prompt has the
--                          contexts, Generation the spawned task, which asks the engine, parses the calls
--                          in its answer, runs them in the registry and goes round again
--   Storage                crates/sovalune-storage-client/src/repositories/project.rs and session.rs, with
--                          their tables; Ordering and History the theorems on what is read
--   Routes                 crates/sovalune-api/src/routes/projects.rs and sessions.rs
--   Bus                    crates/sovalune-bus/src/lib.rs: the messages; Reading reads them, Client has
--                          NatsClient; Wire and Delivery the theorems on reading and on waiting
--   Json                   the values of JSON
--   Weaver                 crates/sovalune-vector-memory/src/context_weaver.rs: ContextWeaver
--   Text, Float, HashMap   what these files use of the language's texts, floats and maps
--   Common                 shared names and lemmas
--
-- How it is modelled. A text is the list of its code points, with the length of each in bytes, so a
-- slice that ends inside a character panics as in the source. A function that may panic returns an
-- Outcome. A method that changes `self` returns the new state. Numbers are natural numbers, and
-- where the source's width matters the wrap-around of a release build is written out: `usize` at
-- 2^64, the retry counter at 2^32; the counter in the database is an INT, and passing 2^31 - 1 is
-- an error. Floats, lower and upper case, the letters of Unicode, hashes, random bits and the order
-- of iteration of a map are parameters, with laws only where a theorem needs them. Awaited database
-- calls run one after another; each of them may fail, as the list of faults says. HTTP clients, the
-- reading and the printing of JSON are parameters; a stream is the list of its events, and what an
-- answer depends on besides its arguments is given by the number of the call. A generation sees its
-- token of cancellation through the answers to its looks at it, one after another.
--
-- Fuel. Retry.Loop.loop runs on fuel, one unit to a call of the operation; more than the retries left
-- is enough where no error asks for a delay, and no fuel is enough where every error does.
-- Tokens.heuristic_loop runs on the number of characters and one, since every round takes at least
-- one character. Learning.Pipeline.rounds is recursion on the six rounds that the loop makes at
-- most. The loops of Engine run on the fuel of Retry.Loop.loop; four rounds are enough for infer where
-- no error asks for a delay. Chat.Generation.generate_loop is recursion on the ten rounds of
-- MAX_TOOL_ITERATIONS.
--
-- Not modelled: serialization but that of the bus, the text of logs (but a slice that panics in one is
-- kept), the routes of health, memories and inference, most of those of learning, the configuration,
-- the cost table, the schema of tools
-- for OpenAI and the cache keys of other calls. The types that PostgreSQL checks are left out: a
-- statement acts where the database accepts it. A chunk of a body is the text that it decodes to.
-- The field min_confidence of the orchestrator, which nothing reads, is left out.
pub mod Routes
pub mod Storage
pub mod Bus
pub mod Common
pub mod Text
pub mod Float
pub mod Types
pub mod Retry
pub mod HashMap
pub mod Json
pub mod Backend
pub mod Cache
pub mod Engine
pub mod Chat
pub mod Context
pub mod Tokens
pub mod Tools
pub mod Embedding
pub mod Memory
pub mod Weaver
pub mod Learning
mod Tests
