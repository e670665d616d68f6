-- ===== src/Lib.antt =====
-- auto_review: a model of the review bot in this repository, with the theorems on it.
--
-- The program receives webhooks of a repository host, decides which of them ask for something, runs
-- reviews of pull requests with language models and posts them. The parts that are modelled, and
-- the files that model them:
--
--   Prelude        shared names, Boolean tests, results, lists, texts as lists of Unicode scalar
--                  values, association lists, byte lengths and character boundaries, searches.
--   Forge          crates/ar-forge/src/lib.rs: the data of a host.
--   Forgejo        crates/ar-forgejo/src/webhook.rs: the webhook payloads; Client (client.rs).
--   Llm            crates/ar-llm/src/types.rs and router.rs: requests to a model by tier.
--   Chat           crates/ar-chat/src: Command (command.rs), and of handler.rs State, Handler (`handle`
--                  and the commands), Override and Caveat (the request for an approval), Suggest,
--                  DiffPaths and Fence (the proposals of patches and tests).
--   AgentCore      crates/ar-agentcore/src/lib.rs: the endpoints for invocations and their keys.
--   Index          crates/ar-index/src: Learnings (learnings.rs), CoChange (co_change.rs) and Embed
--                  (embed.rs, with the store in memory of vector_store.rs).
--   Bench          crates/ar-cli/src/bench.rs: the score of a review.
--   Gateway        crates/ar-gateway/src: Webhook (webhook.rs, `handle` and the handlers it calls),
--                  CiReview (webhook.rs, `handle_ci_review`), Hmac, Dedup, RateLimit, Metrics and
--                  ReviewMetrics (metrics.rs), Cursors and Poller (poller.rs), Startup and Startup/Env
--                  (startup.rs, the isolation of the process and the environment of the inner gateway).
--   Orchestrator   crates/ar-orchestrator/src: History (review_history.rs), State (state.rs), Jobs,
--                  Report and Dispatcher (dispatcher.rs, `run_review_job` and the task around it), Queue
--                  (dispatcher.rs, the tasks of several jobs under the concurrency limit).
--   Review         crates/ar-review/src: Diff, Ignored, Triage, Marker (override_marker.rs), Mapping,
--                  Heal, Verify, Agentic (agentic_verify.rs), WorkspaceTools (workspace_tools.rs);
--                  Context (context_builder.rs, the shared store of symbols);
--                  Filters, Metadata, Host, Args and Pipeline (pipeline.rs, `review_pull_request`).
--   Tests          fixtures, and each theorem at a concrete input.
--
-- A webhook goes through Gateway.Webhook, which spawns a chat task at most; the CI endpoint in
-- Gateway.CiReview dispatches a job. Orchestrator.Dispatcher runs it: it reads and writes the
-- history, posts commit statuses and calls Review.Pipeline, which asks the models through Llm,
-- filters what they answer and posts one review. An invocation in AgentCore gives a job to the same
-- dispatcher, as does the command for a new review in Chat.Handler. The poller reads comments and
-- shares its cursors with the webhook.
--
-- Functions of the source are functions by clauses under the same name; a part of a long function
-- that has a name here is named for what it does. State is passed explicitly. What is changed at
-- the host, spawned, observed or counted is appended to a list in the state, in the order of the
-- source. A host and a model are services: they are records of functions that take a state of their
-- own and give it back, so their answers may depend on everything that was asked before. JSON
-- decoding, hex, HMAC, regular expressions, globs and the file system belong to third-party crates
-- and are parameters, as are the texts of the prompts, the cost footer and the preparation of a
-- workspace.
--
-- Numbers are unbounded where the source counts (counters, lengths); a 64-bit id is bounded where
-- it is parsed. The rate limiter's floating point is modelled by whole numbers of billionths of a
-- token and of nanoseconds. Loops are structural recursion: over the attempts and turns that are
-- left, over the lines, sections, findings and comments, and over the depth that is left of a
-- directory walk. The only fuel is that of decimal printing, the number itself plus one, that of
-- Prelude.Replace, the length of the text plus one, of which each match uses up at least one, and
-- that of `Orchestrator.State.drive`, fifteen steps for sixteen states. A Rust panic is a value:
-- `none` in Review.Metadata and `panicked` in Review.Heal; the supervising task handles it.
--
-- Not modelled: HTTP itself, SQL and DynamoDB stores, cloning, the similarity of vectors, the layout
-- of the retrieved context, the command line, the wiring at start-up, configuration files, durations,
-- the text format of the metrics.
pub mod AgentCore
pub mod Bench
pub mod Chat
pub mod Forge
pub mod Forgejo
pub mod Gateway
pub mod Index
pub mod Llm
pub mod Orchestrator
pub mod Prelude
pub mod Review
pub mod Tests
