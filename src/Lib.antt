-- ===== src/Lib.antt =====
-- NexusAI: a multi-tenant service that answers questions over uploaded documents. The services of
-- app/services work on the tables of app/models and on a vector store, and call an embedding model
-- and a language model; app/core and app/api stand around them. Every tenant's data is bound to a
-- workspace.
--
-- Base holds what the modules share: lists measured by native numbers, Python's `dict` in insertion
-- order, stable sorting, `str` as a list of code points, lists that keep their last entries, and
-- code that may raise (`Exec`, `Result`), where the writes before a raise stay.
-- Config is app/core/config.py, Database the tables of app/models as lists of rows.
-- RateLimit is the middleware of app/core/ratelimit.py; Window relates it to the requests it counted,
-- Served to those that arrive.
-- Similarity is the `_cosine` that three files share. SemanticCache is
-- app/services/semantic_cache.py, AgentMemory the memory of app/services/agent/memory.py.
-- VectorStore is the protocol of app/ai/vectorstore/base.py as a record of operations with a
-- contract, VectorStore.Memory the store of app/ai/vectorstore/memory.py that meets it,
-- VectorStore.Qdrant the adapter of qdrant.py there over a client, and VectorStore.Factory is
-- factory.py, which chooses between them.
-- Chunker is app/services/ingestion/chunker.py, Extractors is extractors.py and Ingestion is
-- pipeline.py beside it, over a `World` of the session, what is committed, the files and the vectors.
-- Documents is app/services/document_service.py and the task of app/workers/tasks.py, Conversations
-- is app/services/conversation_service.py. Metrics is app/core/metrics.py and Envelope is
-- app/core/errors.py.
-- Workspaces is app/services/workspace_service.py.
-- Auth is app/services/auth_service.py with token_service.py and user_service.py,
-- app/core/security.py and the current user of app/api/deps.py.
-- Providers holds the protocols of app/ai/embeddings/base.py and app/ai/llm/base.py.
-- Retrieval is app/services/retrieval.py: it takes any vector store and any provider, so that what
-- is proved of it holds with each implementation that keeps the contract.
-- Fetcher is app/services/ingestion/fetcher.py, with the ingestion from a URL.
-- Process is the state of a serving process: the world of a request's session (app/db/session.py),
-- the answer cache, the agent's memory and the metrics. Over it, Chat is
-- app/services/chat_service.py, and Agent is app/services/agent/orchestrator.py with tools.py. Both
-- call Retrieval in the session of the request; Chat keeps its answers in SemanticCache, Agent its
-- conclusions in AgentMemory.
-- Middleware is the stack that app/main.py puts around the application: app/core/observability.py,
-- context.py, security_headers.py and the limiter, over any handler.
-- Routes is app/api/v1: each endpoint as a handler that calls the services over a Process and turns
-- their errors into statuses; Routes.Entry is about the current user of app/api/deps.py.
-- Mocks is the offline providers of app/ai/llm/mock.py and app/ai/embeddings/mock.py.
-- OpenAi is the set-up and the stream parser of app/ai/llm/openai.py, with the factories of the
-- providers. Evaluation is app/eval/metrics.py and harness.py, over Retrieval.
--
-- A UUID is a number, and so is a time. A float is of any type with the operations of
-- `FloatOps`; a theorem on sorting asks that `<=` is a total order, which it is on floats other
-- than NaN. SHA-256, MD5, PyJWT, Argon2, `uuid`, `str.lower`, ILIKE, `urllib`, httpx, the Qdrant
-- client, FastAPI's `HTTPBearer` and the heading expression are parameters, with what their
-- libraries document as hypotheses where a theorem needs it.
-- Two loops have fuel: that of the chunker over a page, with the length of the text, where each step
-- is at least 1, and that over batches, with the number of texts, where each batch takes one or more.
--
-- Not modelled: the validation of payloads by pydantic, logging, tracing, migrations, Celery
-- and the HTTP calls of the OpenAI client. A query gives rows in table order, as far as
-- an ORDER BY leaves it open: rows are added at the end of their table, so that this is the order of
-- `created_at` where a transaction adds one row. Messages, of which it adds two, are ordered by their
-- times. Two requests do not interleave within a call. What a clock measures is an argument of the call.
pub mod Base
pub mod Config
pub mod RateLimit
pub mod Similarity
pub mod SemanticCache
pub mod VectorStore
pub mod AgentMemory
pub mod Chunker
pub mod Extractors
pub mod Ingestion
pub mod Documents
pub mod Conversations
pub mod Metrics
pub mod Envelope
pub mod Database
pub mod Workspaces
pub mod Auth
pub mod Providers
pub mod Retrieval
pub mod Tests
pub mod Process
pub mod Chat
pub mod Agent
pub mod Fetcher
pub mod Middleware
pub mod Mocks
pub mod Routes
pub mod Evaluation
pub mod OpenAi
