-- ===== src/Lib.antt =====
-- The program eset-incident-ai (Python, src/eset_incident_ai, scripts and migrations): it polls ESET for
-- incidents and detections, sends new ones to a Discord channel once, keeps what it has done in
-- PostgreSQL, lets a person review pending notifications, and attaches an analysis by fixed rules.
--
-- The parts, and the files that model them. Paths are from src/eset_incident_ai of the
-- repository; scripts and migrations are at its root.
--
--   Prelude, Value, Externals, Regex   What the program uses of Python: texts, lists, decoded JSON
--     (truth, `or`, `dict.get`), `re`. `Externals` holds what is not implemented here: `repr`,
--     `json.dumps`, SHA-256, `datetime.fromisoformat`.
--   World, Exec   The state outside the process (the five tables, the messages that Discord accepted)
--     and a coroutine over it. Every external call (a statement, an HTTP request, a search) takes the
--     next entry of a list of faults: it works, it fails without effect, or it takes effect and its
--     answer is lost. Theorems under every list of faults cover each crash between two statements.
--     Exec.Triple and Exec.Quiet are the rules by which properties of coroutines are put together.
--   Domain   domain/enums/severity.py, domain/entities, domain/services/risk_scoring_service.py. A
--     score between 0.0 and 1.0 is a number of ten-thousandths.
--   Persistence   infrastructure/persistence: Deliveries (notification_repository.py), Runs.Incidents
--     and Runs.Detections (collection_run_repository.py, detection_collection_run_repository.py),
--     Approvals (approval_repository.py and detection_approval_repository.py, one model with a `Desk`
--     that says which), Approvals.Payload (what save_pending writes), Vectors (the search of
--     vector_repository.py), Knowledge (its two tables, and index_document), Schema (migrations/versions
--     and migrations/env.py, the CREATE TABLE statements of the repositories, and models.py).
--   Discord   infrastructure/discord: Webhook (webhook_client.py), Builders (the two notification
--     builders), MessageBuilder (message_builder.py).
--   UseCases   application/use_cases: Detections (collect_and_notify_detections.py), Incidents
--     (collect_and_notify_incidents.py), Review (review_pending_approval.py and
--     review_pending_detection_approval.py), Normalize (normalize_incident.py), Single (the use cases of
--     one call), Ports (what they share). `execute` is `execute`, `execute_run` is `_execute`; the body of
--     a loop is a function of its own.
--   Eset   infrastructure/eset: Http (an exchange and tenacity's retry, on a list of replies), Auth
--     (auth_client.py), Requests (detection_client.py, incident_client.py).
--   Agents   agents: State, Nodes, Router, Graph. `invoke` is the compiled graph.
--   Security   security: OutputPolicy (output_policy.py), Sanitizer (sanitizer.py), Detectors
--     (secret_detector.py, prompt_injection_filter.py), AccessControl.
--   Rag, Llm, Sorting   rag: Chunker (chunker.py), Reranker (reranker.py, citation_builder.py) on the
--     stable sort of Sorting, Indexer (document_factory.py, indexer.py), FileLoader (file_loader.py),
--     Embedder (infrastructure/embeddings/local_embedder.py); infrastructure/llm/local_gateway.py.
--   Settings, Api   settings/config.py; api: Dependencies (dependencies.py), Responses
--     (exception_handlers.py and what FastAPI makes of a handler), Routes (the routers, and the tasks of
--     infrastructure/queue/tasks.py), Health (health.py and readiness.py), App (bootstrap.py), Schedule
--     (infrastructure/queue/celery_app.py). A route is a function from the world to an answer and a world.
--   Scripts   scripts: Backfill (backfill_pending_detection_approvals.py), Ingest (ingest_knowledge.py),
--     Notify (notify_latest_eset_incidents.py), SmokeCheck (smoke_check.py).
--   Tests   Runs at concrete inputs.
--
-- How they interact: the two collectors and the two reviews call a notification builder, the webhook
-- and the delivery table; the collectors also call the run tables, an optional analyzer and the feed.
-- The feed of a collector is a function from a page token to a page. The collectors and the reviews
-- take a builder as a record, which Discord.Builders fills; the analyzer likewise. Api.Dependencies puts
-- them together from the settings, the routes and tasks run what it makes, and the smoke check takes any
-- server, which Api.App fills.
--
-- Bounds and fuel. `collect_pages` of the detections has the source's own bound, max_pages_per_run. The
-- pages of the incidents are a list. `chunks_from`, `iter_incidents` and `iter_detections` have fuel, and
-- theorems say how much is enough. `invoke` has LangGraph's limit of 25 steps, and no run needs more than
-- ten. A retry has the source's number of attempts. Integers of Python are natural numbers: a negative
-- setting is read as 0, which is what the comparisons of the source make of it.
--
-- Not modelled: SQL itself (a statement is what it does to the rows; connections, transactions and
-- `CREATE TABLE` change none; Schema has the tables, without their rows and with foreign keys that are
-- recorded and not enforced), two runs at the same time, the waits between attempts, the texts of some
-- error messages that hold a status, the log, argument parsers, the reading of the environment, urlsplit
-- and urljoin, the routes that answer with a constant, the norm of an embedding and the cosine similarity
-- (the embedder and the similarity are parameters of the search), the rounding of floats below a
-- ten-thousandth (so confidence_service.py), and deduplication_service.py, which nothing calls. The
-- adapters for OpenAI and the two SQLAlchemy repositories only raise NotImplementedError.
pub mod Regex
pub mod Llm
pub mod Sorting
pub mod Agents
pub mod Eset
pub mod Security
pub mod Rag
pub mod Prelude
pub mod Value
pub mod Externals
pub mod Domain
pub mod World
pub mod Exec
pub mod Results
pub mod Persistence
pub mod Discord
pub mod UseCases
pub mod Settings
pub mod Scripts
pub mod Api
mod Tests
