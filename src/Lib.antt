-- ===== src/Lib.antt =====
-- DocIntel: a document-intelligence platform. A gateway authenticates callers and sets headers; an
-- answering service (services/rag-service) retrieves chunks of documents, checks access to them
-- and streams an answer; an ingestion service (services/ingestion-service) turns uploaded files
-- into chunks; an analytics service (services/analytics-service-py) stores events. They share
-- lib/docintel-common.
--
-- Common: lists, texts and dicts over the native numbers. A text is a list of code points.
--
-- Shared.Security: lib/docintel-common/docintel_common/security.py, classification levels and the
-- caller's context (`UserContext.from_gateway_headers`).
--
-- Shared.InternalAuth: lib/docintel-common/docintel_common/internal_auth.py, the token with which the
-- gateway signs a request.
--
-- Shared.Profiles: lib/docintel-common/docintel_common/model_profile_resolver.py, the choice and the
-- merge of sampling parameters; Shared.Profiles.Cache: the caches of `ModelProfileResolver`.
--
-- Rag: services/rag-service/src.
--   Types, Events     events.py: the events of a stream and their order; documents and sources
--   Guard             pipelines/answer_guard.py, `TrailingRefusalGuard`
--   Opa               components/opa.py, `OpaChunkValidator.run`
--   Rerank            components/reranker.py, `LmforgeReranker.run`
--   Gate              pipelines/query.py, steps 7 and 8 of `RAGService.stream`
--   Retriever         components/retrieval.py, `SecureRetriever`: the access filter and the retrievers
--                     of a tenant
--   Cache             components/cache.py, `SemanticCacheChecker.run`, `SemanticCacheWriter.run`
--   Routing           components/routing.py and `_resolve_domain_filter`
--   Sources           `_build_section_label` and `_build_sources` of pipelines/query.py
--   Llm               pipelines/query.py, step 12: `streaming_callback` and the token loop
--   Engine, Stream    `RAGService.stream`, a function for each step. A step that yields and goes
--                     on is `emit`; a return is an `Outcome` of its own. The tasks that are started
--                     and not awaited are fields of the outcome.
--   Query             `RAGService.query`, which reads a stream to its end
--   Caller            api/dependencies.py, `require_internal_token` and `extract_user_context`
--   Conversations     db.py, the store of conversations, a function for each query
--   Conversations.History   `_load_conversation_history`, `_persist_conversation` and
--                     `_maybe_compress_history` of pipelines/query.py; the summarizer is awaited, so a
--                     compression is a plan and its rest, and other steps come in between
--
-- Ingestion: services/ingestion-service/src.
--   Jobs, Jobs.Registry   job_registry.py, `_Job` and `JobRegistry`
--   Jobs.Stream           `JobRegistry.stream`: a step of the machine is the code between two yields or
--                         awaits, and writers and time-outs come in between
--   Router                page_router.py
--   Metadata              pipeline.py, `meta_override` and `MetadataEnricher`; a chunk's metadata are a
--                         dictionary, as in the source
--   Splitter              pipeline.py, `TokenAwareSplitter`; the tokenizer is two functions
--   Single                pipeline.py, `_run_text` and `_build_chunk_payload`: conversion, enricher,
--                         splitter, pipeline and payloads, one after the other
--   Extraction, Shards    pipeline.py, `_run_pdf_sharded`: how a page is read, with the choices of
--                         Router, and the loop over the shards with its checkpoints. The document
--                         service's table of chunks is part of the state, and an append is the upsert
--                         by id of `DocumentService.appendChunks` in
--                         services/document-service/src/main/kotlin
--   Worker                stream_worker.py: the tenant queues of `run_stream_worker`
--   Worker.Handler        `_handle_message`, with the answers of all calls that may raise
--
-- Analytics: services/analytics-service-py/src/stream_consumer.py.
--   Row                   `_row_from_payload` and `_COLUMNS`
--   Consumer              `AnalyticsStreamConsumer`; a flush is two steps, before and behind its insert,
--                         which may raise, as each acknowledgement behind it may
--
-- What the code calls and this repository does not define (the vector store, the policy engine, the
-- reranker's HTTP reply, the models) is a field of `Rag.Engine.Engine` or an argument; `none` is an
-- exception where a call may raise. Scores are natural numbers in a fixed unit, since the code only
-- compares them. Names of models and their patterns are taken as ASCII, and the metadata that the
-- policy engine reads as free of nulls.
--
-- Fuel: `hold_scan` gets the number of positions that are left, which is what `range` gives;
-- `replay_pieces` gets the length of the text, and each piece takes at least one character; the loop of
-- `_hard_split` gets two rounds for each word and one more, since a round takes a word or ends a run;
-- the loop over the shards gets a round for each page and one more, since a shard has a page.
--
-- Not modelled: the prompts and models; tracing and costs, which change no event; the cancellation of
-- a stream whose client leaves; the HTTP routes and their serialisation; clients of external services;
-- the row-level security of the database; the factories of the Haystack pipelines; the services that
-- are written in Kotlin, and the web client.
pub mod Analytics
pub mod Common
pub mod Ingestion
pub mod Rag
pub mod Shared
