-- ===== src/Rag/Stream.antt =====
-- `RAGService.stream` of services/rag-service/src/pipelines/query.py: a step of the source is a
-- function here, and calls the next one.
pub mod Protocol
pub mod Access
pub mod Retrieved
pub mod Effects
pub mod Leak
mod Examples
use docintel.Common.{
  is_some, ℕ, zero, suc, Bool, true, false, not, ◌&&◌, ◌||◌, ◌==◌, Option, none, some, List, [],
  ◌∷◌, ◌++◌, Text, codes, take, drop, length, any, is_empty, strip, text_eq, ltb, if◌then◌else◌,
}
use docintel.Shared.Security.{UserContext}
use docintel.Rag.Types.{
  Document, RetrievalMode, Source, MetadataFields, Failure, embedding_failed, retrieval_failed,
  policy_check_failed, prompt_build_failed, generation_failed, PipelineEvent, metadata_event,
  routing_event, queued_event, token_event, sources_event, error_event,
}
use docintel.Rag.Opa.{Policy, get_or_default, Validated, validate}
use docintel.Rag.Rerank.{RerankReply, rerank}
use docintel.Rag.Gate.{Settings, Reranked, rerank_or_skip, gate}
use docintel.Rag.Cache.{CachePoint, check, write_point}
use docintel.Rag.Routing.{RouterOutput, explicit_type, resolve_domain_filter}
use docintel.Rag.Sources.{build_sources}
use docintel.Rag.Guard.{new_guard}
use docintel.Rag.Llm.{Chunk, enqueue_all, Drained, run_queue}
use docintel.Rag.Engine.{
  Engine, Request, Turn, Outcome, emit, only, plain_metadata, replay_pieces, no_docs_text, turns_of,
  union_by_id,
}

module _ {V S : Type 0} (cfg : Settings) (e : Engine V S) (req : Request) where
  open req use {question, tenant_id, user_context, document_type}

  -- Steps 13 to 16, for an answer after `strip`.
  pub finish_answer : List Document → Text → Outcome
  finish_answer documents answer =
      let sources = build_sources documents in
      record {
        events = sources_event sources ∷ [];
        cache_writes =
            if req.use_cache && e.has_cache && not (is_empty answer)
            then write_point answer sources tenant_id (codes "internal") [] ∷ []
            else [];
        turns =
            turns_of req.conversation_id
              (record { question = question; answer = answer; sources = sources });
      }

  -- What follows the tokens: an error of the engine counts only if nothing was streamed.
  pub conclude : List Document → Drained → Bool → Outcome
  conclude documents d failed =
      if failed && is_empty d.answer && is_empty d.thinking_parts
      then only (error_event generation_failed ∷ [])
      else finish_answer documents (strip d.answer)

  -- Step 12: the answer's tokens.
  pub generate : List Document → Outcome
  generate documents =
      let (chunks, failed) = e.llm documents in
      let d =
        run_queue (new_guard e.refusal_sentence) (enqueue_all req.effective_thinking chunks) in
      emit d.events (conclude documents d failed)

  -- Step 9.
  pub answer_without_documents : Outcome
  answer_without_documents =
      let text = no_docs_text e.collection_count question in
      record {
        events = token_event text ∷ sources_event [] ∷ [];
        cache_writes = [];
        turns =
            turns_of req.conversation_id
              (record { question = question; answer = text; sources = [] });
      }

  -- Steps 8b, 9, 10 and 11.
  pub answer_from : List Document → Outcome
  answer_from documents =
      if req.retrieve_only
      then only (sources_event (build_sources documents) ∷ [])
      else if is_empty documents
      then answer_without_documents
      else if e.build_prompt documents
      then emit (if e.semaphore_locked then queued_event ∷ [] else []) (generate documents)
      else only (error_event prompt_build_failed ∷ [])

  -- Step 8.
  pub gate_documents : Bool → List Document → Outcome
  gate_documents scored documents = answer_from (
      gate cfg (get_or_default req.min_score cfg.rag_min_relevance_score)
        (get_or_default req.top_k cfg.rag_default_top_k) scored documents)

  -- Step 7.
  pub rerank_documents : RetrievalMode → List Document → Outcome
  rerank_documents mode documents =
      if req.use_reranking && not (is_empty documents)
      then (let r =
            rerank_or_skip cfg mode (λ ds. rerank cfg.rag_reranker_top_k ds none (e.rerank_post ds))
              documents in
          emit
            (metadata_event (record plain_metadata {
              reranker_degraded = some r.is_degraded;
              rerank_candidates_in = some (length documents);
              rerank_candidates_out = some (length r.documents);
              rerank_skipped = some r.skipped;
            })
              ∷ [])
            (gate_documents r.scored r.documents))
      else gate_documents false documents

  -- Step 6.
  pub check_policy : RetrievalMode → List Document → Outcome
  check_policy mode retrieved =
      if is_empty retrieved
      then rerank_documents mode []
      else if e.audit_fails
      then only (error_event policy_check_failed ∷ [])
      else rerank_documents mode (validate e.policy user_context retrieved).documents

  -- The candidates of step 5, with those of the expanded query.
  pub candidates : Option Text → Option (V × Option S) → List Document → List Document
  candidates domain_filter none retrieved = retrieved
  candidates domain_filter (some (v, s)) retrieved = elim (e.retrieve v s domain_filter) [
    | none ↦ retrieved
    | some (more, _) ↦ union_by_id retrieved more
  ]

  -- Steps 4 and 5.
  pub retrieve_documents : V → Option S → Option (V × Option S) → Outcome
  retrieve_documents v s expanded =
      let (detected, domain_filter) = resolve_domain_filter document_type (e.route question) in
      emit (routing_event detected (is_some (explicit_type document_type)) ∷ [])
        (elim (e.retrieve v s domain_filter) [
          | none ↦ only (error_event retrieval_failed ∷ [])
          | some (retrieved, mode) ↦
              emit
                (metadata_event (record plain_metadata {
                  retrieval_mode = some mode;
                  query_expanded = some (is_some expanded);
                })
                  ∷ [])
                (check_policy mode (candidates domain_filter expanded retrieved))
        ])

  -- The embeddings of one text; both calls have to return.
  pub embed : Text → Option (V × Option S)
  embed text = elim (e.dense text) [
    | none ↦ none
    | some v ↦ elim (e.sparse text) [ none ↦ none | some s ↦ some (v, s) ]
  ]

  -- Step 3b: the embeddings of the expanded query, if it differs from the question.
  pub expand_query : Option (V × Option S)
  expand_query =
      if cfg.use_query_expansion
      then (let expanded = get_or_default (e.expand question) question in
          if not (is_empty expanded) && not (text_eq (strip expanded) (strip question))
          then embed expanded
          else none)
      else none

  -- Step 3: the events of a cache hit, and whether the stream ends with them. A replay in pieces
  -- of size 0 raises, and the stream goes on without the cache.
  pub replay_cached : CachePoint → List PipelineEvent × Bool
  replay_cached p =
      let hit = metadata_event (record plain_metadata { cache_hit = true }) in
      let size = cfg.rag_cache_replay_chunk_chars in
      if size == 0 then (hit ∷ [], false) else (
        hit ∷ replay_pieces (length p.response) size p.response ++ sources_event p.sources ∷ [],
        true,
      )

  pub check_cache : V → List PipelineEvent × Bool
  check_cache v =
      if req.use_cache && e.has_cache
      then elim (e.cache_search v) [
        | none ↦ ([], false)
        | some near ↦ elim (check near tenant_id (some user_context)) [
          | none ↦ ([], false)
          | some p ↦ replay_cached p
        ]
      ]
      else ([], false)

  -- Steps 1 and 2, and the whole stream.
  pub stream : Outcome
  stream =
      emit (metadata_event (record plain_metadata { has_context = req.has_summary }) ∷ [])
        (elim (embed question) [
          | none ↦ only (error_event embedding_failed ∷ [])
          | some (v, s) ↦
              let (events, ended) = check_cache v in
              if ended then only events else emit events (retrieve_documents v s expand_query)
        ])
