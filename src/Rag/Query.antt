-- ===== src/Rag/Query.antt =====
-- `RAGService.query` of services/rag-service/src/pipelines/query.py: the stream, read to its end.
pub mod Drain
mod Examples
use docintel.Common.{
  ℕ, Bool, true, false, Option, none, some, List, [], ◌∷◌, ◌++◌, Text, strip, if◌then◌else◌,
}
use docintel.Rag.Types.{
  Source, RetrievalMode, MetadataFields, PipelineEvent, metadata_event, routing_event, queued_event,
  thinking_token_event, token_event, sources_event, error_event, status_event,
}
use docintel.Rag.Gate.{Settings}
use docintel.Rag.Engine.{Engine, Request}
use docintel.Rag.Stream.{stream}

-- What is gathered from the events; the texts are those of the tokens so far.
pub record Gathered : Type 0 where
  pub full_answer : Text
  pub full_thinking : Text
  pub sources : List Source
  pub cache_hit : Bool
  pub detected_domain : Option Text
  pub retrieval_mode : Option RetrievalMode
  pub rerank_candidates_in : Option ℕ
  pub rerank_candidates_out : Option ℕ
  pub reranker_degraded : Option Bool
  pub query_expanded : Option Bool
  pub rerank_skipped : Option Bool

abbrev pub nothing_gathered : Gathered
nothing_gathered = record {
  full_answer = [];
  full_thinking = [];
  sources = [];
  cache_hit = false;
  detected_domain = none;
  retrieval_mode = none;
  rerank_candidates_in = none;
  rerank_candidates_out = none;
  reranker_degraded = none;
  query_expanded = none;
  rerank_skipped = none;
}

-- `if new is not None: old = new`.
abbrev pub newer {ℓ} : {A : Type ℓ} → Option A → Option A → Option A
newer old none = old
newer old (some a) = some a

-- The branch of `match event`; `none` is the RuntimeError.
unfoldable pub gather : Gathered → PipelineEvent → Option Gathered
gather g (metadata_event m) = some (record g {
  cache_hit = m.cache_hit;
  retrieval_mode = newer g.retrieval_mode m.retrieval_mode;
  rerank_candidates_in = newer g.rerank_candidates_in m.rerank_candidates_in;
  rerank_candidates_out = newer g.rerank_candidates_out m.rerank_candidates_out;
  reranker_degraded = newer g.reranker_degraded m.reranker_degraded;
  query_expanded = newer g.query_expanded m.query_expanded;
  rerank_skipped = newer g.rerank_skipped m.rerank_skipped;
})
gather g (routing_event d x) = some (record g { detected_domain = d })
gather g queued_event = some g
gather g (thinking_token_event t) = some (record g { full_thinking = g.full_thinking ++ t })
gather g (token_event t) = some (record g { full_answer = g.full_answer ++ t })
gather g (sources_event ss) = some (record g { sources = ss })
gather g (error_event m) = none
gather g (status_event t) = some g

-- `async for event in self.stream(...)`.
unfoldable pub drain : Gathered → List PipelineEvent → Option Gathered
drain g [] = some g
drain g (ev ∷ evs) = elim (gather g ev) [ none ↦ none | some h ↦ drain h evs ]

-- The entries of the dictionary that `query` returns, but for the latency, the model's name and the
-- counts of tokens and costs.
pub record Response : Type 0 where
  pub answer : Text
  pub thinking : Text
  pub sources : List Source
  pub cache_hit : Bool
  pub detected_domain : Option Text
  pub retrieval_mode : Option RetrievalMode
  pub rerank_candidates_in : ℕ
  pub rerank_candidates_out : ℕ
  pub reranker_degraded : Bool
  pub query_expanded : Bool
  pub rerank_skipped : Bool

-- `value or default`.
abbrev pub value_or {ℓ} : {A : Type ℓ} → A → Option A → A
value_or d none = d
value_or d (some a) = a

unfoldable pub response_of : Gathered → Response
response_of g = record {
  answer = strip g.full_answer;
  thinking = strip g.full_thinking;
  sources = g.sources;
  cache_hit = g.cache_hit;
  detected_domain = g.detected_domain;
  retrieval_mode = g.retrieval_mode;
  rerank_candidates_in = value_or 0 g.rerank_candidates_in;
  rerank_candidates_out = value_or 0 g.rerank_candidates_out;
  reranker_degraded = value_or false g.reranker_degraded;
  query_expanded = value_or false g.query_expanded;
  rerank_skipped = value_or false g.rerank_skipped;
}

unfoldable pub query : {V S : Type 0} → Settings → Engine V S → Request → Option Response
query cfg e req = elim (drain nothing_gathered (stream cfg e req).events) [
  | none ↦ none
  | some g ↦ some (response_of g)
]
