-- ===== src/Rag/Gate.antt =====
-- services/rag-service/src/pipelines/query.py, steps 7 and 8 of `RAGService.stream`: rerank, or
-- skip it, and then the relevance gate. Scores, thresholds and limits are numbers in fixed units.
pub mod Scale
pub mod Keep
use docintel.Common.{
  ℕ, Bool, true, false, not, ◌&&◌, Option, none, some, List, [], ◌∷◌, take, keep, is_empty, leb,
  ltb, min, if◌then◌else◌,
}
use docintel.Rag.Types.{Document, score_of, RetrievalMode, hybrid, dense}
use docintel.Rag.Rerank.{RerankResult}

-- The settings that the stream reads.
pub record Settings : Type 0 where
  pub rag_default_top_k : ℕ
  pub rag_reranker_top_k : ℕ
  pub rag_min_relevance_score : ℕ
  pub rag_min_context_score : ℕ
  pub rag_min_score_fallback_topk : ℕ
  pub rag_rerank_skip_enabled : Bool
  pub rag_rerank_skip_min_score : ℕ
  pub rag_cache_replay_chunk_chars : ℕ
  pub use_query_expansion : Bool

-- The documents after step 7 and its flags. `scored` is `reranker_scored`.
pub record Reranked : Type 0 where
  pub documents : List Document
  pub scored : Bool
  pub is_degraded : Bool
  pub skipped : Bool

abbrev is_hybrid : RetrievalMode → Bool
is_hybrid hybrid = true
is_hybrid dense = false

-- `documents[0].score or 0.0`.
abbrev pub top_score : List Document → ℕ
top_score [] = 0
top_score (d ∷ ds) = score_of d

unfoldable pub can_skip_rerank : Settings → RetrievalMode → List Document → Bool
can_skip_rerank cfg mode documents =
    cfg.rag_rerank_skip_enabled
    && is_hybrid mode
    && leb cfg.rag_rerank_skip_min_score (top_score documents)

-- The reranker's answer; `none` is an exception.
unfoldable pub use_reranker : List Document → Option RerankResult → Reranked
use_reranker documents none = record {
  documents = documents;
  scored = false;
  is_degraded = true;
  skipped = false;
}
use_reranker documents (some r) = record {
  documents = r.documents;
  scored = not r.reranker_degraded;
  is_degraded = r.reranker_degraded;
  skipped = false;
}

-- Step 7 at a non-empty list, with reranking on.
unfoldable pub rerank_or_skip :
    Settings → RetrievalMode → (List Document → Option RerankResult) → List Document → Reranked
rerank_or_skip cfg mode reranker documents =
    if can_skip_rerank cfg mode documents
    then record {
      documents = take cfg.rag_reranker_top_k documents;
      scored = false;
      is_degraded = false;
      skipped = true;
    }
    else use_reranker documents (reranker documents)

-- The documents that clear the gate: the answerability test on the top score, and then the floor
-- for context.
pub above_gate : Settings → ℕ → List Document → List Document
above_gate cfg min_score documents =
    if leb min_score (top_score documents)
    then (let floor = min cfg.rag_min_context_score min_score in
        keep (λ d. leb floor (score_of d)) documents)
    else []

-- Step 8: the gate applies only to documents with reranker scores.
pub gate : Settings → ℕ → ℕ → Bool → List Document → List Document
gate cfg min_score top_k scored documents =
    let above = above_gate cfg min_score documents in
    let fallback = cfg.rag_min_score_fallback_topk in
    take top_k (
      if ltb 0 min_score && scored
      then (if is_empty above && ltb 0 fallback then take fallback documents else above)
      else documents)
