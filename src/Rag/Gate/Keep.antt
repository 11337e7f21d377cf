-- ===== src/Rag/Gate/Keep.antt =====
-- Steps 7 and 8 bring in no document: what holds of all documents whatever their scores still
-- holds after them.
use docintel.Common.{
  ℕ, ◌≡◌, Bool, inl, inr, Bool-cases, Option-cases, Option, some, List, All, All-take, All-keep,
  is_empty, leb, ltb, ◌&&◌,
}
use docintel.Rag.Types.{Document, RetrievalMode}
use docintel.Rag.Rerank.{RerankResult}
use docintel.Rag.Gate.{
  Settings, can_skip_rerank, use_reranker, rerank_or_skip, top_score, above_gate, gate,
}

module _ (P : Document → Type 0) (cfg : Settings) where
  pub rerank_or_skip-All :
      (mode : RetrievalMode) (reranker : List Document → Option RerankResult) (ds : List Document)
      → All P ds
      → ((r : RerankResult) → reranker ds ≡ some r → All P r.documents)
      → All P (rerank_or_skip cfg mode reranker ds).documents
  unfolding rerank_or_skip use_reranker
  rerank_or_skip-All mode reranker ds h keeps = elim (Bool-cases (can_skip_rerank cfg mode ds)) [
    | inl skip ↦ rw skip (All-take P cfg.rag_reranker_top_k ds h)
    | inr ask ↦ rw ask (elim (Option-cases (reranker ds)) [
      | inl raised ↦ rw raised h
      | inr (r, answered) ↦ rw answered (keeps r answered)
    ])
  ]

  above_gate-All : (m : ℕ) (ds : List Document) → All P ds → All P (above_gate cfg m ds)
  unfolding above_gate
  above_gate-All m ds h = elim (Bool-cases (leb m (top_score ds))) [
    | inl clears ↦ rw clears (All-keep P _ ds h)
    | inr fails ↦ rw fails tt
  ]

  pub gate-All :
      (m k : ℕ) (scored : Bool) (ds : List Document) → All P ds → All P (gate cfg m k scored ds)
  unfolding gate
  gate-All m k scored ds h = All-take P k _ (elim (Bool-cases (ltb 0 m && scored)) [
    | inr off ↦ simp off h
    | inl on ↦
        simp on
          (elim (Bool-cases
            (is_empty (above_gate cfg m ds) && ltb 0 cfg.rag_min_score_fallback_topk)) [
              | inl fall ↦ simp fall (All-take P cfg.rag_min_score_fallback_topk ds h)
              | inr normal ↦ simp normal (above_gate-All m ds h)
            ])
  ])
