-- ===== src/Rag/Gate/Scale.antt =====
-- The relevance gate works on reranker scores only, and abstains exactly when the best one is low.
use docintel.Common.{
  none, refl, ◌⊎◌, ◌≤◌, All, All-map, All-take, length, length-take, keep_holds, ℕ, zero, suc, ◌<◌,
  ◌≡◌, ◌≢◌, true, false, inl, inr, Bool-cases, Option-cases, Option, some, List, [], ◌∷◌, take, leb,
  leb→le, min, arith,
}
use docintel.Rag.Types.{Document, score_of, RetrievalMode}
use docintel.Rag.Rerank.{RerankResult}
use docintel.Rag.Gate.{
  top_score, Settings, can_skip_rerank, use_reranker, rerank_or_skip, above_gate, gate,
}

take-filled : (k : ℕ) (ds : List Document) → 0 < k → ds ≢ [] → take k ds ≢ []
take-filled zero ds h n = absurd (omega arith)
take-filled (suc k) [] h n = n
take-filled (suc k) (d ∷ ds) h n = λ e. cc e

-- Without reranker scores the gate only cuts the list at `top_k`, whatever the thresholds and the
-- scores are.
pub gate-unscored :
    (cfg : Settings) (min_score top_k : ℕ) (ds : List Document)
    → gate cfg min_score top_k false ds ≡ take top_k ds
unfolding gate
gate-unscored cfg m k ds = ground arith

-- No scores from the reranker: it is not asked, it raises, or its answer is a degraded one.
abbrev pub Unranked :
    Settings → RetrievalMode → (List Document → Option RerankResult) → List Document → Type 0
Unranked cfg mode reranker ds =
    (can_skip_rerank cfg mode ds ≡ true)
    ⊎ (reranker ds ≡ none)
    ⊎ ((r : RerankResult) × (reranker ds ≡ some r) × (r.reranker_degraded ≡ true))

pub rerank_or_skip-unscored :
    (cfg : Settings) (mode : RetrievalMode) (reranker : List Document → Option RerankResult)
    → (ds : List Document) → Unranked cfg mode reranker ds
    → (rerank_or_skip cfg mode reranker ds).scored ≡ false
unfolding rerank_or_skip use_reranker
rerank_or_skip-unscored cfg mode reranker ds u = elim (Bool-cases (can_skip_rerank cfg mode ds)) [
  | inl skip ↦ rw skip refl
  | inr ask ↦ rw ask (elim u [
    | inl skip ↦ cc (ask, skip)
    | inr (inl raised) ↦ rw raised refl
    | inr (inr (r, answered, degraded)) ↦ rw (answered, degraded) refl
  ])
]

-- Documents that the policy let through are never gated out in an outage: if the reranker raised,
-- answered with a non-empty list that is marked as degraded, or was skipped, then some are left for
-- the prompt, whatever their scores, provided that the limits are not 0.
pub gate-outage :
    (cfg : Settings) (mode : RetrievalMode) (reranker : List Document → Option RerankResult)
    → (min_score top_k : ℕ) (ds : List Document) → ds ≢ []
    → 0 < top_k
    → 0 < cfg.rag_reranker_top_k
    → ((r : RerankResult) → reranker ds ≡ some r → r.documents ≢ [])
    → Unranked cfg mode reranker ds
    → gate cfg min_score top_k
        (rerank_or_skip cfg mode reranker ds).scored
        (rerank_or_skip cfg mode reranker ds).documents
      ≢ []
unfolding rerank_or_skip use_reranker
gate-outage cfg mode reranker m k ds n hk hr filled u =
    rw (rerank_or_skip-unscored cfg mode reranker ds u, gate-unscored)
      (elim (Bool-cases (can_skip_rerank cfg mode ds)) [
        | inl skip ↦ rw skip (take-filled k _ hk (take-filled cfg.rag_reranker_top_k ds hr n))
        | inr ask ↦ rw ask (elim (Option-cases (reranker ds)) [
          | inl raised ↦ rw raised (take-filled k ds hk n)
          | inr (r, answered) ↦ rw answered (take-filled k r.documents hk (filled r answered))
        ])
      ])

above_gate-floor :
    (cfg : Settings) (m : ℕ) (ds : List Document)
    → All (λ d. min cfg.rag_min_context_score m ≤ score_of d) (above_gate cfg m ds)
unfolding above_gate
above_gate-floor cfg m ds = elim (Bool-cases (leb m (top_score ds))) [
  | inl clears ↦ rw clears (
      All-map (λ d h. leb→le (min cfg.rag_min_context_score m) (score_of d) h) _
        (keep_holds (λ d. leb (min cfg.rag_min_context_score m) (score_of d)) ds))
  | inr fails ↦ rw fails tt
]

gate-above :
    (cfg : Settings) (m k : ℕ) (ds : List Document)
    → 0 < m
    → cfg.rag_min_score_fallback_topk ≡ 0
    → gate cfg m k true ds ≡ take k (above_gate cfg m ds)
unfolding gate
gate-above cfg m k ds hm nofall = ground arith

-- With reranker scores, a positive threshold and no fallback, every document left has at least
-- the floor's score, the smaller of the context score and the threshold, and there are at most
-- `top_k` of them.
pub gate-floor :
    (cfg : Settings) (min_score top_k : ℕ) (ds : List Document)
    → 0 < min_score
    → cfg.rag_min_score_fallback_topk ≡ 0
    → All
        (λ d. min cfg.rag_min_context_score min_score ≤ score_of d)
        (gate cfg min_score top_k true ds)
      × (length (gate cfg min_score top_k true ds) ≤ top_k)
gate-floor cfg m k ds hm nofall =
    rw (gate-above cfg m k ds hm nofall) (
      All-take _ k _ (above_gate-floor cfg m ds),
      omega (arith, length-take k (above_gate cfg m ds)),
    )
