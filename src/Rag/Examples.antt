-- ===== src/Rag/Examples.antt =====
-- The theorems about the parts of the answering service, each at concrete data.
use docintel.Common.{
  refl, inl, inr, ◌≤◌, ◌≡◌, ◌≢◌, refl, none, List, [], ◌∷◌, codes, All, arith, map, length, not,
  keep,
}
use docintel.Rag.Types.{Document, hybrid}
use docintel.Rag.Demo.{demo_settings, demo_doc, demo_user}
use docintel.Rag.Opa.{unreachable, Policy, validate, chunk_allowed}
use docintel.Rag.Opa.Closed.{IsAllowed, validate-IsAllowed, validate_lem}
use docintel.Rag.Gate.{can_skip_rerank, rerank_or_skip, gate, use_reranker}
use docintel.Rag.Gate.Scale.{gate-outage}

abbrev two_docs : List Document
two_docs = demo_doc (codes "a") 90 ∷ demo_doc (codes "b") 10 ∷ []

-- An engine that cannot be reached.
abbrev down : Policy
down u c = unreachable

validate-IsAllowed_example :
    All (IsAllowed down demo_user) (validate down demo_user two_docs).documents
validate-IsAllowed_example = validate-IsAllowed down demo_user two_docs

validate_lem_example :
    ((validate down demo_user two_docs).documents ≡ keep (chunk_allowed down demo_user) two_docs)
    × ((validate down demo_user two_docs).audit.retrieved_chunk_ids ≡ map (λ d. d.id) two_docs)
    × ((validate down demo_user two_docs).audit.denied_chunk_ids
        ≡ map (λ d. d.id) (keep (λ d. not (chunk_allowed down demo_user d)) two_docs))
validate_lem_example = validate_lem down demo_user two_docs

abbrev ShortText : Document → Type 0
ShortText d = length d.content ≤ 4

gate-outage_example :
    gate demo_settings 70 5
      (rerank_or_skip demo_settings hybrid (λ ds. none) two_docs).scored
      (rerank_or_skip demo_settings hybrid (λ ds. none) two_docs).documents
    ≢ []
unfolding rerank_or_skip use_reranker can_skip_rerank
gate-outage_example =
    gate-outage demo_settings hybrid (λ ds. none) 70 5 two_docs (λ e. cc e) (omega arith)
      (omega arith) (λ r e. cc e) (inr (inl refl))
