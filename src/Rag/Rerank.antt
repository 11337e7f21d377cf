-- ===== src/Rag/Rerank.antt =====
-- services/rag-service/src/components/reranker.py: the reranker client. The HTTP reply is an
-- argument.
pub mod Order
use docintel.Common.{
  ℕ, zero, suc, Bool, true, false, ◌==◌, Option, none, some, List, [], ◌∷◌, Text, codes, text_eq,
  take, leb, if◌then◌else◌,
}
use docintel.Rag.Types.{Document, score_of}

-- A result of the rerank endpoint: `index` and `relevance_score`.
abbrev pub Ranked : Type 0
Ranked = ℕ × ℕ

-- What `httpx.post` gives: a transport error; a status that is not 200, with the error code of its
-- body; or a body with its `score_type` and its results; or a body that is no JSON.
pub data RerankReply : Type 0 where
  transport_error : RerankReply
  http_error : ℕ → Option Text → RerankReply
  not_json : RerankReply
  body : Option Text → List Ranked → RerankReply

-- `degraded_reason`. `http_status n` is the text `http_<n>`.
pub data Reason : Type 0 where
  unavailable unsupported_score_contract : Reason
  known_code : Text → Reason
  http_status : ℕ → Reason

pub record RerankResult : Type 0 where
  pub documents : List Document
  pub reranker_degraded : Bool
  pub degraded_reason : Option Reason

-- `_error_code`.
pub error_code : ℕ → Option Text → Reason
error_code status none = http_status status
error_code status (some code) =
    if text_eq code (codes "query_too_long")
    then known_code code
    else if text_eq code (codes "input_too_long")
    then known_code code
    else if text_eq code (codes "reranker_unusable")
    then known_code code
    else http_status status

-- `_degraded`: retrieval order, cut at `top_k`.
unfoldable pub degraded : List Document → ℕ → Reason → RerankResult
degraded documents top_k reason = record {
  documents = take top_k documents;
  reranker_degraded = true;
  degraded_reason = some reason;
}

-- `documents[i]`; `none` is the IndexError.
pub document_at : List Document → ℕ → Option Document
document_at [] i = none
document_at (d ∷ ds) zero = some d
document_at (d ∷ ds) (suc i) = document_at ds i

-- The loop that copies each document with its new score.
pub score_results : List Document → List Ranked → Option (List Document)
score_results documents [] = some []
score_results documents ((i, s) ∷ rs) = elim (document_at documents i) [
  | none ↦ none
  | some d ↦ elim (score_results documents rs) [
    | none ↦ none
    | some ds ↦ some (record d { score = some s } ∷ ds)
  ]
]

-- `list.sort(key=score, reverse=True)`: descending and stable.
pub insert_desc : Document → List Document → List Document
insert_desc d [] = d ∷ []
insert_desc d (e ∷ es) = if leb (score_of e) (score_of d) then d ∷ e ∷ es else e ∷ insert_desc d es

pub sort_desc : List Document → List Document
sort_desc [] = []
sort_desc (d ∷ ds) = insert_desc d (sort_desc ds)

-- `top_k or self.top_k`.
unfoldable pub effective_top_k : Option ℕ → ℕ → ℕ
effective_top_k none default = default
effective_top_k (some zero) default = default
effective_top_k (some (suc n)) default = suc n

-- The reply that the documents and the query get; `none` is an exception that leaves `run`.
unfoldable pub handle_reply : List Document → ℕ → RerankReply → Option RerankResult
handle_reply documents top_k transport_error = some (degraded documents top_k unavailable)
handle_reply documents top_k (http_error status code) =
    some (degraded documents top_k (error_code status code))
handle_reply documents top_k not_json = none
handle_reply documents top_k (body none results) =
    some (degraded documents top_k unsupported_score_contract)
handle_reply documents top_k (body (some score_type) results) =
    if text_eq score_type (codes "probability")
    then elim (score_results documents results) [
      | none ↦ none
      | some scored ↦ some (record {
        documents = sort_desc scored;
        reranker_degraded = false;
        degraded_reason = none;
      })
    ]
    else some (degraded documents top_k unsupported_score_contract)

-- `run`: the request is made only for a non-empty list.
unfoldable pub rerank : ℕ → List Document → Option ℕ → (ℕ → RerankReply) → Option RerankResult
rerank default [] top_k post =
    some (record { documents = []; reranker_degraded = false; degraded_reason = none })
rerank default (d ∷ ds) top_k post =
    let k = effective_top_k top_k default in handle_reply (d ∷ ds) k (post k)
