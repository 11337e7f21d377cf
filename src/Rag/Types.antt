-- ===== src/Rag/Types.antt =====
-- The data of the answering service: Haystack documents with the metadata that the service reads,
-- and the typed events of services/rag-service/src/events.py.
use docintel.Common.{ℕ, Bool, Option, none, some, List, Text}

-- `Document.meta`, a dict: one optional field for each key that the service reads. Scores are
-- floats in the source, and numbers in a fixed unit here: the code only compares them.
pub record Meta : Type 0 where
  pub document_id : Option Text
  pub filename : Option Text
  pub chunk_index : Option ℕ
  pub page : Option ℕ
  pub item_index : Option ℕ
  pub doc_index : Option ℕ
  pub document_type : Option Text
  pub domain : Option Text
  pub classification : Option Text
  pub allowed_roles : Option (List Text)
  pub allowed_users : Option (List Text)
  pub department : Option Text
  pub region : Option Text
  pub expires_at : Option Text

pub record Document : Type 0 where
  pub id : Text
  pub content : Text
  pub score : Option ℕ
  pub metadata : Meta

-- `doc.score or 0.0`.
abbrev pub score_or_zero : Option ℕ → ℕ
score_or_zero o = elim o [ some n ↦ n | none ↦ 0 ]

abbrev pub score_of : Document → ℕ
score_of d = score_or_zero d.score

-- What `_build_section_label` formats: "p. 3", "sample 1, doc 2" or "chunk 4".
pub data Section : Type 0 where
  page_label : ℕ → Section
  sample_label : ℕ → ℕ → Section
  chunk_label : ℕ → Section

pub record Source : Type 0 where
  pub ref_id : ℕ
  pub chunk_id : Text
  pub document_id : Text
  pub filename : Text
  pub section : Section
  pub chunk_index : ℕ
  pub score : ℕ
  pub content : Text
  pub domain : Text
  pub metadata : Meta

-- `retrieval_mode`: "hybrid" or "dense".
pub data RetrievalMode : Type 0 where
  hybrid dense : RetrievalMode

-- `MetadataEvent`, without the query id, which all events of a request share.
pub record MetadataFields : Type 0 where
  pub cache_hit : Bool
  pub has_context : Bool
  pub reranker_degraded : Option Bool
  pub retrieval_mode : Option RetrievalMode
  pub rerank_candidates_in : Option ℕ
  pub rerank_candidates_out : Option ℕ
  pub query_expanded : Option Bool
  pub rerank_skipped : Option Bool

-- Which step of the pipeline an `ErrorEvent` reports.
pub data Failure : Type 0 where
  embedding_failed retrieval_failed policy_check_failed prompt_build_failed generation_failed :
      Failure

pub data PipelineEvent : Type 0 where
  metadata_event : MetadataFields → PipelineEvent
  routing_event : Option Text → Bool → PipelineEvent
  queued_event : PipelineEvent
  thinking_token_event : Text → PipelineEvent
  token_event : Text → PipelineEvent
  sources_event : List Source → PipelineEvent
  error_event : Failure → PipelineEvent
  status_event : Text → PipelineEvent
