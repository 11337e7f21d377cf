-- ===== src/Rag/Engine.antt =====
-- What `RAGService.stream` works on: the components that it calls, as an `Engine` in which `none` is
-- an exception; a request; and what a run yields. Tasks that are started and not awaited (the cache
-- write and the stored conversation) are results beside the events.
use docintel.Common.{
  ℕ, zero, suc, Bool, false, Option, none, some, List, [], ◌∷◌, ◌++◌, Text, codes, take, drop, any,
  text_eq, ltb, if◌then◌else◌,
}
use docintel.Shared.Security.{UserContext}
use docintel.Rag.Types.{Document, RetrievalMode, Source, MetadataFields, PipelineEvent, token_event}
use docintel.Rag.Opa.{Policy, get_or_default}
use docintel.Rag.Rerank.{RerankReply}
use docintel.Rag.Cache.{CachePoint}
use docintel.Rag.Routing.{RouterOutput}
use docintel.Rag.Llm.{Chunk}

-- The components, over the embeddings' types.
pub record Engine (V S : Type 0) : Type 0 where
  pub dense : Text → Option V
  pub sparse : Text → Option (Option S)
  pub has_cache : Bool
  pub cache_search : V → Option (List CachePoint)
  pub expand : Text → Option Text
  pub route : Text → Option RouterOutput
  pub retrieve : V → Option S → Option Text → Option (List Document × RetrievalMode)
  pub policy : Policy
  pub audit_fails : Bool
  pub rerank_post : List Document → ℕ → RerankReply
  pub collection_count : Option ℕ
  pub build_prompt : List Document → Bool
  pub semaphore_locked : Bool
  pub llm : List Document → List Chunk × Bool
  pub refusal_sentence : Text

pub record Request : Type 0 where
  pub question : Text
  pub tenant_id : Text
  pub user_context : UserContext
  pub has_summary : Bool
  pub document_type : Option Text
  pub top_k : Option ℕ
  pub min_score : Option ℕ
  pub use_cache : Bool
  pub use_reranking : Bool
  pub effective_thinking : Bool
  pub conversation_id : Option Text
  pub retrieve_only : Bool

-- A question and its answer, as they are stored in a conversation.
pub record Turn : Type 0 where
  pub question : Text
  pub answer : Text
  pub sources : List Source

pub record Outcome : Type 0 where
  pub events : List PipelineEvent
  pub cache_writes : List CachePoint
  pub turns : List Turn

-- `yield` of events before the rest of the stream.
abbrev pub emit : List PipelineEvent → Outcome → Outcome
emit es o = record o { events = es ++ o.events }

abbrev pub only : List PipelineEvent → Outcome
only es = record { events = es; cache_writes = []; turns = [] }

abbrev pub plain_metadata : MetadataFields
plain_metadata = record {
  cache_hit = false;
  has_context = false;
  reranker_degraded = none;
  retrieval_mode = none;
  rerank_candidates_in = none;
  rerank_candidates_out = none;
  query_expanded = none;
  rerank_skipped = none;
}

-- `cached_text[i : i + chunk_size]` for `i` in `range(0, len(cached_text), chunk_size)`; each piece
-- is not empty, so `length` pieces are enough.
unfoldable pub replay_pieces : ℕ → ℕ → Text → List PipelineEvent
replay_pieces zero size s = []
replay_pieces (suc left) size [] = []
replay_pieces (suc left) size (c ∷ s) =
    token_event (take size (c ∷ s)) ∷ replay_pieces left size (drop size (c ∷ s))

-- `NO_DOCUMENTS_RESPONSE` and `NO_RELEVANT_DOCUMENTS_RESPONSE` of prompts.py.
pub no_docs_text : Option ℕ → Text → Text
no_docs_text count query =
    if ltb 0 (get_or_default count 0)
    then codes
        "I couldn't find relevant information in the uploaded documents to answer your question.\n\nTry:\n- Rephrasing your question with different keywords\n- Checking if the topic is covered in the uploaded documents\n- Uploading additional documents that might contain the answer\n\nYour question: \""
      ++ query
      ++ codes "\""
    else codes
        "I don't have any documents to search through yet.\n\nTo get started:\n1. Go to the **Documents** page (link in the header)\n2. Either upload your own documents or load sample datasets\n3. Come back here to ask questions!\n\nSample datasets include:\n- **TechQA**: Technical documentation\n- **HR Policies**: Employee policies and procedures\n- **CUAD Contracts**: Legal contract samples"

-- The turn to store, if the request belongs to a conversation.
abbrev pub turns_of : Option Text → Turn → List Turn
turns_of none t = []
turns_of (some []) t = []
turns_of (some (c ∷ s)) t = t ∷ []

-- The candidates of the expanded query that are not there yet.
unfoldable pub union_by_id : List Document → List Document → List Document
union_by_id docs [] = docs
union_by_id docs (d ∷ ds) =
    union_by_id (if any (λ x. text_eq x.id d.id) docs then docs else docs ++ d ∷ []) ds
