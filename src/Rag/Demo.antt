-- ===== src/Rag/Demo.antt =====
-- Small data for the tests of the answering service.
use docintel.Common.{true, false, none, some, [], ◌∷◌, Text, codes, ℕ}
use docintel.Shared.Security.{UserContext, internal}
use docintel.Rag.Types.{Meta, Document, hybrid}
use docintel.Rag.Opa.{replied}
use docintel.Rag.Rerank.{body}
use docintel.Rag.Gate.{Settings}
use docintel.Rag.Engine.{Engine, Request}

abbrev pub demo_user : UserContext
demo_user = record {
  user_id = codes "u1";
  org_id = codes "t1";
  tenant_id = codes "t1";
  roles = codes "reader" ∷ [];
  clearance = internal;
  department = none;
  region = codes "global";
}

abbrev pub demo_meta : Meta
demo_meta = record {
  document_id = some (codes "d1");
  filename = none;
  chunk_index = none;
  page = some 3;
  item_index = none;
  doc_index = none;
  document_type = none;
  domain = none;
  classification = some (codes "restricted");
  allowed_roles = none;
  allowed_users = none;
  department = none;
  region = none;
  expires_at = none;
}

abbrev pub demo_doc : Text → ℕ → Document
demo_doc id score = record {
  id = id;
  content = codes "text";
  score = some score;
  metadata = demo_meta;
}

abbrev pub demo_settings : Settings
demo_settings = record {
  rag_default_top_k = 5;
  rag_reranker_top_k = 10;
  rag_min_relevance_score = 70;
  rag_min_context_score = 20;
  rag_min_score_fallback_topk = 0;
  rag_rerank_skip_enabled = false;
  rag_rerank_skip_min_score = 101;
  rag_cache_replay_chunk_chars = 24;
  use_query_expansion = false;
}

-- Two chunks, reranked into the other order; the model answers "Yes." in two tokens.
abbrev pub demo_engine : Engine (Unit {0}) (Unit {0})
demo_engine = record {
  dense = λ t. some tt;
  sparse = λ t. some none;
  has_cache = true;
  cache_search = λ v. some [];
  expand = λ t. none;
  route = λ t. none;
  retrieve = λ v s f. some (demo_doc (codes "a") 1 ∷ demo_doc (codes "b") 2 ∷ [], hybrid);
  policy = λ u c. replied 200 (some true);
  audit_fails = false;
  rerank_post = λ ds k. body (some (codes "probability")) ((0, 30) ∷ (1, 90) ∷ []);
  collection_count = some 2;
  build_prompt = λ ds. true;
  semaphore_locked = false;
  llm = λ ds. (
    record { content = codes "Ye"; reasoning = []; lmforge_status = []; usage = none }
        ∷ record { content = codes "s."; reasoning = []; lmforge_status = []; usage = none }
        ∷ [],
    false,
  );
  refusal_sentence = codes "No info.";
}

abbrev pub demo_request : Request
demo_request = record {
  question = codes "Why?";
  tenant_id = codes "t1";
  user_context = demo_user;
  has_summary = false;
  document_type = none;
  top_k = none;
  min_score = none;
  use_cache = true;
  use_reranking = true;
  effective_thinking = false;
  conversation_id = none;
  retrieve_only = false;
}
