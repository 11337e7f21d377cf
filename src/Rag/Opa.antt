-- ===== src/Rag/Opa.antt =====
-- services/rag-service/src/components/opa.py: each retrieved chunk is put to the policy engine.
-- The engine is an argument: its reply to a caller and a chunk.
pub mod Closed
use docintel.Common.{
  ℕ, Bool, true, false, not, ◌&&◌, ◌==◌, Option, none, some, List, [], ◌∷◌, ◌++◌, Text, codes, any,
  is_empty, map, text_eq, if◌then◌else◌,
}
use docintel.Shared.Security.{UserContext}
use docintel.Rag.Types.{Meta, Document}

-- The `chunk` of the request's input, with the defaults for what the metadata lack.
pub record ChunkInput : Type 0 where
  pub classification : Text
  pub allowed_roles : List Text
  pub allowed_users : List Text
  pub department : Option Text
  pub region : Text
  pub expires_at : Option Text

-- A reply: an exception (network error, timeout, a body that is no JSON), or a status code with
-- the body's `result`, if that is there and a Boolean.
pub data OpaReply : Type 0 where
  unreachable : OpaReply
  replied : ℕ → Option Bool → OpaReply

abbrev pub Policy : Type 0
Policy = UserContext → ChunkInput → OpaReply

-- `meta.get(key, default)`, for metadata in which no value of these keys is null: the source passes a
-- null on instead of the default.
abbrev pub get_or_default {ℓ} : {A : Type ℓ} → Option A → A → A
get_or_default none d = d
get_or_default (some a) d = a

pub chunk_input : Meta → ChunkInput
chunk_input m = record {
  classification = get_or_default m.classification (codes "internal");
  allowed_roles = get_or_default m.allowed_roles [];
  allowed_users = get_or_default m.allowed_users [];
  department = m.department;
  region = get_or_default m.region (codes "global");
  expires_at = m.expires_at;
}

-- `resp.status_code == 200 and resp.json().get("result") is True`; an exception denies.
pub permits : OpaReply → Bool
permits unreachable = false
permits (replied status none) = false
permits (replied status (some result)) = status == 200 && result

pub chunk_allowed : Policy → UserContext → Document → Bool
chunk_allowed policy user doc = permits (policy user (chunk_input doc.metadata))

-- `RetrievalAuditEvent`, without the caller's fields and the times.
pub record Audit : Type 0 where
  pub retrieved_chunk_ids : List Text
  pub denied_chunk_ids : List Text
  pub document_ids : List Text

pub record Validated : Type 0 where
  pub documents : List Document
  pub audit : Audit

-- `if doc_id and doc_id not in doc_ids: doc_ids.append(doc_id)`.
pub note_document : Text → List Text → List Text
note_document doc_id ids =
    if not (is_empty doc_id) && not (any (λ d. text_eq d doc_id) ids)
    then ids ++ doc_id ∷ []
    else ids

-- The loop over the documents; the accumulators are the source's lists.
pub validate_loop :
    Policy
    → UserContext
    → List Document
    → List Document
    → List Text
    → List Text
    → List Document × List Text × List Text
validate_loop policy user [] allowed denied ids = (allowed, denied, ids)
validate_loop policy user (doc ∷ docs) allowed denied ids =
    let ok = chunk_allowed policy user doc in
    validate_loop policy user docs (if ok then allowed ++ doc ∷ [] else allowed)
      (if ok then denied else denied ++ doc.id ∷ [])
      (note_document (get_or_default doc.metadata.document_id []) ids)

pub validate : Policy → UserContext → List Document → Validated
unfolding validate_loop
validate policy user documents =
    let (allowed, denied, ids) = validate_loop policy user documents [] [] [] in
    record {
      documents = allowed;
      audit = record {
        retrieved_chunk_ids = map (λ d. d.id) documents;
        denied_chunk_ids = denied;
        document_ids = ids;
      };
    }
