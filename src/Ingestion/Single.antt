-- ===== src/Ingestion/Single.antt =====
-- services/ingestion-service/src/pipeline.py: `_run_text`, which reads a file in one pass, and
-- `run_ingestion`, which chooses between it and the shards. `none` stands for an exception.
pub mod Marks
pub mod Cited
pub mod Returned
mod Examples
use docintel.Common.{
  ℕ, zero, suc, ◌+◌, max, Bool, true, false, Option, none, some, List, [], ◌∷◌, ◌++◌, map, Text,
  codes, Dict, insert, lookup, length, take, leb, text_eq, ◌>>=◌, if◌then◌else◌,
}
use docintel.Ingestion.Metadata.{
  Value, text, number, texts, missing, other, Document, Ingested, meta_override, enrich, word_count,
}
use docintel.Ingestion.Splitter.{Chunk, split_document}

-- The offset of a chunk that is not found is -1.
unfoldable pub offset_value : Option ℕ → Value
offset_value none = other (codes "-1")
offset_value (some n) = number n

-- The documents that `TokenAwareSplitter.run` makes of the chunks of a document; Haystack gives each
-- an identifier.
unfoldable pub document_of : (Text → Dict Value → Text) → Document → Chunk → Document
document_of id_of d c =
    let marked = insert (codes "split_id") (number c.split_id) (
      insert (codes "split_idx_start") (offset_value c.split_idx_start) (
        insert (codes "split_idx_end") (number c.split_idx_end)
          (insert (codes "bert_token_count") (number c.bert_token_count) d.meta))) in
    record { id = id_of c.content marked; content = c.content; meta = marked }

-- What `_build_chunk_payload` returns.
pub record Payload : Type 0 where
  pub chunk_id : Text
  pub content : Text
  pub chunk_index : ℕ
  pub start_char : Value
  pub end_char : Value
  pub token_count : Value
  pub metadata : Dict Value

unfoldable pub value_at : Text → Dict Value → Value → Value
value_at k m default = elim (lookup k m) [ none ↦ default | some v ↦ v ]

-- `start_char + len(content)`. It stands in for an end that is missing; the splitter sets both, and the
-- start is a number.
unfoldable pub end_behind : Value → ℕ → Value
end_behind (number n) k = number (n + k)
end_behind v k = v

-- What a run meets: the calls of code elsewhere.
pub record Calls : Type 0 where
  pub convert : List Text → Option (List Document)
  pub classify : Text → Option Text
  pub encode : Text → List ℕ
  pub decode : List ℕ → Text
  pub id_of : Text → Dict Value → Text
  pub embed_and_write : List Document → Option (List Document × ℕ)
  pub uuid_of_hex : Text → Option Text
  pub chunk_id_from_index : Text → ℕ → Text

pub record Result : Type 0 where
  pub embedded_count : ℕ
  pub chunk_count : ℕ
  pub domain : Text
  pub collection : Text
  pub chunks : List Payload

-- The payload of a document, with its identifier.
abbrev pub payload_of : Document → ℕ → Text → Payload
payload_of d chunk_index chunk_id =
    let start_char = value_at (codes "split_idx_start") d.meta (number 0) in
    record {
      chunk_id = chunk_id;
      content = d.content;
      chunk_index = chunk_index;
      start_char = start_char;
      end_char = value_at (codes "split_idx_end") d.meta (end_behind start_char (length d.content));
      token_count =
          value_at (codes "bert_token_count") d.meta (number (max 1 (word_count false d.content)));
      metadata = d.meta;
    }

module _ (calls : Calls) (doc : Ingested) where
  unfoldable pub build_chunk_payload : Document → ℕ → Option Payload
  build_chunk_payload d chunk_index =
      let given = calls.uuid_of_hex (take 32 d.id) >>= λ u. some (payload_of d chunk_index u) in
      if leb 32 (length d.id)
      then given
      else some (payload_of d chunk_index (calls.chunk_id_from_index doc.document_id chunk_index))

  -- `[_build_chunk_payload(doc, i, document_id) for i, doc in enumerate(embedded_docs)]`.
  unfoldable pub build_payloads : ℕ → List Document → Option (List Payload)
  build_payloads i [] = some []
  build_payloads i (d ∷ ds) =
      build_chunk_payload d i >>= λ p. build_payloads (suc i) ds >>= λ ps. some (p ∷ ps)

  -- The splitter of the ingestion pipeline: 512 tokens, 64 of them in the overlap.
  unfoldable pub split_documents : List Document → List Document
  split_documents [] = []
  split_documents (d ∷ ds) =
      map (document_of calls.id_of d) (split_document calls.encode calls.decode 512 64 d.content)
      ++ split_documents ds

  unfoldable pub joined : List Document → Text
  joined [] = []
  joined (d ∷ []) = d.content
  joined (d ∷ e ∷ ds) = d.content ++ (codes " " ++ joined (e ∷ ds))

  unfoldable pub decide_domain : Text → List Document → Text
  decide_domain hint raw_docs =
      if text_eq hint (codes "auto")
      then elim (calls.classify (take 5000 (joined (take 10 raw_docs)))) [
        | none ↦ codes "general"
        | some d ↦ d
      ]
      else hint

  abbrev pub collection : Text
  collection = codes "documents_" ++ doc.tenant_id

  unfoldable pub ingest : Text → List Document → Option Result
  ingest hint [] = some (record {
    embedded_count = 0;
    chunk_count = 0;
    domain = codes "general";
    collection = collection;
    chunks = [];
  })
  ingest hint (d ∷ ds) =
      let domain = decide_domain hint (d ∷ ds) in
      calls.embed_and_write (split_documents (enrich (meta_override doc domain) (d ∷ ds)))
      >>= λ (embedded, written). build_payloads 0 embedded >>= λ chunks. some (record {
        embedded_count = written;
        chunk_count = length chunks;
        domain = domain;
        collection = collection;
        chunks = chunks;
      })

  unfoldable pub run_text : List Text → Text → Option Result
  run_text file_paths domain_hint =
      calls.convert file_paths >>= λ raw_docs. ingest domain_hint raw_docs
