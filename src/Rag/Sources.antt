-- ===== src/Rag/Sources.antt =====
-- `_build_section_label` and `_build_sources` of services/rag-service/src/pipelines/query.py.
pub mod Cited
use docintel.Common.{ℕ, ◌+◌, none, some, List, [], ◌∷◌, codes, take}
use docintel.Rag.Types.{
  Meta, Document, score_of, Section, page_label, sample_label, chunk_label, Source,
}
use docintel.Rag.Opa.{get_or_default}
use docintel.Rag.Routing.{or_else, text_of}

pub section_label : Meta → ℕ → Section
section_label m chunk_index = elim m.page [
  | some p ↦ page_label p
  | none ↦ elim m.item_index [
    | none ↦ chunk_label chunk_index
    | some i ↦ elim m.doc_index [ none ↦ chunk_label chunk_index | some d ↦ sample_label i d ]
  ]
]

pub build_source : ℕ → Document → Source
build_source i d =
    let m = d.metadata in
    let chunk_index = get_or_default m.chunk_index i in
    record {
      ref_id = i + 1;
      chunk_id = d.id;
      document_id = get_or_default m.document_id [];
      filename = get_or_default m.filename (codes "Unknown");
      section = section_label m chunk_index;
      chunk_index = chunk_index;
      score = score_of d;
      content = take 600 d.content;
      domain = text_of (or_else m.document_type m.domain);
      metadata = m;
    }

-- The loop, with the index of the next document.
pub build_sources_from : ℕ → List Document → List Source
build_sources_from i [] = []
build_sources_from i (d ∷ ds) = build_source i d ∷ build_sources_from (i + 1) ds

pub build_sources : List Document → List Source
build_sources ds = build_sources_from 0 ds
