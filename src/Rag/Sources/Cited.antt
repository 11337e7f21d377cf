-- ===== src/Rag/Sources/Cited.antt =====
-- Sources are made from documents.
use docintel.Common.{ℕ, ◌+◌, ◌≡◌, refl, List, [], ◌∷◌, take, All}
use docintel.Rag.Types.{Document, Source}
use docintel.Rag.Sources.{build_source, build_sources_from, build_sources}

-- The source shows a document with the property: its id, its first 600 characters and its
-- metadata.
abbrev pub Cited : (Document → Type 0) → Source → Type 0
Cited P s =
    (d : Document) × P d
    × (s.chunk_id ≡ d.id)
    × (s.content ≡ take 600 d.content)
    × (s.metadata ≡ d.metadata)

build_sources_from-Cited :
    (P : Document → Type 0) (i : ℕ) (ds : List Document)
    → All P ds
    → All (Cited P) (build_sources_from i ds)
unfolding build_sources_from build_source
build_sources_from-Cited P i [] h = tt
build_sources_from-Cited P i (d ∷ ds) h =
    ((d, h.0, refl, refl, refl), build_sources_from-Cited P (i + 1) ds h.1)

pub build_sources-Cited :
    (P : Document → Type 0) (ds : List Document) → All P ds → All (Cited P) (build_sources ds)
unfolding build_sources
build_sources-Cited P ds h = build_sources_from-Cited P 0 ds h
