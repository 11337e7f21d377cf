-- ===== src/Ingestion/Single/Returned.antt =====
-- A run in one pass returns its chunks, where the calls answer.
use docintel.Common.{Dict, ℕ, ◌≡◌, some, List, Text, take}
use docintel.Ingestion.Metadata.{Value, Document, Ingested}
use docintel.Ingestion.Single.{Calls}
use docintel.Ingestion.Single.Cited.{Cited}

-- The pipeline embeds and writes the documents and returns them, and the
-- identifiers that it gives are read.
pub record Answering (calls : Calls) : Type 0 where
  pub embeds : (ds : List Document) → (n : ℕ) × (calls.embed_and_write ds ≡ some (ds, n))
  pub reads :
      (t : Text) (m : Dict Value)
      → (u : Text) × (calls.uuid_of_hex (take 32 (calls.id_of t m)) ≡ some u)

module _ (calls : Calls) (doc : Ingested) (answers : Answering calls) where
  -- A document that has its identifier from the pipeline.
  abbrev Named : Document → Type 0
  Named d = (t : Text) × (m : Dict Value) × (d.id ≡ calls.id_of t m)
