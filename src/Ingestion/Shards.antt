-- ===== src/Ingestion/Shards.antt =====
-- services/ingestion-service/src/pipeline.py: `_run_pdf_sharded` and the checkpoints. A PDF is read in
-- shards of pages; the chunks of a shard are embedded and appended to the document's table, and a
-- checkpoint is saved. `none` stands for an exception.
pub mod Pages
pub mod Table
pub mod Saved
pub mod Ends
pub mod Returns
pub mod Round
mod Examples
use docintel.Common.{
  ℕ, zero, suc, ◌+◌, ◌-◌, ◌==◌, min, max, Bool, true, false, not, ◌&&◌, ◌||◌, Option, none, some,
  List, [], ◌∷◌, ◌++◌, map, Text, codes, Dict, insert, lookup, remove, strip, is_empty, text_eq,
  length, take, ltb, is_some, ◌>>=◌, if◌then◌else◌,
}
use docintel.Ingestion.Router.{PageProfile}
use docintel.Ingestion.Extraction.{Extractors, extract_pages, RawChunk, chunk_text, shard_docs}
use docintel.Ingestion.Metadata.{
  Value, text, number, word_count, Ingested, Document, meta_override, enrich,
}

pub record ChunkPayload : Type 0 where
  pub chunk_id : Text
  pub chunk_index : ℕ
  pub content : Text
  pub start_char : ℕ
  pub end_char : ℕ
  pub token_count : Value
  pub metadata : Dict Value

pub record Checkpoint : Type 0 where
  pub last_completed_page : ℕ
  pub chunk_count_so_far : ℕ
  pub total_pages : ℕ

-- The checkpoints of the process, and the chunks that the document service holds of the document.
pub record World : Type 0 where
  pub checkpoints : Dict Checkpoint
  pub chunks : List ChunkPayload

-- The variables of the loop; `total_chunks` is always `chunk_offset`.
pub record Progress : Type 0 where
  pub start_page : ℕ
  pub chunk_offset : ℕ
  pub domain_decided : Bool
  pub domain : Text
  pub first_shard : Bool

-- How a run ends: the source raises, or it returns the count of chunks and the domain. `running` means
-- that the fuel ran out.
pub data Outcome : Type 0 where
  raised : World → Outcome
  returned : World → ℕ → Text → Outcome
  running : Outcome

-- What a run meets: the answers of the calls to code elsewhere, and its settings.
pub record Run : Type 0 where
  pub use_page_routing : Bool
  pub shard_size : ℕ
  pub total_pages : ℕ
  pub domain_hint : Text
  pub extractors : Extractors
  pub probe_pages : ℕ → ℕ → List PageProfile
  pub convert : ℕ → ℕ → Option (Text × List RawChunk)
  pub classify : Text → Option Text
  pub embed : List Document → Option (List Document)
  pub accepts : List ChunkPayload → Bool
  pub chunk_id_from_index : Text → ℕ → Text

module _ (run : Run) (doc : Ingested) where
  unfoldable pub classify_domain : Text → Text
  classify_domain sample = elim (run.classify sample) [ none ↦ codes "general" | some d ↦ d ]

  -- The domain is decided once, at a shard that has a sample.
  unfoldable pub decide : Progress → Bool → Text → Progress
  decide p has_sample sample =
      if p.domain_decided || not has_sample
      then p
      else record p { domain = classify_domain sample; domain_decided = true }

  -- `" ".join(...)`.
  unfoldable pub join_contents : List Document → Text
  join_contents [] = []
  join_contents (d ∷ []) = d.content
  join_contents (d ∷ e ∷ ds) = d.content ++ (codes " " ++ join_contents (e ∷ ds))

  -- The branch of the loop with the router, to the last page of the shard.
  unfoldable pub read_routed : Progress → ℕ → Option (Progress × List Document)
  read_routed p end_page =
      extract_pages run.extractors (run.probe_pages p.start_page end_page) >>= λ es.
      let docs = shard_docs p.chunk_offset es in
      some (decide p (not (is_empty docs)) (take 5000 (join_contents (take 5 docs))), docs)

  -- The branch with the converter.
  unfoldable pub read_converted : Progress → ℕ → Option (Progress × List Document)
  read_converted p end_page =
      run.convert (suc p.start_page) (suc end_page) >>= λ (markdown, chunks).
      some (decide p true (take 5000 markdown), shard_docs p.chunk_offset (map chunk_text chunks))

  -- `doc.meta.get("bert_token_count", max(1, len(content.split())))`.
  unfoldable pub token_count_of : Document → Value
  token_count_of d = elim (lookup (codes "bert_token_count") d.meta) [
    | none ↦ number (max 1 (word_count false d.content))
    | some v ↦ v
  ]

  unfoldable pub payloads_from : ℕ → List Document → List ChunkPayload
  payloads_from global_idx [] = []
  payloads_from global_idx (d ∷ ds) =
      (record {
        chunk_id = run.chunk_id_from_index doc.document_id global_idx;
        chunk_index = global_idx;
        content = d.content;
        start_char = 0;
        end_char = length d.content;
        token_count = token_count_of d;
        metadata = d.meta;
      })
      ∷ payloads_from (suc global_idx) ds

  -- The document service saves a chunk under its id: a row with that id is replaced.
  unfoldable pub put : ChunkPayload → List ChunkPayload → List ChunkPayload
  put c [] = c ∷ []
  put c (d ∷ table) =
      let rest = put c table in if text_eq d.chunk_id c.chunk_id then c ∷ table else d ∷ rest

  unfoldable pub upsert : List ChunkPayload → List ChunkPayload → List ChunkPayload
  upsert [] table = table
  upsert (c ∷ cs) table = upsert cs (put c table)

  -- `DocumentServiceClient.append_chunks`, with what the service does of it, the additive upsert: no
  -- request is made without chunks.
  unfoldable pub append_chunks :
      Bool → List ChunkPayload → List ChunkPayload → Option (List ChunkPayload)
  append_chunks clear_existing [] table = some table
  append_chunks clear_existing (c ∷ cs) table =
      if run.accepts (c ∷ cs)
      then some (upsert (c ∷ cs) (if clear_existing then [] else table))
      else none

  -- `if shard_docs:`; the result is the next `chunk_offset`.
  unfoldable pub write_docs : Bool → Progress → List Document → World → Option (ℕ × World)
  write_docs resumed p [] w = some (p.chunk_offset, w)
  write_docs resumed p (d ∷ ds) w =
      run.embed (enrich (meta_override doc p.domain) (d ∷ ds)) >>= λ embedded.
      let payloads = payloads_from p.chunk_offset embedded in
      append_chunks (p.first_shard && not resumed) payloads w.chunks >>= λ table.
      some (p.chunk_offset + length payloads, record w { chunks = table })

  unfoldable pub save_checkpoint : ℕ → ℕ → World → World
  save_checkpoint last_page chunk_count w = record w {
    checkpoints =
        insert doc.document_id
          (record {
            last_completed_page = last_page;
            chunk_count_so_far = chunk_count;
            total_pages = run.total_pages;
          })
          w.checkpoints;
  }

  unfoldable pub delete_checkpoint : World → World
  delete_checkpoint w = record w { checkpoints = remove doc.document_id w.checkpoints }

  abbrev pub end_of_shard : ℕ → ℕ
  end_of_shard start_page = min (start_page + run.shard_size - 1) (run.total_pages - 1)

  -- One round of the loop. `resumed` tells whether the run began at a checkpoint.
  unfoldable pub shard : Bool → Progress → World → Option (Progress × World)
  shard resumed p w =
      let end_page = end_of_shard p.start_page in
      (if run.use_page_routing then read_routed p end_page else read_converted p end_page)
      >>= λ (q, docs). write_docs resumed q docs w >>= λ (offset, v). some (
        record q { start_page = suc end_page; chunk_offset = offset; first_shard = false },
        save_checkpoint end_page offset v,
      )

  unfoldable pub loop : ℕ → Bool → Progress → World → Outcome
  loop zero resumed p w = running
  loop (suc fuel) resumed p w =
      let round : Outcome = elim (shard resumed p w) [
        | none ↦ raised w
        | some (q, v) ↦ loop fuel resumed q v
      ] in
      if ltb p.start_page run.total_pages
      then round
      else returned (delete_checkpoint w) p.chunk_offset p.domain

  unfoldable pub begin_at : Option Checkpoint → Progress
  begin_at none = record {
    start_page = 0;
    chunk_offset = 0;
    domain_decided = not (text_eq run.domain_hint (codes "auto"));
    domain = if text_eq run.domain_hint (codes "auto") then codes "general" else run.domain_hint;
    first_shard = true;
  }
  begin_at (some checkpoint) = record {
    start_page = suc checkpoint.last_completed_page;
    chunk_offset = checkpoint.chunk_count_so_far;
    domain_decided = true;
    domain = if text_eq run.domain_hint (codes "auto") then codes "general" else run.domain_hint;
    first_shard = true;
  }

  -- `_run_pdf_sharded`; the fuel is one round for each page, and the last test.
  unfoldable pub run_pdf_sharded : World → Outcome
  run_pdf_sharded w =
      let checkpoint = lookup doc.document_id w.checkpoints in
      if run.total_pages == 0
      then raised w
      else loop (suc run.total_pages) (is_some checkpoint) (begin_at checkpoint) w
