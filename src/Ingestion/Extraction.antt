-- ===== src/Ingestion/Extraction.antt =====
-- services/ingestion-service/src/pipeline.py, `_run_pdf_sharded`: how the pages of a shard, or its
-- chunks, become documents. `none` stands for an exception.
use docintel.Common.{
  ℕ, suc, max, false, Option, none, some, List, [], ◌∷◌, Text, codes, Dict, strip, is_empty, length,
  ◌>>=◌, if◌then◌else◌,
}
use docintel.Ingestion.Router.{
  ExtractionPath, digital, layout, tesseract, vlm, PageProfile, initial_path, Signals,
  should_escalate_to_vlm,
}
use docintel.Ingestion.Metadata.{Value, text, number, word_count, Document}

-- What `extract_tesseract` returns: the text and three signals.
pub record Scan : Type 0 where
  pub content : Text
  pub conf : Option ℕ
  pub word_validity_ratio : Option ℕ
  pub noise_markers : ℕ

-- The calls that read pages.
pub record Extractors : Type 0 where
  pub extract_digital : ℕ → Option Text
  pub extract_layout : ℕ → Option Text
  pub extract_tesseract : ℕ → Option Scan
  pub extract_vlm : ℕ → Option Text

-- A text with what its metadata say of its origin.
pub record Extract : Type 0 where
  pub content : Text
  pub origin : Dict Value

-- The call of `should_escalate_to_vlm`, with the defaults of its thresholds.
unfoldable pub signals_of : PageProfile → Scan → Signals
signals_of p scan = record {
  tesseract_conf = scan.conf;
  word_validity_ratio = scan.word_validity_ratio;
  noise_markers = scan.noise_markers;
  has_table = p.has_table_hint;
  has_math = p.has_math_hint;
  conf_threshold = 60000000;
  word_ratio_threshold = 800000;
  noise_threshold = 2;
}

-- The text and the label of a page, after the choice of its path.
unfoldable pub extract_by : Extractors → ExtractionPath → PageProfile → Option (Text × Text)
extract_by x digital p = x.extract_digital p.page_index >>= λ t.
    let fallback = x.extract_layout p.page_index >>= λ u. some (u, codes "layout_fallback") in
    if is_empty t then fallback else some (t, codes "digital")
extract_by x layout p = x.extract_layout p.page_index >>= λ t. some (t, codes "layout")
extract_by x tesseract p = x.extract_tesseract p.page_index >>= λ scan.
    let escalated = x.extract_vlm p.page_index >>= λ t. some (t, codes "vlm") in
    if (should_escalate_to_vlm (signals_of p scan)).0
    then escalated
    else some (scan.content, codes "tesseract")
extract_by x vlm p = x.extract_layout p.page_index >>= λ t. some (t, codes "vlm")

unfoldable pub extract_page : Extractors → PageProfile → Option Extract
extract_page x p = extract_by x (initial_path p) p >>= λ (t, path). some (record {
  content = t;
  origin = (codes "page", number (suc p.page_index)) ∷ (codes "extraction_path", text path) ∷ [];
})

unfoldable pub extract_pages : Extractors → List PageProfile → Option (List Extract)
extract_pages x [] = some []
extract_pages x (p ∷ ps) = extract_page x p >>= λ e. extract_pages x ps >>= λ es. some (e ∷ es)

-- A chunk of the chunker: what `serialize` returns, and the text that is taken if it raises.
pub record RawChunk : Type 0 where
  pub serialized : Option Text
  pub fallback : Text

unfoldable pub chunk_text : RawChunk → Extract
chunk_text c = elim c.serialized [
  | none ↦ record { content = c.fallback; origin = [] }
  | some t ↦ record { content = t; origin = [] }
]

-- `shard_docs`: the texts that are not blank, numbered from `chunk_offset + len(shard_docs)` on.
unfoldable pub shard_docs : ℕ → List Extract → List Document
shard_docs split_id [] = []
shard_docs split_id (e ∷ es) =
    let skipped = shard_docs split_id es in
    let rest = shard_docs (suc split_id) es in
    if is_empty (strip e.content)
    then skipped
    else (record {
      id = [];
      content = e.content;
      meta =
          (codes "split_id", number split_id)
          ∷ (codes "split_idx_start", number 0)
          ∷ (codes "split_idx_end", number (length e.content))
          ∷ (codes "bert_token_count", number (max 1 (word_count false e.content)))
          ∷ e.origin;
    })
      ∷ rest
