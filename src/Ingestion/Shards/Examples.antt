-- ===== src/Ingestion/Shards/Examples.antt =====
-- Runs over a PDF of three pages, in shards of one page; the first page is blank.
use docintel.Common.{
  ◌++◌, bind_at, ℕ, zero, suc, ◌-◌, ◌≡◌, ◌≢◌, refl, true, false, Bool-cases, inl, inr, none, some,
  [], ◌∷◌, Text, codes, arith, is_empty, if_true, if_false,
}
use docintel.Shared.Security.{default_acl}
use docintel.Ingestion.Router.{
  should_escalate_to_vlm, PageProfile, ExtractionPath, digital, layout, tesseract, vlm,
  initial_path,
}
use docintel.Ingestion.Metadata.{Ingested, number}
use docintel.Ingestion.Extraction.{signals_of, Extractors, Extract, extract_by, extract_page}
use docintel.Ingestion.Shards.{ChunkPayload, World, Run, running, run_pdf_sharded}
use docintel.Ingestion.Shards.Pages.{profiles}
use docintel.Ingestion.Shards.Returns.{Answering, has_returned, run_pdf_sharded_returns}
use docintel.Ingestion.Shards.Ends.{run_pdf_sharded-ends}

abbrev page_text : ℕ → Text
page_text zero = codes " "
page_text (suc i) = codes "text"

abbrev page_profile : ℕ → PageProfile
page_profile i = record {
  page_index = i;
  text_chars = 4;
  text_density = 600000;
  bitmap_ratio = 0;
  has_table_hint = false;
  has_math_hint = false;
}

abbrev readers : Extractors
readers = record {
  extract_digital = λ i. some (page_text i);
  extract_layout = λ i. some (page_text i);
  extract_tesseract = λ i. none;
  extract_vlm = λ i. some (page_text i);
}

abbrev three_pages : Run
three_pages = record {
  use_page_routing = true;
  shard_size = 1;
  total_pages = 3;
  domain_hint = codes "hr";
  extractors = readers;
  probe_pages = λ a b. profiles page_profile a (suc b - a);
  convert = λ a b. none;
  classify = λ t. none;
  embed = λ ds. some ds;
  accepts = λ cs. true;
  chunk_id_from_index = λ t i. t ++ i ∷ [];
}

abbrev report : Ingested
report = record {
  tenant_id = codes "acme";
  document_id = codes "d1";
  filename = codes "report.pdf";
  extra_meta = [];
  acl = default_acl;
}

abbrev old_chunk : ChunkPayload
old_chunk = record {
  chunk_id = codes "d1" ++ 0 ∷ [];
  chunk_index = 0;
  content = codes "text";
  start_char = 0;
  end_char = 4;
  token_count = number 1;
  metadata = [];
}

-- A run that raised behind the second page.
abbrev interrupted : World
interrupted = record {
  checkpoints =
      (codes "d1", record { last_completed_page = 1; chunk_count_so_far = 1; total_pages = 3 })
      ∷ [];
  chunks = old_chunk ∷ [];
}

abbrev read_before : World
read_before = record { checkpoints = []; chunks = old_chunk ∷ [] }

run_pdf_sharded-ends_example : run_pdf_sharded three_pages report read_before ≢ running
run_pdf_sharded-ends_example = run_pdf_sharded-ends three_pages report read_before (omega arith)

-- The same PDF, with an OCR that reads each page.
abbrev all_readers : Extractors
all_readers = record readers {
  extract_tesseract = λ i. some (record {
    content = page_text i;
    conf = none;
    word_validity_ratio = none;
    noise_markers = 0;
  });
}

abbrev answered_run : Run
answered_run = record three_pages { extractors = all_readers }

all_paths :
    (path : ExtractionPath) (p : PageProfile)
    → (r : Text × Text) × (extract_by all_readers path p ≡ some r)
unfolding extract_by
all_paths digital p = elim (Bool-cases (is_empty (page_text p.page_index))) [
  | inl h ↦ (_, if_true _ _ _ h)
  | inr h ↦ (_, if_false _ _ _ h)
]
all_paths layout p = (_, refl)
all_paths tesseract p =
    elim (Bool-cases
      (should_escalate_to_vlm (
        signals_of p (record {
          content = page_text p.page_index;
          conf = none;
          word_validity_ratio = none;
          noise_markers = 0;
        }))).0) [ inl h ↦ (_, if_true _ _ _ h) | inr h ↦ (_, if_false _ _ _ h) ]
all_paths vlm p = (_, refl)

all_pages : (p : PageProfile) → (e : Extract) × (extract_page all_readers p ≡ some e)
unfolding extract_page
all_pages p = let (r, h) = all_paths (initial_path p) p in (_, bind_at _ _ r h)

answered_run-Answering : Answering answered_run
answered_run-Answering = record {
  routed = refl;
  extracts = all_pages;
  embeds = λ ds. (ds, refl);
  stores = λ cs. refl;
}

run_pdf_sharded_returns_example :
    has_returned answered_run report answered_run-Answering
      (run_pdf_sharded answered_run report read_before)
    ≡ true
run_pdf_sharded_returns_example =
    run_pdf_sharded_returns answered_run report answered_run-Answering (omega arith) (omega arith)
      read_before
