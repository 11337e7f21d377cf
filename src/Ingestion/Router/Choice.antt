-- ===== src/Ingestion/Router/Choice.antt =====
-- Which pages are read without OCR.
use docintel.Common.{◌⊎◌, ◌≤◌, ◌<◌, ◌≡◌, ◌↔◌, arith}
use docintel.Ingestion.Router.{tesseract, PageProfile, initial_path}

-- A page whose text density is at most 0.3 goes to OCR exactly if more than half of it is bitmap and
-- its text density is below 0.05, or if it has no embedded text at all.
pub initial_path_lem :
    (p : PageProfile)
    → p.text_density ≤ 300000
    → (initial_path p ≡ tesseract)
      ↔ (((500000 < p.bitmap_ratio) × (p.text_density < 50000)) ⊎ (p.text_chars ≡ 0))
unfolding initial_path
initial_path_lem p h = (λ e. ground arith, λ e. ground arith)
