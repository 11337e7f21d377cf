-- ===== src/Ingestion/Router/Examples.antt =====
-- The choice at concrete pages.
use docintel.Common.{◌≡◌, refl, false, none, some}
use docintel.Ingestion.Router.{tesseract, PageProfile, initial_path, Signals}

abbrev scanned : PageProfile
scanned = record {
  page_index = 0;
  text_chars = 0;
  text_density = 0;
  bitmap_ratio = 20000;
  has_table_hint = false;
  has_math_hint = false;
}

abbrev readable : Signals
readable = record {
  tesseract_conf = some 91000000;
  word_validity_ratio = none;
  noise_markers = 1;
  has_table = false;
  has_math = false;
  conf_threshold = 60000000;
  word_ratio_threshold = 800000;
  noise_threshold = 2;
}

scanned_path : initial_path scanned ≡ tesseract
unfolding initial_path
scanned_path = refl
