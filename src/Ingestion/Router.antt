-- ===== src/Ingestion/Router.antt =====
-- services/ingestion-service/src/page_router.py: how a page's text is extracted. Ratios and
-- confidences are natural numbers in millionths (percents in millionths of a percent); `none` is a
-- negative number.
pub mod Choice
mod Examples
use docintel.Common.{◌==◌, ℕ, Bool, true, false, ◌&&◌, Option, none, some, ltb, leb, if◌then◌else◌}

-- `ExtractionPath`.
pub data ExtractionPath : Type 0 where
  digital layout tesseract vlm : ExtractionPath

-- `PageProfile`.
pub record PageProfile : Type 0 where
  pub page_index : ℕ
  pub text_chars : ℕ
  pub text_density : ℕ
  pub bitmap_ratio : ℕ
  pub has_table_hint : Bool
  pub has_math_hint : Bool

unfoldable pub initial_path : PageProfile → ExtractionPath
initial_path p =
    if ltb 500000 p.text_density && ltb p.bitmap_ratio 50000
    then digital
    else if ltb 300000 p.text_density && p.has_table_hint
    then layout
    else if ltb 500000 p.bitmap_ratio && ltb p.text_density 50000
    then tesseract
    else if p.text_chars == 0
    then tesseract
    else layout

-- The reason, without the number that the source prints into it.
pub data Reason : Type 0 where
  tesseract_failure noise_markers_found low_word_ratio low_conf table_hint math_hint
        kept_tesseract :
      Reason

-- The arguments of `should_escalate_to_vlm`.
pub record Signals : Type 0 where
  pub tesseract_conf : Option ℕ
  pub word_validity_ratio : Option ℕ
  pub noise_markers : ℕ
  pub has_table : Bool
  pub has_math : Bool
  pub conf_threshold : ℕ
  pub word_ratio_threshold : ℕ
  pub noise_threshold : ℕ

-- `word_validity_ratio >= 0 and word_validity_ratio < word_ratio_threshold`.
unfoldable pub is_low_ratio : Option ℕ → ℕ → Bool
is_low_ratio none threshold = false
is_low_ratio (some r) threshold = ltb r threshold

-- The tests behind the first one, at a confidence that is not negative.
unfoldable pub escalate_on_content : ℕ → Signals → Bool × Reason
escalate_on_content conf s =
    if leb s.noise_threshold s.noise_markers
    then (true, noise_markers_found)
    else if is_low_ratio s.word_validity_ratio s.word_ratio_threshold
    then (true, low_word_ratio)
    else if ltb conf s.conf_threshold
    then (true, low_conf)
    else if s.has_table
    then (true, table_hint)
    else if s.has_math
    then (true, math_hint)
    else (false, kept_tesseract)

unfoldable pub should_escalate_to_vlm : Signals → Bool × Reason
should_escalate_to_vlm s = elim s.tesseract_conf [
  | none ↦ (true, tesseract_failure)
  | some conf ↦ escalate_on_content conf s
]
