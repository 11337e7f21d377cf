-- ===== src/Rag/Guard/Examples.antt =====
-- Runs of the guard, and its theorems at concrete streams.
use docintel.Common.{
  ◌≡◌, refl, ◌⊎◌, [], ◌∷◌, ◌++◌, Text, codes, is_space, strip, starts_with, text_eq, arith,
  AllSpace,
}
use docintel.Rag.Guard.{
  new_guard, whitespace_start, may_start, hold_scan, hold_from, feed, finish, guard_stream,
}
use docintel.Rag.Guard.Conserve.{guard_stream-concat}
use docintel.Rag.Guard.Trailing.{refusal_kept}

abbrev no_info : Text
no_info = codes "No info."

guard_stream_drops :
    guard_stream no_info (codes "Yes [1]." ∷ codes " No" ∷ codes " info." ∷ []) ≡ codes "Yes [1]."
unfolding guard_stream strip is_space starts_with text_eq hold_from hold_scan may_start
    whitespace_start
guard_stream_drops = refl

guard_stream_keeps_bare : guard_stream no_info (codes "No " ∷ codes "info." ∷ []) ≡ no_info
unfolding guard_stream strip is_space starts_with text_eq hold_from hold_scan may_start
    whitespace_start
guard_stream_keeps_bare = refl

guard_stream-concat_example :
    (guard_stream no_info (codes "Yes." ∷ codes " No info." ∷ []) ≡ codes "Yes. No info.")
    ⊎ ((tail : Text) × (guard_stream no_info (codes "Yes." ∷ codes " No info." ∷ []) ++ tail
          ≡ codes "Yes. No info.")
        × (strip tail ≡ no_info)
        × ¬ AllSpace (guard_stream no_info (codes "Yes." ∷ codes " No info." ∷ [])))
guard_stream-concat_example = guard_stream-concat no_info (codes "Yes." ∷ codes " No info." ∷ [])

refusal_kept_example :
    (feed (new_guard no_info) (codes "Yes. No info.\n")).0
      ++ (finish (feed (new_guard no_info) (codes "Yes. No info.\n")).1).0
    ≡ codes "Yes. No info.\n"
unfolding new_guard
refusal_kept_example =
    refusal_kept (new_guard no_info) (codes "Yes. No info.\n") (codes "Yes. No info.") 10
      (omega arith) (λ e. cc e) refl
