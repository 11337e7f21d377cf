-- ===== src/Rag/Guard/Trailing.antt =====
-- A refusal that the guard does not see: one that a character outside the sentence follows.
use mathlib.Core.List.{append-nil}
use docintel.Common.{
  ℕ, zero, suc, ◌+◌, ◌≤◌, ◌≡◌, ◌≢◌, refl, sym, ap, ◌∙◌, inl, inr, false, Text, [], ◌∷◌, ◌++◌,
  length, drop, length-append, strip-nil, starts_with, All, AllSpace, arith,
}
use docintel.Rag.Guard.{Guard, whitespace_start, may_start, hold_scan, hold_from, feed, finish}
use docintel.Rag.Guard.Conserve.{finish_cases, feed_lem}
use docintel.Rag.Guard.Drop.{whitespace_start_lem, drop-whole}

-- No character of the sentence is `c`.
abbrev Lacks : ℕ → Text → Type 0
Lacks c s = All (λ d. d ≢ c) s

starts_with-Lacks : (c : ℕ) (s z : Text) → Lacks c s → starts_with s (z ++ c ∷ []) ≡ false
unfolding starts_with
starts_with-Lacks c [] [] h = refl
starts_with-Lacks c [] (e ∷ z) h = refl
starts_with-Lacks c (d ∷ s) [] h = ground (arith, h.0)
starts_with-Lacks c (d ∷ s) (e ∷ z) h = ground (arith, starts_with-Lacks c s z h.1)

drop-last : (c : ℕ) (y : Text) (j : ℕ) → j ≤ length y → drop j (y ++ c ∷ []) ≡ drop j y ++ c ∷ []
drop-last c y zero h = refl
drop-last c [] (suc j) h = absurd (omega arith)
drop-last c (x ∷ y) (suc j) h = drop-last c y j (omega arith)

hold_scan-Lacks :
    (c : ℕ) (s y : Text) (left j : ℕ)
    → Lacks c s
    → left + j ≡ suc (length y)
    → hold_scan s (y ++ c ∷ []) left j ≡ whitespace_start (y ++ c ∷ []) (length (y ++ c ∷ []))
unfolding hold_scan may_start
hold_scan-Lacks c s y zero j h e = refl
hold_scan-Lacks c s y (suc left) j h e =
    rw (drop-last c y j (omega arith), starts_with-Lacks c s (drop j y) h)
      (ground (arith, hold_scan-Lacks c s y left (suc j) h (omega arith)))

hold_from-Lacks :
    (c : ℕ) (s y : Text)
    → Lacks c s
    → hold_from s (y ++ c ∷ []) ≡ whitespace_start (y ++ c ∷ []) (length (y ++ c ∷ []))
unfolding hold_from
hold_from-Lacks c s y h = hold_scan-Lacks c s y _ _ h (omega (arith, length-append y (c ∷ [])))

-- If the text ends in white space `c` that the sentence does not contain, `feed` keeps only white
-- space, whatever stands before `c`.
held-AllSpace :
    (g : Guard) (t y : Text) (c : ℕ)
    → Lacks c g.sentence
    → g.held ++ t ≡ y ++ c ∷ []
    → AllSpace (feed g t).1.held
unfolding feed
held-AllSpace g t y c h e =
    let (ws, eq, sp) = whitespace_start_lem (y ++ c ∷ []) (length (y ++ c ∷ [])) in
    let whole : ws ++ drop (length (y ++ c ∷ [])) (y ++ c ∷ []) ≡ ws =
      ap (λ r. ws ++ r) (drop-whole (y ++ c ∷ [])) ∙ append-nil ws in
    rw (e, hold_from-Lacks c g.sentence y h, eq, whole) sp

sentence-feed : (g : Guard) (t : Text) → (feed g t).1.sentence ≡ g.sentence
unfolding feed
sentence-feed g t = refl

-- A refusal with a line break after it is not dropped: if the text that is held and the last
-- token end in a character that the (non-empty) sentence lacks, `feed` and `finish` together emit
-- all of it, also when the sentence stands right before that character.
pub refusal_kept :
    (g : Guard) (t y : Text) (c : ℕ)
    → Lacks c g.sentence
    → g.sentence ≢ []
    → g.held ++ t ≡ y ++ c ∷ []
    → (feed g t).0 ++ (finish (feed g t).1).0 ≡ g.held ++ t
refusal_kept g t y c h filled e = elim (finish_cases (feed g t).1) [
  | inl kept ↦ ap (λ r. (feed g t).0 ++ r) kept ∙ feed_lem g t
  | inr (_, _, refusal) ↦ absurd (
      filled (
        sym (sentence-feed g t)
        ∙ sym refusal
        ∙ strip-nil (feed g t).1.held (held-AllSpace g t y c h e)))
]
