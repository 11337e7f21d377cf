-- ===== src/Rag/Guard/Drop.antt =====
-- When the guard drops a refusal, what it holds back, and a refusal that it does not see.
use mathlib.Core.List.{append_assoc}
use docintel.Common.{
  ℕ, zero, suc, ◌+◌, ◌-◌, ◌≤◌, ◌<◌, ◌≡◌, refl, sym, ap, ◌∙◌, inl, inr, true, false, [], ◌∷◌, ◌++◌,
  Text, length, get_or, take, drop, drop-length, length-append, is_space, strip, strip-append,
  strip_empty, AllSpace, AllSpace-append, All-append, is_empty, starts_with, starts_with_self,
  text_eq_iff, Bool-cases, arith,
}
use docintel.Rag.Guard.{Guard, whitespace_start, may_start, hold_scan, hold_from, feed, finish}

drop-step :
    (buf : Text) (j : ℕ)
    → is_space (get_or buf j 0) ≡ true
    → drop j buf ≡ get_or buf j 0 ∷ drop (suc j) buf
unfolding is_space
drop-step [] zero h = cc
drop-step [] (suc j) h = cc
drop-step (c ∷ buf) zero h = refl
drop-step (c ∷ buf) (suc j) h = drop-step buf j h

-- Going back over white space adds white space to the tail.
pub whitespace_start_lem :
    (buf : Text) (j : ℕ)
    → (ws : Text) × (drop (whitespace_start buf j) buf ≡ ws ++ drop j buf) × AllSpace ws
unfolding whitespace_start
whitespace_start_lem buf zero = ([], refl, tt)
whitespace_start_lem buf (suc j) = elim (Bool-cases (is_space (get_or buf j 0))) [
  | inr e ↦ ([], rw e refl, tt)
  | inl e ↦
      let (ws, eq, sp) = whitespace_start_lem buf j in
      (
        ws ++ get_or buf j 0 ∷ [],
        rw e (eq ∙ ap (λ r. ws ++ r) (drop-step buf j e) ∙ sym (append_assoc ws _ _)),
        All-append (λ c. is_space c ≡ true) ws _ sp (e, tt),
      )
]

abbrev pub IsHoldable : Text → Text → Type 0
IsHoldable sentence tail =
    (ws : Text) × (p : Text) × (tail ≡ ws ++ p) × AllSpace ws × (starts_with sentence p ≡ true)

pub drop-whole : (buf : Text) → drop (length buf) buf ≡ []
drop-whole [] = refl
drop-whole (c ∷ buf) = drop-whole buf

starts_with-nil : (s : Text) → starts_with s [] ≡ true
unfolding starts_with
starts_with-nil [] = refl
starts_with-nil (c ∷ s) = refl

hold_scan-IsHoldable :
    (sentence buf : Text) (left j : ℕ)
    → IsHoldable sentence (drop (hold_scan sentence buf left j) buf)
unfolding hold_scan may_start
hold_scan-IsHoldable sentence buf zero j =
    let (ws, eq, sp) = whitespace_start_lem buf (length buf) in
    (ws, [], eq ∙ ap (λ r. ws ++ r) (drop-whole buf), sp, starts_with-nil sentence)
hold_scan-IsHoldable sentence buf (suc left) j = elim (Bool-cases (may_start sentence buf j)) [
  | inl e ↦
      let (ws, eq, sp) = whitespace_start_lem buf j in rw e (ws, drop j buf, eq, sp, ground arith)
  | inr e ↦ rw e (hold_scan-IsHoldable sentence buf left (suc j))
]

-- After every token the guard holds back no more than white space followed by a prefix of the
-- refusal sentence: all other text has been emitted.
pub feed-IsHoldable : (g : Guard) (t : Text) → IsHoldable g.sentence (feed g t).1.held
unfolding feed hold_from
feed-IsHoldable g t = hold_scan-IsHoldable g.sentence (g.held ++ t) _ _

get_or-append : (p q : Text) (i j : ℕ) → j ≡ length p + i → get_or (p ++ q) j 0 ≡ get_or q i 0
get_or-append [] q i j h = ap (λ k. get_or q k 0) (omega arith)
get_or-append (c ∷ p) q i zero h = absurd (omega arith)
get_or-append (c ∷ p) q i (suc j) h = get_or-append p q i j (omega arith)

get_or-AllSpace :
    (ws rest : Text) (k : ℕ)
    → AllSpace ws
    → k < length ws
    → is_space (get_or (ws ++ rest) k 0) ≡ true
get_or-AllSpace [] rest k h lt = absurd (omega arith)
get_or-AllSpace (c ∷ ws) rest zero h lt = h.0
get_or-AllSpace (c ∷ ws) rest (suc k) h lt = get_or-AllSpace ws rest k h.1 (omega arith)

module _ (p : Text) (c : ℕ) (ws rest : Text) (solid : is_space c ≡ false) (sp : AllSpace ws) where
  whitespace_start-run :
      (k j : ℕ)
      → k ≤ length ws
      → j ≡ suc (length p) + k
      → whitespace_start (p ++ c ∷ (ws ++ rest)) j ≡ suc (length p)
  unfolding whitespace_start
  whitespace_start-run zero zero le eq = absurd (omega arith)
  whitespace_start-run zero (suc j) le eq =
      rw (get_or-append p (c ∷ (ws ++ rest)) 0 j (omega arith)) (rw solid (omega arith))
  whitespace_start-run (suc k) zero le eq = absurd (omega arith)
  whitespace_start-run (suc k) (suc j) le eq =
      rw (get_or-append p (c ∷ (ws ++ rest)) (suc k) j (omega arith)) (
        rw (get_or-AllSpace ws rest k sp (omega arith))
          (whitespace_start-run k j (omega arith) (omega arith)))

module _ (p : Text) (c w : ℕ) (ws : Text) (d : ℕ) (s : Text) where
  abbrev answer_then_refusal : Text
  answer_then_refusal = p ++ c ∷ ((w ∷ ws) ++ d ∷ s)

  length-answer_then_refusal :
      length answer_then_refusal ≡ suc (length p) + suc (length ws) + suc (length s)
  length-answer_then_refusal =
      omega (arith, length-append p (c ∷ ((w ∷ ws) ++ d ∷ s)), length-append (w ∷ ws) (d ∷ s))

  drop-refusal : (j : ℕ) → j ≡ suc (length p) + suc (length ws) → drop j answer_then_refusal ≡ d ∷ s
  drop-refusal j e = rw e (
      ap (λ b. drop (suc (length p) + suc (length ws)) b)
        (sym (append_assoc p (c ∷ w ∷ ws) (d ∷ s)))
      ∙ ap (λ n. drop n ((p ++ c ∷ w ∷ ws) ++ d ∷ s)) (omega (arith, length-append p (c ∷ w ∷ ws)))
      ∙ drop-length (p ++ c ∷ w ∷ ws) (d ∷ s))

  module _ (solid : is_space c ≡ false) (sp : AllSpace (w ∷ ws)) where
    may_start-refusal :
        (j : ℕ)
        → j ≡ suc (length p) + suc (length ws)
        → may_start (d ∷ s) answer_then_refusal j ≡ true
    unfolding may_start
    may_start-refusal j e =
        rw
          (
            drop-refusal j e,
            starts_with_self (d ∷ s),
            get_or-append p (c ∷ ((w ∷ ws) ++ d ∷ s)) (suc (length ws)) (j - 1) (omega arith),
            get_or-AllSpace (w ∷ ws) (d ∷ s) (length ws) sp (omega arith),
          )
          (ground arith)

    hold_from-refusal : hold_from (d ∷ s) answer_then_refusal ≡ suc (length p)
    unfolding hold_from hold_scan
    hold_from-refusal =
        let n : ℕ = length answer_then_refusal in
        let len = length-answer_then_refusal in
        let rounds : n - (n - suc (length s)) ≡ suc (length s) = omega arith in
        let first : n - suc (length s) ≡ suc (length p) + suc (length ws) = omega arith in
        rw (rounds, may_start-refusal (n - suc (length s)) first)
          (whitespace_start-run p c (w ∷ ws) (d ∷ s) solid sp (suc (length ws)) _ (omega arith)
            first)

take-solid : (p rest : Text) (c : ℕ) → take (suc (length p)) (p ++ c ∷ rest) ≡ p ++ c ∷ []
take-solid [] rest c = refl
take-solid (x ∷ p) rest c = ap (λ r. x ∷ r) (take-solid p rest c)

drop-solid : (p rest : Text) (c : ℕ) → drop (suc (length p)) (p ++ c ∷ rest) ≡ rest
drop-solid [] rest c = refl
drop-solid (x ∷ p) rest c = drop-solid p rest c

strip-solid : (p : Text) (c : ℕ) → is_space c ≡ false → is_empty (strip (p ++ c ∷ [])) ≡ false
strip-solid p c solid = elim (Bool-cases (is_empty (strip (p ++ c ∷ [])))) [
  | inr e ↦ e
  | inl e ↦
      let (_, here) = AllSpace-append p (c ∷ []) (strip_empty (p ++ c ∷ []) e) in cc (here.0, solid)
]

-- If what is held and the last token end in an answer character, white space and the whole
-- refusal sentence (which has no white space at its ends), then the guard emits the text up to
-- that character, and `finish` emits nothing.
pub refusal_dropped :
    (g : Guard) (t p : Text) (c w : ℕ) (ws : Text) (d : ℕ) (s : Text)
    → g.sentence ≡ d ∷ s
    → strip (d ∷ s) ≡ d ∷ s
    → is_space c ≡ false
    → AllSpace (w ∷ ws)
    → g.held ++ t ≡ p ++ c ∷ ((w ∷ ws) ++ d ∷ s)
    → ((feed g t).0 ≡ p ++ c ∷ []) × ((finish (feed g t).1).0 ≡ [])
unfolding feed finish
refusal_dropped g t p c w ws d s es clean solid sp eb =
    let buf : Text = p ++ c ∷ ((w ∷ ws) ++ d ∷ s) in
    let cut : hold_from g.sentence (g.held ++ t) ≡ suc (length p) =
      rw (es, eb) (hold_from-refusal p c w ws d s solid sp) in
    let out : take (hold_from g.sentence (g.held ++ t)) (g.held ++ t) ≡ p ++ c ∷ [] =
      rw (cut, eb) (take-solid p ((w ∷ ws) ++ d ∷ s) c) in
    let rest : drop (hold_from g.sentence (g.held ++ t)) (g.held ++ t) ≡ (w ∷ ws) ++ d ∷ s =
      rw (cut, eb) (drop-solid p ((w ∷ ws) ++ d ∷ s) c) in
    (
      out,
      rw (out, rest, strip-append (w ∷ ws) (d ∷ s) sp, strip-solid p c solid)
          (ground (arith, text_eq_iff (strip (d ∷ s)) g.sentence)),
    )
