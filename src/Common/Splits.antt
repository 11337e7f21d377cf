-- ===== src/Common/Splits.antt =====
-- `str.split` at a separator, `str.join`, `str.find`, and text without its white space.
use Prim.Native.Nat.{ℕ, zero, suc}
use mathlib.Core.Path.{◌≡◌, refl, sym, ap, subst, ◌∙◌}
use mathlib.Core.Logic.{inl, inr}
use mathlib.Core.Bool.{Bool, true, false, not, ◌&&◌}
use mathlib.Core.List.{List, [], ◌∷◌, ◌++◌, append_assoc, append-nil}
use native.Mathlib.Omega.{arith}
use docintel.Common.Tests.{
  if◌then◌else◌, Bool-cases, if_true, if_false, and_parts, and_both, ◌==◌, ==_iff,
}
use docintel.Common.Lists.{All, length, drop, keep, concat}
use docintel.Common.Strings.{Text, starts_with, is_space, AllSpace}

-- The first piece and the others; `k` characters of a separator are still to be passed over.
unfoldable pub split_go : Text → ℕ → Text → Text × List Text
split_go sep k [] = ([], [])
split_go sep (suc k) (c ∷ s) = split_go sep k s
split_go sep zero (c ∷ s) =
    let cut = split_go sep (length (drop 1 sep)) s in
    let go = split_go sep zero s in
    if starts_with (c ∷ s) sep then ([], cut.0 ∷ cut.1) else (c ∷ go.0, go.1)

-- `s.split(sep)`, for a separator that is not empty.
unfoldable pub split_on : Text → Text → List Text
split_on sep s = let p = split_go sep zero s in p.0 ∷ p.1

-- Every part but the last with the separator behind it.
abbrev pub reattach : Text → Text → List Text → List Text
reattach sep p [] = p ∷ []
reattach sep p (q ∷ ps) = (p ++ sep) ∷ reattach sep q ps

-- `sep.join(parts)`.
abbrev pub join : Text → List Text → Text
join sep [] = []
join sep (p ∷ []) = p
join sep (p ∷ q ∷ ps) = p ++ (sep ++ join sep (q ∷ ps))

pub starts_with-drop : (s p : Text) → starts_with s p ≡ true → p ++ drop (length p) s ≡ s
unfolding starts_with
starts_with-drop s [] h = refl
starts_with-drop [] (d ∷ p) h = cc h
starts_with-drop (c ∷ s) (d ∷ p) h =
    let (e, k) = and_parts (c == d) (starts_with s p) h in
    let rest = starts_with-drop s p k in let same = (==_iff c d).0 e in cc

-- The text that the parts make up.
abbrev glued : Text → Text × List Text → Text
glued sep p = concat (reattach sep p.0 p.1)

first_char :
    (c : ℕ) (sep f : Text) (r : List Text)
    → concat (reattach sep (c ∷ f) r) ≡ c ∷ concat (reattach sep f r)
first_char c sep f [] = refl
first_char c sep f (g ∷ r) = refl

split_go-concat :
    (d : ℕ) (p : Text) (k : ℕ) (s : Text) → glued (d ∷ p) (split_go (d ∷ p) k s) ≡ drop k s
unfolding split_go
split_go-concat d p zero [] = refl
split_go-concat d p (suc k) [] = refl
split_go-concat d p (suc k) (c ∷ s) = split_go-concat d p k s
split_go-concat d p zero (c ∷ s) = elim (Bool-cases (starts_with (c ∷ s) (d ∷ p))) [
  | inl e ↦
      ap (glued (d ∷ p)) (if_true (starts_with (c ∷ s) (d ∷ p)) _ _ e)
      ∙ ap (λ r. (d ∷ p) ++ r) (split_go-concat d p (length p) s)
      ∙ starts_with-drop (c ∷ s) (d ∷ p) e
  | inr e ↦
      ap (glued (d ∷ p)) (if_false (starts_with (c ∷ s) (d ∷ p)) _ _ e)
      ∙ first_char c (d ∷ p) (split_go (d ∷ p) 0 s).0 (split_go (d ∷ p) 0 s).1
      ∙ ap (λ r. c ∷ r) (split_go-concat d p 0 s)
]

-- Splitting loses nothing but the separators.
pub concat-split_on :
    (d : ℕ) (p s : Text)
    → concat (reattach (d ∷ p) (split_go (d ∷ p) 0 s).0 (split_go (d ∷ p) 0 s).1) ≡ s
concat-split_on d p s = split_go-concat d p 0 s

-- No part holds a separator of one character.
abbrev pub Lacks : ℕ → Text → Type 0
Lacks c s = All (λ d. (d == c) ≡ false) s

and_no : (a b : Bool) → a ≡ false → (a && b) ≡ false
and_no a b h = ground arith

pub split_go-Lacks : (c : ℕ) (s : Text) → All (Lacks c) (split_on (c ∷ []) s)
unfolding split_go split_on starts_with
split_go-Lacks c [] = (tt, tt)
split_go-Lacks c (d ∷ s) =
    let (h, k) = split_go-Lacks c s in
    elim (Bool-cases (d == c)) [
      | inl e ↦
          subst {A = Text × List Text} (λ p. All (Lacks c) (p.0 ∷ p.1))
            (sym (if_true (starts_with (d ∷ s) (c ∷ [])) _ _ (and_both (d == c) true e refl)))
            (tt, (h, k))
      | inr e ↦
          subst {A = Text × List Text} (λ p. All (Lacks c) (p.0 ∷ p.1))
            (sym (if_false (starts_with (d ∷ s) (c ∷ [])) _ _ (and_no (d == c) true e))) ((e, h), k)
    ]

-- The text without its white space.
abbrev pub squeeze : Text → Text
squeeze s = keep (λ c. not (is_space c)) s

pub squeeze-append : (s t : Text) → squeeze (s ++ t) ≡ squeeze s ++ squeeze t
squeeze-append [] t = refl
squeeze-append (c ∷ s) t = elim (Bool-cases (is_space c)) [
  | inl e ↦ rw e (squeeze-append s t)
  | inr e ↦ rw e (ap (λ r. c ∷ r) (squeeze-append s t))
]

pub squeeze-nil : (s : Text) → AllSpace s → squeeze s ≡ []
squeeze-nil [] h = refl
squeeze-nil (c ∷ s) h = rw h.0 (squeeze-nil s h.1)

pub squeeze-AllSpace : (s : Text) → squeeze s ≡ [] → AllSpace s
squeeze-AllSpace [] h = tt
squeeze-AllSpace (c ∷ s) h = elim (Bool-cases (is_space c)) [
  | inl e ↦ (e, squeeze-AllSpace s (sym (if_false (not (is_space c)) _ _ (ap not e)) ∙ h))
  | inr e ↦ cc (sym (if_true (not (is_space c)) _ _ (ap not e)) ∙ h)
]

pub concat-append : (xs ys : List Text) → concat (xs ++ ys) ≡ concat xs ++ concat ys
concat-append [] ys = refl
concat-append (x ∷ xs) ys =
    ap (λ r. x ++ r) (concat-append xs ys) ∙ sym (append_assoc x (concat xs) (concat ys))

-- `c` stands in `t`.
abbrev pub Infix : Text → Text → Type 0
Infix c t = (a : Text) × (b : Text) × (t ≡ a ++ (c ++ b))

pub Infix-self : (c : Text) → Infix c c
Infix-self c = ([], [], sym (append-nil c))

pub Infix-append_left : (c t u : Text) → Infix c t → Infix c (t ++ u)
Infix-append_left c t u (a, b, e) = (
  a,
  b ++ u,
  ap (λ r. r ++ u) e ∙ append_assoc a (c ++ b) u ∙ ap (λ r. a ++ r) (append_assoc c b u),
)

pub Infix-append_right : (c t u : Text) → Infix c u → Infix c (t ++ u)
Infix-append_right c t u (a, b, e) =
    (t ++ a, b, ap (λ r. t ++ r) e ∙ sym (append_assoc t a (c ++ b)))

pub Infix_trans : (c t u : Text) → Infix c t → Infix t u → Infix c u
Infix_trans c t u h (a, b, e) =
    subst (Infix c) (sym e) (Infix-append_right c a (t ++ b) (Infix-append_left c t b h))

pub join-reattach : (sep p : Text) (ps : List Text) → join sep (p ∷ ps) ≡ concat (reattach sep p ps)
join-reattach sep p [] = sym (append-nil p)
join-reattach sep p (q ∷ ps) =
    ap (λ r. p ++ (sep ++ r)) (join-reattach sep q ps) ∙ sym (append_assoc p sep _)

-- Joining the parts of a split gives the text back.
pub join-split_on : (d : ℕ) (p s : Text) → join (d ∷ p) (split_on (d ∷ p) s) ≡ s
unfolding split_on
join-split_on d p s = join-reattach (d ∷ p) _ _ ∙ concat-split_on d p s
