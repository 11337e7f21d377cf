-- ===== src/Common/Slices.antt =====
-- Laws of `keep`, `take` and `drop` on lists that are put together.
use Prim.Native.Nat.{ℕ, zero, suc, ◌+◌, ◌≤◌}
use native.Mathlib.Nat.{zero-add, suc-add}
use native.Mathlib.Omega.{arith}
use mathlib.Core.Path.{◌≡◌, refl, sym, ap, ◌∙◌}
use mathlib.Core.Logic.{inl, inr}
use mathlib.Core.Bool.{Bool}
use mathlib.Core.List.{List, [], ◌∷◌, ◌++◌}
use docintel.Common.Tests.{Bool-cases, if_true, if_false}
use docintel.Common.Lists.{length, take, drop, keep, take-nil}

module _ {ℓ} {A : Type ℓ} where
  pub keep-append : (p : A → Bool) (xs ys : List A) → keep p (xs ++ ys) ≡ keep p xs ++ keep p ys
  keep-append p [] ys = refl
  keep-append p (x ∷ xs) ys = elim (Bool-cases (p x)) [
    | inl e ↦
        if_true _ _ _ e
        ∙ ap (λ r. x ∷ r) (keep-append p xs ys)
        ∙ sym (ap (λ r. r ++ keep p ys) (if_true _ _ _ e))
    | inr e ↦
        if_false _ _ _ e ∙ keep-append p xs ys ∙ sym (ap (λ r. r ++ keep p ys) (if_false _ _ _ e))
  ]

  pub take-within : (n : ℕ) (xs ys : List A) → n ≤ length xs → take n (xs ++ ys) ≡ take n xs
  take-within zero xs ys h = refl
  take-within (suc n) [] ys h = absurd (omega arith)
  take-within (suc n) (x ∷ xs) ys h = ap (λ r. x ∷ r) (take-within n xs ys (omega arith))

  pub drop-within : (n : ℕ) (xs ys : List A) → n ≤ length xs → drop n (xs ++ ys) ≡ drop n xs ++ ys
  drop-within zero xs ys h = refl
  drop-within (suc n) [] ys h = absurd (omega arith)
  drop-within (suc n) (x ∷ xs) ys h = drop-within n xs ys (omega arith)

  pub take-add : (m n : ℕ) (xs : List A) → take (m + n) xs ≡ take m xs ++ take n (drop m xs)
  take-add zero n xs = ap (λ k. take k xs) (zero-add n)
  take-add (suc m) n [] = ap (λ k. take k []) (suc-add m n) ∙ sym (take-nil A n)
  take-add (suc m) n (x ∷ xs) =
      ap (λ k. take k (x ∷ xs)) (suc-add m n) ∙ ap (λ r. x ∷ r) (take-add m n xs)

  pub take-own_length : (n : ℕ) (xs : List A) → take (length (take n xs)) xs ≡ take n xs
  take-own_length zero xs = refl
  take-own_length (suc n) [] = refl
  take-own_length (suc n) (x ∷ xs) = ap (λ r. x ∷ r) (take-own_length n xs)
