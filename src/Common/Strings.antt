-- ===== src/Common/Strings.antt =====
-- Python's `str` as the list of its code points, with the methods that the program calls.
use Prim.Native.Nat.{ℕ}
use Prim.Native.Char.{code}
use Prim.Native.String.{String}
use mathlib.Core.Path.{◌≡◌, refl, ap, ap₂}
use mathlib.Core.Logic.{◌↔◌, inl, inr}
use mathlib.Core.Bool.{Bool, true, false, ◌&&◌, ◌||◌}
use mathlib.Core.List.{List, [], ◌∷◌, ◌++◌}
use native.Mathlib.Omega.{arith}
use docintel.Common.Tests.{leb, ◌==◌, if◌then◌else◌, ==_iff, and_parts, Bool-cases}
use docintel.Common.Lists.{All, is_empty}

abbrev pub Text : Type 0
Text = List ℕ

-- A literal of the source.
abbrev pub codes : String → Text
codes String.[] = []
codes (String.◌∷◌ c s) = code c ∷ codes s

unfoldable pub text_eq : Text → Text → Bool
text_eq [] [] = true
text_eq [] (c ∷ s) = false
text_eq (c ∷ s) [] = false
text_eq (c ∷ s) (d ∷ t) = c == d && text_eq s t

text_eq-eq : (s t : Text) → text_eq s t ≡ true → s ≡ t
unfolding text_eq
text_eq-eq [] [] h = refl
text_eq-eq [] (d ∷ t) h = cc
text_eq-eq (c ∷ s) [] h = cc
text_eq-eq (c ∷ s) (d ∷ t) h =
    let (p, q) = and_parts (c == d) (text_eq s t) h in
    ap₂ (λ (a : ℕ) (r : Text). a ∷ r) ((==_iff c d).0 p) (text_eq-eq s t q)

pub text_eq_refl : (s : Text) → text_eq s s ≡ true
unfolding text_eq
text_eq_refl [] = refl
text_eq_refl (c ∷ s) = ground (arith, text_eq_refl s)

pub text_eq_iff : (s t : Text) → (text_eq s t ≡ true) ↔ (s ≡ t)
text_eq_iff s t = (text_eq-eq s t, λ e. rw e (text_eq_refl t))

-- `str.isspace` of one character: the code points that Python's Unicode tables call white space.
unfoldable pub is_space : ℕ → Bool
is_space c =
    leb 9 c && leb c 13
    || leb 28 c && leb c 32
    || c == 133
    || c == 160
    || c == 5760
    || leb 8192 c && leb c 8202
    || c == 8232
    || c == 8233
    || c == 8239
    || c == 8287
    || c == 12288

-- `s.lstrip()`, `s.rstrip()` and `s.strip()`.
unfoldable pub lstrip : Text → Text
lstrip [] = []
lstrip (c ∷ s) = if is_space c then lstrip s else c ∷ s

unfoldable pub rstrip : Text → Text
rstrip [] = []
rstrip (c ∷ s) = let r = rstrip s in if is_space c && is_empty r then [] else c ∷ r

unfoldable pub strip : Text → Text
unfolding lstrip rstrip
strip s = rstrip (lstrip s)

-- `s.startswith(p)`.
unfoldable pub starts_with : Text → Text → Bool
starts_with s [] = true
starts_with [] (d ∷ p) = false
starts_with (c ∷ s) (d ∷ p) = c == d && starts_with s p

pub starts_with_self : (s : Text) → starts_with s s ≡ true
unfolding starts_with
starts_with_self [] = refl
starts_with_self (c ∷ s) = ground (arith, starts_with_self s)

-- All characters are white space.
abbrev pub AllSpace : Text → Type 0
AllSpace s = All (λ c. is_space c ≡ true) s

pub lstrip-nil : (s : Text) → AllSpace s → lstrip s ≡ []
unfolding lstrip
lstrip-nil [] h = refl
lstrip-nil (c ∷ s) h = rw h.0 (lstrip-nil s h.1)

pub strip-nil : (s : Text) → AllSpace s → strip s ≡ []
unfolding strip
strip-nil s h = rw (lstrip-nil s h) refl

pub AllSpace-append : (s t : Text) → AllSpace (s ++ t) → AllSpace s × AllSpace t
AllSpace-append [] t h = (tt, h)
AllSpace-append (c ∷ s) t h = let (p, q) = AllSpace-append s t h.1 in ((h.0, p), q)

pub lstrip-append : (s t : Text) → AllSpace s → lstrip (s ++ t) ≡ lstrip t
unfolding lstrip
lstrip-append [] t h = refl
lstrip-append (c ∷ s) t h = rw h.0 (lstrip-append s t h.1)

pub strip-append : (s t : Text) → AllSpace s → strip (s ++ t) ≡ strip t
unfolding strip
strip-append s t h = ap rstrip (lstrip-append s t h)

-- `if s.strip()` fails only on white space.
pub strip_empty : (s : Text) → is_empty (strip s) ≡ true → AllSpace s
unfolding strip
strip_empty [] h = tt
strip_empty (c ∷ s) h = elim (Bool-cases (is_space c)) [
  | inl e ↦ (e, strip_empty s (rw e at h))
  | inr e ↦ let k = rw e at h in ground arith
]
