-- ===== src/Ingestion/Splitter/Hard.antt =====
-- The loop of `_hard_split` ends, and its chunks are runs of the words.
use mathlib.Core.List.{append-nil, append_assoc}
use docintel.Common.{
  AllSpace, split_go-Lacks, split_on, concat-append, is_space, zero, Option, suc, ℕ, ◌*◌, ◌<◌, ◌≡◌,
  refl, sym, ap, subst, ◌∙◌, ◌⊎◌, inl, inr, true, some, List, [], ◌∷◌, ◌++◌, Text, codes, length,
  All, All-map, join, concat, squeeze, squeeze-append, Infix, Infix-self, Infix-append_left,
  Infix-append_right, Lacks, arith, Bool-cases, if_true, if_false,
}
use docintel.Ingestion.Splitter.{fits, add_chunk, hard_loop, hard_fuel}

-- The words of a run, joined by blanks.
abbrev pub spaced : List Text → Text
spaced ws = join (codes " ") ws

spaced-append :
    (v : Text) (run : List Text) (w : Text) (rest : List Text)
    → spaced (v ∷ run ++ w ∷ rest) ≡ spaced (v ∷ run) ++ (codes " " ++ spaced (w ∷ rest))
spaced-append v [] w rest = refl
spaced-append v (u ∷ run) w rest =
    ap (λ r. v ++ (codes " " ++ r)) (spaced-append u run w rest)
    ∙ ap (λ r. v ++ r) (sym (append_assoc (codes " ") (spaced (u ∷ run)) _))
    ∙ sym (append_assoc v _ _)

pub squeeze-spaced : (ws : List Text) → squeeze (spaced ws) ≡ squeeze (concat ws)
unfolding is_space
squeeze-spaced [] = refl
squeeze-spaced (w ∷ []) = ap squeeze (sym (append-nil w))
squeeze-spaced (w ∷ v ∷ ws) =
    squeeze-append w (codes " " ++ spaced (v ∷ ws))
    ∙ ap (λ r. squeeze w ++ r) (squeeze-spaced (v ∷ ws))
    ∙ sym (squeeze-append w (concat (v ∷ ws)))

first_in : (w : Text) (rest : List Text) → Infix w (spaced (w ∷ rest))
first_in w [] = Infix-self w
first_in w (v ∷ rest) = Infix-append_left w w _ (Infix-self w)

behind : (c w : Text) (rest : List Text) → Infix c (spaced rest) → Infix c (spaced (w ∷ rest))
behind c w [] h = subst (Infix c) (append-nil w) (Infix-append_right c w [] h)
behind c w (v ∷ rest) h = Infix-append_right c w _ (Infix-append_right c (codes " ") _ h)

-- What is left of the loop: two rounds for each word, and one for a run.
abbrev pub rounds : List Text → List Text → ℕ
rounds [] rest = 2 * length rest
rounds (v ∷ run) rest = suc (2 * length rest)

module _ (encode : Text → List ℕ) (decode : List ℕ → Text) (max_tokens overlap_tokens : ℕ) where
  -- A run that is not empty fits.
  abbrev FitsRun : List Text → Type 0
  FitsRun [] = Unit
  FitsRun (v ∷ run) = fits encode decode max_tokens overlap_tokens (spaced (v ∷ run)) ≡ true

  -- The chunk fits, or it is one word, or it is white space only.
  abbrev pub Sized : Text → Type 0
  Sized c = (fits encode decode max_tokens overlap_tokens c ≡ true) ⊎ (Lacks b' ' c ⊎ AllSpace c)

  -- The chunks of a run and the words behind it.
  pub record Hard (run rest cs : List Text) : Type 0 where
    pub same : squeeze (concat cs) ≡ squeeze (concat run) ++ squeeze (concat rest)
    pub each : All Sized cs
    pub inside : All (λ c. Infix c (spaced (run ++ rest))) cs

  -- The loop returns such chunks.
  abbrev pub Returns : List Text → List Text → Option (List Text) → Type 0
  Returns run rest o = (cs : List Text) × (o ≡ some cs) × Hard run rest cs

  step_word :
      (w : Text) (rest : List Text) (o : Option (List Text))
      → Lacks b' ' w
      → Returns [] rest o
      → Returns [] (w ∷ rest) (add_chunk w o)
  unfolding add_chunk
  step_word w rest o l (cs, e, h) = (
    w ∷ cs,
    ap (add_chunk w) e,
    record {
      same =
          squeeze-append w (concat cs)
          ∙ ap (λ r. squeeze w ++ r) h.same
          ∙ sym (squeeze-append w (concat rest));
      each = (inr (inl l), h.each);
      inside = (first_in w rest, All-map (λ c. behind c w rest) cs h.inside);
    },
  )

  step_run :
      (v : Text) (run : List Text) (w : Text) (rest : List Text) (o : Option (List Text))
      → FitsRun (v ∷ run)
      → Returns [] (w ∷ rest) o
      → Returns (v ∷ run) (w ∷ rest) (add_chunk (spaced (v ∷ run)) o)
  unfolding add_chunk
  step_run v run w rest o f (cs, e, h) =
      let text = spaced (v ∷ run) in
      let behind_run = sym (spaced-append v run w rest) in
      (
        text ∷ cs,
        ap (add_chunk text) e,
        record {
          same =
              squeeze-append text (concat cs)
              ∙ ap (λ r. r ++ squeeze (concat cs)) (squeeze-spaced (v ∷ run))
              ∙ ap (λ r. squeeze (concat (v ∷ run)) ++ r) h.same;
          each = (inl f, h.each);
          inside = (
            subst (Infix text) behind_run (Infix-append_left text text _ (Infix-self text)),
            All-map
                (λ c i.
                  subst (Infix c) behind_run
                    (Infix-append_right c text _ (Infix-append_right c (codes " ") _ i)))
                cs h.inside,
          );
        },
      )

  step_longer :
      (run : List Text) (w : Text) (rest : List Text) (o : Option (List Text))
      → Returns (run ++ w ∷ []) rest o
      → Returns run (w ∷ rest) o
  step_longer run w rest o (cs, e, h) = (
    cs,
    e,
    record {
      same =
          h.same
          ∙ ap (λ r. squeeze r ++ squeeze (concat rest))
              (concat-append run (w ∷ []) ∙ ap (λ r. concat run ++ r) (append-nil w))
          ∙ ap (λ r. r ++ squeeze (concat rest)) (squeeze-append (concat run) w)
          ∙ append_assoc (squeeze (concat run)) (squeeze w) (squeeze (concat rest))
          ∙ ap (λ r. squeeze (concat run) ++ r) (sym (squeeze-append w (concat rest)));
      each = h.each;
      inside =
          subst (λ ws. All (λ c. Infix c (spaced ws)) cs) (append_assoc run (w ∷ []) rest) h.inside;
    },
  )

  hard_loop-Returns :
      (fuel : ℕ) (run rest : List Text)
      → rounds run rest < fuel
      → FitsRun run
      → All (Lacks b' ') rest
      → Returns run rest (hard_loop encode decode max_tokens overlap_tokens fuel run rest)
  unfolding hard_loop
  hard_loop-Returns zero run rest n f l = absurd (omega (arith, n))
  hard_loop-Returns (suc fuel) [] [] n f l =
      ([], refl, record { same = refl; each = tt; inside = tt })
  hard_loop-Returns (suc fuel) (v ∷ run) [] n f l =
      let text = spaced (v ∷ run) in
      (
        text ∷ [],
        refl,
        record {
          same = ap squeeze (append-nil text) ∙ squeeze-spaced (v ∷ run) ∙ sym (append-nil _);
          each = (inl f, tt);
          inside = (
            subst (λ ws. Infix text (spaced ws)) (sym (append-nil (v ∷ run))) (Infix-self text),
            tt,
          );
        },
      )
  hard_loop-Returns (suc fuel) [] (w ∷ rest) n f l =
      elim (Bool-cases (fits encode decode max_tokens overlap_tokens w)) [
        | inl e ↦ subst (Returns [] (w ∷ rest)) (sym (if_true _ _ _ e)) (
            step_longer [] w rest _ (hard_loop-Returns fuel (w ∷ []) rest (omega (arith, n)) e l.1))
        | inr e ↦
            subst (Returns [] (w ∷ rest)) (sym (if_false _ _ _ e))
              (step_word w rest _ l.0 (hard_loop-Returns fuel [] rest (omega (arith, n)) tt l.1))
      ]
  hard_loop-Returns (suc fuel) (v ∷ run) (w ∷ rest) n f l =
      elim (Bool-cases
        (fits encode decode max_tokens overlap_tokens (spaced (v ∷ run ++ w ∷ [])))) [
          | inl e ↦ subst (Returns (v ∷ run) (w ∷ rest)) (sym (if_true _ _ _ e)) (
              step_longer (v ∷ run) w rest _
                (hard_loop-Returns fuel (v ∷ run ++ w ∷ []) rest (omega (arith, n)) e l.1))
          | inr e ↦ subst (Returns (v ∷ run) (w ∷ rest)) (sym (if_false _ _ _ e)) (
              step_run v run w rest _ f
                (hard_loop-Returns fuel [] (w ∷ rest) (omega (arith, n)) tt l))
        ]

  -- The words of a text.
  abbrev pub words_of : Text → List Text
  words_of text = split_on (codes " ") text

  pub words_return :
      (text : Text)
      → Returns [] (words_of text) (
          hard_loop encode decode max_tokens overlap_tokens
            (hard_fuel encode decode max_tokens overlap_tokens (words_of text))
            []
            (words_of text))
  words_return text =
      hard_loop-Returns (hard_fuel encode decode max_tokens overlap_tokens (words_of text)) []
        (words_of text) (omega arith) tt (split_go-Lacks b' ' text)

-- The loop of `_hard_split` ends for every text: two rounds for each word, and one more, are enough.
pub hard_split_total :
    (encode : Text → List ℕ) (decode : List ℕ → Text) (max_tokens overlap_tokens : ℕ) (text : Text)
    → (cs : List Text) × (hard_loop encode decode max_tokens overlap_tokens
          (hard_fuel encode decode max_tokens overlap_tokens (split_on (codes " ") text))
          []
          (split_on (codes " ") text)
        ≡ some cs)
hard_split_total encode decode max_tokens overlap_tokens text =
    let (cs, e, h) = words_return encode decode max_tokens overlap_tokens text in (cs, e)
