-- ===== src/Ingestion/Splitter/Content.antt =====
-- What `TokenAwareSplitter` cuts a text into: nothing but white space is lost, each chunk has its
-- size, and each one stands in the text.
use mathlib.Core.List.{append-nil, append_assoc}
use docintel.Common.{
  if◌then◌else◌, Bool, ℕ, ◌≡◌, ◌≢◌, refl, sym, ap, subst, ◌∙◌, ◌⊎◌, inl, inr, true, false, not,
  none, some, Option, List, [], ◌∷◌, ◌++◌, Text, All, All-map, All-keep, All-append, keep, concat,
  squeeze, squeeze-append, squeeze-nil, squeeze-AllSpace, strip_empty, Infix, Infix-self,
  Infix-append_left, Infix-append_right, AllSpace, join-split_on, concat-split_on, concat-append,
  Bool-cases, if_true, if_false, some_eq, reattach, split_go,
}
use docintel.Ingestion.Splitter.{
  is_blank, fits, nonblank_or_nil, hard_split, pack, text_if_none, recurse, separators, split_text,
}
use docintel.Ingestion.Splitter.Hard.{Sized, Returns, words_of, words_return, squeeze-spaced}

module _ (encode : Text → List ℕ) (decode : List ℕ → Text) (max_tokens overlap_tokens : ℕ) where
  -- The chunks of a text: its characters, but for white space, in order; each one fits or is one
  -- word; and each one stands in the text.
  pub record Pieces (text : Text) (cs : List Text) : Type 0 where
    pub kept : squeeze (concat cs) ≡ squeeze text
    pub sized : All (Sized encode decode max_tokens overlap_tokens) cs
    pub placed : All (λ c. Infix c text) cs

  keep-squeeze :
      (cs : List Text) → squeeze (concat (keep (λ c. not (is_blank c)) cs)) ≡ squeeze (concat cs)
  keep-squeeze [] = refl
  keep-squeeze (c ∷ cs) = elim (Bool-cases (is_blank c)) [
    | inl e ↦
        ap (λ ds. squeeze (concat ds)) (if_false (not (is_blank c)) _ _ (ap not e))
        ∙ keep-squeeze cs
        ∙ sym (
            squeeze-append c (concat cs)
            ∙ ap (λ r. r ++ squeeze (concat cs)) (squeeze-nil c (strip_empty c e)))
    | inr e ↦
        ap (λ ds. squeeze (concat ds)) (if_true (not (is_blank c)) _ _ (ap not e))
        ∙ squeeze-append c _
        ∙ ap (λ r. squeeze c ++ r) (keep-squeeze cs)
        ∙ sym (squeeze-append c (concat cs))
  ]

  filtered :
      (text : Text) (o : Option (List Text))
      → Returns encode decode max_tokens overlap_tokens []
          (words_of encode decode max_tokens overlap_tokens text)
          o
      → Pieces text (nonblank_or_nil encode decode max_tokens overlap_tokens o)
  unfolding nonblank_or_nil
  filtered text none (cs, e, h) = cc e
  filtered text (some cs') (cs, e, h) =
      subst (λ ds. Pieces text (keep (λ c. not (is_blank c)) ds)) (sym (some_eq e))
        (record {
          kept =
              keep-squeeze cs
              ∙ h.same
              ∙ sym (squeeze-spaced (words_of encode decode max_tokens overlap_tokens text))
              ∙ ap squeeze (join-split_on b' ' [] text);
          sized = All-keep (Sized encode decode max_tokens overlap_tokens) _ cs h.each;
          placed =
              All-keep (λ c. Infix c text) _ cs
                (subst (λ t. All (λ c. Infix c t) cs) (join-split_on b' ' [] text) h.inside);
        })

  pub hard_split-Pieces :
      (text : Text) → Pieces text (hard_split encode decode max_tokens overlap_tokens text)
  unfolding hard_split
  hard_split-Pieces text =
      filtered text _ (words_return encode decode max_tokens overlap_tokens text)

  Pieces-of : (t u : Text) (cs : List Text) → t ≡ u → Pieces t cs → Pieces u cs
  Pieces-of t u cs e h = subst (λ t. Pieces t cs) e h

  Pieces-blank : (t : Text) → AllSpace t → Pieces t []
  Pieces-blank t h = record { kept = sym (squeeze-nil t h); sized = tt; placed = tt }

  Pieces-one : (t : Text) → Sized encode decode max_tokens overlap_tokens t → Pieces t (t ∷ [])
  Pieces-one t h = record {
    kept = ap squeeze (append-nil t);
    sized = (h, tt);
    placed = (Infix-self t, tt);
  }

  Pieces-append :
      (t u : Text) (cs ds : List Text) → Pieces t cs → Pieces u ds → Pieces (t ++ u) (cs ++ ds)
  Pieces-append t u cs ds h k = record {
    kept =
        ap squeeze (concat-append cs ds)
        ∙ squeeze-append (concat cs) (concat ds)
        ∙ ap (λ r. r ++ squeeze (concat ds)) h.kept
        ∙ ap (λ r. squeeze t ++ r) k.kept
        ∙ sym (squeeze-append t u);
    sized = All-append _ cs ds h.sized k.sized;
    placed =
        All-append _ cs ds (All-map (λ c. Infix-append_left c t u) cs h.placed)
          (All-map (λ c. Infix-append_right c t u) ds k.placed);
  }

  -- One of the cases of a test has the pieces.
  either :
      (t : Text) (b : Bool) (cs ds : List Text)
      → (b ≡ true → Pieces t cs)
      → (b ≡ false → Pieces t ds)
      → Pieces t (if b then cs else ds)
  either t true cs ds f g = f refl
  either t false cs ds f g = g refl

  -- What is in the buffer fits, or nothing is in it.
  abbrev Buffered : Text → Type 0
  Buffered buf = (fits encode decode max_tokens overlap_tokens buf ≡ true) ⊎ (buf ≡ [])

  buffered-Sized : (buf : Text) → Buffered buf → Sized encode decode max_tokens overlap_tokens buf
  buffered-Sized buf (inl e) = inl e
  buffered-Sized buf (inr e) = inr (inr (subst AllSpace (sym e) tt))

  module _ (split : Text → List Text) (ok : (t : Text) → Pieces t (split t)) where
    pack-Pieces :
        (buf : Text) (units : List Text)
        → Buffered buf
        → Pieces
            (buf ++ concat units)
            (pack encode decode max_tokens overlap_tokens split buf units)
    unfolding pack
    pack-Pieces buf [] h = Pieces-of buf (buf ++ []) _ (sym (append-nil buf)) (
        either buf (is_blank buf) _ _ (λ e. Pieces-blank buf (strip_empty buf e))
          (λ e.
            either buf (fits encode decode max_tokens overlap_tokens buf) _ _
              (λ e. Pieces-one buf (inl e)) (λ e. ok buf)))
    pack-Pieces buf (unit ∷ units) h =
        either (buf ++ (unit ++ concat units))
          (fits encode decode max_tokens overlap_tokens (buf ++ unit)) _ _
          (λ e.
            Pieces-of _ _ _ (append_assoc buf unit (concat units))
              (pack-Pieces (buf ++ unit) units (inl e)))
          (λ e.
            Pieces-append buf (unit ++ concat units) _ _
              (either buf (is_blank buf) _ _ (λ e. Pieces-blank buf (strip_empty buf e))
                (λ e. Pieces-one buf (buffered-Sized buf h)))
              (either (unit ++ concat units) (fits encode decode max_tokens overlap_tokens unit) _ _
                (λ e. pack-Pieces unit units (inl e))
                (λ e.
                  Pieces-append unit (concat units) _ _ (ok unit)
                    (pack-Pieces [] units (inr refl)))))

  text_if_none-Pieces :
      (t : Text) (cs : List Text)
      → Pieces t cs
      → Pieces t (text_if_none encode decode max_tokens overlap_tokens t cs)
  unfolding text_if_none
  text_if_none-Pieces t [] h = Pieces-one t (inr (inr (squeeze-AllSpace t (sym h.kept))))
  text_if_none-Pieces t (c ∷ cs) h = h

  recurse-Pieces :
      (seps : List Text)
      → All (λ sep. sep ≢ []) seps
      → (t : Text) → Pieces t (recurse encode decode max_tokens overlap_tokens seps t)
  unfolding recurse
  recurse-Pieces [] h t =
      either t (fits encode decode max_tokens overlap_tokens t) _ _ (λ e. Pieces-one t (inl e))
        (λ e. hard_split-Pieces t)
  recurse-Pieces ([] ∷ rest) h t = absurd (h.0 refl)
  recurse-Pieces ((d ∷ p) ∷ rest) h t =
      either t (fits encode decode max_tokens overlap_tokens t) _ _ (λ e. Pieces-one t (inl e))
        (λ e. text_if_none-Pieces t _ (
          Pieces-of _ t _ (concat-split_on d p t) (
            pack-Pieces (recurse encode decode max_tokens overlap_tokens rest)
              (recurse-Pieces rest h.1) []
              (reattach (d ∷ p) (split_go (d ∷ p) 0 t).0 (split_go (d ∷ p) 0 t).1) (inr refl))))

-- The chunks of a text, put together, are the text but for white space: no other character is lost,
-- doubled or moved. Each chunk fits into `max_tokens`, or it is a single word without a blank, or it
-- is white space only; and each one stands in the text.
pub split_text-Pieces :
    (encode : Text → List ℕ) (decode : List ℕ → Text) (max_tokens overlap_tokens : ℕ) (text : Text)
    → Pieces encode decode max_tokens overlap_tokens text
        (split_text encode decode max_tokens overlap_tokens text)
unfolding split_text
split_text-Pieces encode decode max_tokens overlap_tokens text =
    either encode decode max_tokens overlap_tokens text (is_blank text) _ _
      (λ e. Pieces-blank encode decode max_tokens overlap_tokens text (strip_empty text e))
      (λ e.
        either encode decode max_tokens overlap_tokens text
          (fits encode decode max_tokens overlap_tokens text) _ _
          (λ e. Pieces-one encode decode max_tokens overlap_tokens text (inl e))
          (λ e.
            recurse-Pieces encode decode max_tokens overlap_tokens separators
              (λ e. cc e, (λ e. cc e, (λ e. cc e, (λ e. cc e, tt)))) text))
