-- ===== src/Ingestion/Splitter/Offsets.antt =====
-- The offsets that `run` gives its chunks.
use native.Mathlib.Nat.{zero-add}
use mathlib.Core.List.{append_assoc}
use docintel.Common.{
  ◌==◌, suc, is_empty, ℕ, ◌+◌, ◌≡◌, refl, sym, ap, subst, ◌∙◌, inl, inr, true, false, some, List,
  [], ◌∷◌, ◌++◌, Text, codes, All, take, drop, length, take-length, starts_with, starts_with-drop,
  Infix, arith, Bool-cases, if_true, if_false,
}
use docintel.Ingestion.Splitter.{
  Chunk, find_from, count, overlap_after, add_overlap, end_of, chunks_from, split_document,
  split_text, tail_ids,
}
use docintel.Ingestion.Splitter.Content.{split_text-Pieces}

starts_with-nil : (s : Text) → starts_with s [] ≡ true
unfolding starts_with
starts_with-nil [] = refl
starts_with-nil (c ∷ s) = refl

starts_with-append : (c b : Text) → starts_with (c ++ b) c ≡ true
unfolding starts_with
starts_with-append [] b = starts_with-nil b
starts_with-append (d ∷ c) b = ground (arith, starts_with-append c b)

-- Behind the first character, where the text does not start with `c`.
later : (x : ℕ) (s c a b : Text) → x ∷ s ≡ a ++ (c ++ b) → starts_with (x ∷ s) c ≡ false → Infix c s
later x s c [] b e h =
    absurd (cc (sym (starts_with-append c b) ∙ ap (λ t. starts_with t c) (sym e) ∙ h))
later x s c (y ∷ a) b e h = (a, b, ap (drop 1) e)

nothing : (c a b : Text) → [] ≡ a ++ (c ++ b) → c ≡ []
nothing [] a b e = refl
nothing (d ∷ c) [] b e = cc e
nothing (d ∷ c) (x ∷ a) b e = cc e

-- A text that stands in another one is found, at a place where it stands.
find_from-Infix :
    (start : ℕ) (c t : Text)
    → Infix c t
    → (i : ℕ) × (find_from start c t ≡ some (start + i)) × (take (length c) (drop i t) ≡ c)
unfolding find_from
find_from-Infix start c [] (a, b, e) =
    let none_left = nothing c a b e in
    (
      0,
      if_true (is_empty c) _ _ (ap is_empty none_left) ∙ ap some (omega arith),
      ap (λ d. take (length d) []) none_left ∙ sym none_left,
    )
find_from-Infix start c (x ∷ s) (a, b, e) = elim (Bool-cases (starts_with (x ∷ s) c)) [
  | inl h ↦ (
    0,
    if_true _ _ _ h ∙ ap some (omega arith),
    ap (take (length c)) (sym (starts_with-drop (x ∷ s) c h)) ∙ take-length c _,
  )
  | inr h ↦
      let (i, f, k) = find_from-Infix (suc start) c s (later x s c a b e h) in
      (suc i, if_false _ _ _ h ∙ f ∙ ap some (omega arith), k)
]

module _ (encode : Text → List ℕ) (decode : List ℕ → Text) (max_tokens overlap_tokens : ℕ) where
  -- The chunk tells where its own part of the text stands: the text between its offsets is `raw`, its
  -- content is `raw` behind an overlap, and its token count is that of `raw`.
  pub record Cites (text : Text) (chunk : Chunk) : Type 0 where
    pub raw : Text
    pub start : ℕ
    pub overlap : Text
    pub starts : chunk.split_idx_start ≡ some start
    pub ends : chunk.split_idx_end ≡ start + length raw
    pub stands : take (length raw) (drop start text) ≡ raw
    pub shown : chunk.content ≡ overlap ++ raw
    pub counted : chunk.bert_token_count ≡ count encode decode max_tokens overlap_tokens raw

  -- Each text is the raw chunk behind an overlap.
  abbrev Tails : List Text → List Text → Type 0
  Tails [] texts = Unit
  Tails (raw ∷ raws) [] = Unit
  Tails (raw ∷ raws) (text ∷ texts) = ((o : Text) × (text ≡ o ++ raw)) × Tails raws texts

  overlap_after-Tails :
      (prev : Text) (raws : List Text)
      → Tails raws (overlap_after encode decode max_tokens overlap_tokens prev raws)
  unfolding overlap_after
  overlap_after-Tails prev [] = tt
  overlap_after-Tails prev (c ∷ cs) = (
    (
      decode (tail_ids encode decode max_tokens overlap_tokens prev) ++ codes " ",
      sym (append_assoc _ (codes " ") c),
    ),
    overlap_after-Tails c cs,
  )

  same-Tails : (raws : List Text) → Tails raws raws
  same-Tails [] = tt
  same-Tails (c ∷ cs) = (([], refl), same-Tails cs)

  add_overlap-Tails :
      (raws : List Text) → Tails raws (add_overlap encode decode max_tokens overlap_tokens raws)
  unfolding add_overlap
  add_overlap-Tails [] = tt
  add_overlap-Tails (c ∷ cs) = elim (Bool-cases (overlap_tokens == 0)) [
    | inl e ↦ subst (Tails (c ∷ cs)) (sym (if_true _ _ _ e)) (same-Tails (c ∷ cs))
    | inr e ↦ subst (Tails (c ∷ cs)) (sym (if_false _ _ _ e)) (([], refl), overlap_after-Tails c cs)
  ]

  chunks_from-Cites :
      (text : Text) (idx : ℕ) (raws texts : List Text)
      → All (λ c. Infix c text) raws
      → Tails raws texts
      → All (Cites text) (chunks_from encode decode max_tokens overlap_tokens text idx raws texts)
  unfolding chunks_from end_of find_from-Infix
  chunks_from-Cites text idx [] texts h k = tt
  chunks_from-Cites text idx (raw ∷ raws) [] h k = tt
  chunks_from-Cites text idx (raw ∷ raws) (t ∷ texts) h k =
      let (i, found, stands) = find_from-Infix 0 raw text h.0 in
      let at_i = found ∙ ap some (zero-add i) in
      let (o, e) = k.0 in
      (
        record {
          raw = raw;
          start = i;
          overlap = o;
          starts = at_i;
          ends = ap (end_of encode decode max_tokens overlap_tokens raw) at_i;
          stands = stands;
          shown = e;
          counted = refl;
        },
        chunks_from-Cites text (suc idx) raws texts h.1 k.1,
      )

-- Every chunk of a document is found in it: the document's text between the chunk's offsets is the
-- chunk's own part, which its content shows behind the overlap with the chunk before, and of which
-- it counts the tokens.
pub split_document-Cites :
    (encode : Text → List ℕ) (decode : List ℕ → Text) (max_tokens overlap_tokens : ℕ) (text : Text)
    → All
        (Cites encode decode max_tokens overlap_tokens text)
        (split_document encode decode max_tokens overlap_tokens text)
unfolding split_document
split_document-Cites encode decode max_tokens overlap_tokens text =
    let raws = split_text encode decode max_tokens overlap_tokens text in
    chunks_from-Cites encode decode max_tokens overlap_tokens text 0 raws _
      (split_text-Pieces encode decode max_tokens overlap_tokens text).placed
      (add_overlap-Tails encode decode max_tokens overlap_tokens raws)
