-- ===== src/Ingestion/Splitter.antt =====
-- services/ingestion-service/src/pipeline.py, `TokenAwareSplitter`: a text is cut into chunks by a
-- list of separators. The tokenizer is an argument: `encode` and `decode`.
pub mod Content
pub mod Hard
pub mod Offsets
mod Examples
use docintel.Common.{
  zero, ◌==◌, ℕ, ◌+◌, ◌-◌, ◌*◌, suc, Bool, true, false, not, Option, none, some, List, [], ◌∷◌,
  ◌++◌, Text, codes, strip, is_empty, starts_with, length, take, drop, keep, leb, reattach,
  split_go, split_on, join, if◌then◌else◌,
}

-- `not s.strip()`.
abbrev pub is_blank : Text → Bool
is_blank s = is_empty (strip s)

-- `_split_text` and `_recurse`: the separators that are tried, in order.
abbrev pub separators : List Text
separators = codes "\n\n" ∷ codes "\n" ∷ codes ". " ∷ codes " " ∷ []

-- A chunk of the output: its text, with the overlap, and the metadata that the splitter adds.
pub record Chunk : Type 0 where
  pub content : Text
  pub split_id : ℕ
  pub split_idx_start : Option ℕ
  pub split_idx_end : ℕ
  pub bert_token_count : ℕ

-- `content.find(sub)`: the first position, counted from `at`; `none` is -1.
unfoldable pub find_from : ℕ → Text → Text → Option ℕ
find_from at sub [] = if is_empty sub then some at else none
find_from at sub (c ∷ s) =
    let later = find_from (suc at) sub s in if starts_with (c ∷ s) sub then some at else later

-- `chunks.append(c)` before what the rest of the loop appends.
unfoldable pub add_chunk : Text → Option (List Text) → Option (List Text)
add_chunk c none = none
add_chunk c (some cs) = some (c ∷ cs)

module _ (encode : Text → List ℕ) (decode : List ℕ → Text) (max_tokens overlap_tokens : ℕ) where
  unfoldable pub count : Text → ℕ
  count s = length (encode s)

  -- `self._count(s) <= self.max_tokens`.
  unfoldable pub fits : Text → Bool
  fits s = leb (count s) max_tokens

  -- The loop of `_hard_split`: `run` is `words[lo:hi]`, and `rest` is `words[hi:]`. `none` means
  -- that the fuel ran out.
  unfoldable pub hard_loop : ℕ → List Text → List Text → Option (List Text)
  hard_loop zero run rest = none
  hard_loop (suc fuel) [] [] = some []
  hard_loop (suc fuel) (v ∷ run) [] = some (join (codes " ") (v ∷ run) ∷ [])
  hard_loop (suc fuel) [] (w ∷ rest) =
      let longer = hard_loop fuel (w ∷ []) rest in
      let alone = add_chunk w (hard_loop fuel [] rest) in if fits w then longer else alone
  hard_loop (suc fuel) (v ∷ run) (w ∷ rest) =
      let longer = hard_loop fuel (v ∷ run ++ w ∷ []) rest in
      let full = add_chunk (join (codes " ") (v ∷ run)) (hard_loop fuel [] (w ∷ rest)) in
      if fits (join (codes " ") (v ∷ run ++ w ∷ [])) then longer else full

  -- Each step takes a word or ends a run.
  abbrev pub hard_fuel : List Text → ℕ
  hard_fuel words = suc (2 * length words)

  unfoldable pub nonblank_or_nil : Option (List Text) → List Text
  nonblank_or_nil none = []
  nonblank_or_nil (some chunks) = keep (λ c. not (is_blank c)) chunks

  unfoldable pub hard_split : Text → List Text
  hard_split text =
      let words = split_on (codes " ") text in
      nonblank_or_nil (hard_loop (hard_fuel words) [] words)

  -- The loop of `_recurse` over the parts with their separators, from `buf` on, and what follows it;
  -- `split` is the call with the next separators.
  unfoldable pub pack : (Text → List Text) → Text → List Text → List Text
  pack split buf [] = if is_blank buf then [] else if fits buf then buf ∷ [] else split buf
  pack split buf (unit ∷ units) =
      let longer = pack split (buf ++ unit) units in
      let next = pack split unit units in
      let cut = split unit ++ pack split [] units in
      if fits (buf ++ unit)
      then longer
      else (if is_blank buf then [] else buf ∷ []) ++ (if fits unit then next else cut)

  unfoldable pub text_if_none : Text → List Text → List Text
  text_if_none text [] = text ∷ []
  text_if_none text (p ∷ pieces) = p ∷ pieces

  unfoldable pub recurse : List Text → Text → List Text
  recurse [] text = if fits text then text ∷ [] else hard_split text
  recurse (sep ∷ rest) text =
      let parts = split_go sep 0 text in
      let pieces = pack (recurse rest) [] (reattach sep parts.0 parts.1) in
      if fits text then text ∷ [] else text_if_none text pieces

  unfoldable pub split_text : Text → List Text
  split_text text =
      if is_blank text then [] else if fits text then text ∷ [] else recurse separators text

  -- `prev_ids[-self.overlap_tokens:]`, for an overlap that is not 0.
  unfoldable pub tail_ids : Text → List ℕ
  tail_ids prev = drop (length (encode prev) - overlap_tokens) (encode prev)

  -- The loop of `_add_overlap`, behind the chunk `prev`.
  unfoldable pub overlap_after : Text → List Text → List Text
  overlap_after prev [] = []
  overlap_after prev (c ∷ cs) = (decode (tail_ids prev) ++ (codes " " ++ c)) ∷ overlap_after c cs

  unfoldable pub add_overlap : List Text → List Text
  add_overlap [] = []
  add_overlap (c ∷ cs) = if overlap_tokens == 0 then c ∷ cs else c ∷ overlap_after c cs

  -- The offsets of a raw chunk: `raw_start` is -1 where it is not found, and `raw_end` 0.
  unfoldable pub end_of : Text → Option ℕ → ℕ
  end_of raw none = 0
  end_of raw (some start) = start + length raw

  -- The loop of `run` over the chunks of a document, with the index of the next one; the two lists
  -- are as long as each other.
  unfoldable pub chunks_from : Text → ℕ → List Text → List Text → List Chunk
  chunks_from content idx [] texts = []
  chunks_from content idx (raw ∷ raws) [] = []
  chunks_from content idx (raw ∷ raws) (text ∷ texts) =
      (record {
        content = text;
        split_id = idx;
        split_idx_start = find_from 0 raw content;
        split_idx_end = end_of raw (find_from 0 raw content);
        bert_token_count = count raw;
      })
      ∷ chunks_from content (suc idx) raws texts

  -- `run` at one document.
  unfoldable pub split_document : Text → List Chunk
  split_document content =
      let raws = split_text content in chunks_from content 0 raws (add_overlap raws)
