-- ===== src/Ingestion/Shards/Table.antt =====
-- What the documents of a shard do to the document service's table of chunks.
use mathlib.Core.List.{append_assoc, append-nil, map-append}
use native.Mathlib.Nat.{add-zero}
use docintel.Common.{
  ℕ, suc, ◌+◌, ◌≤◌, ◌<◌, Bool, true, false, not, ◌&&◌, some, List, [], ◌∷◌, ◌++◌, map, Text, length,
  ◌≡◌, refl, sym, ap, ◌∙◌, arith, bind_some, some_eq, Bool-cases, if_true, if_false, inl, inr, All,
  All-map, All-append, text_eq, text_eq_iff, if◌then◌else◌,
}
use docintel.Ingestion.Metadata.{Ingested, Document, meta_override}
use docintel.Ingestion.Shards.{
  ChunkPayload, World, Progress, Run, payloads_from, append_chunks, write_docs, put, upsert,
  token_count_of,
}
use docintel.Ingestion.Shards.Pages.{shown, numbered, enrich-content}

module _ (run : Run) (doc : Ingested) where
  pub payloads_from-shown :
      (index : ℕ) (ds : List Document)
      → map shown (payloads_from run doc index ds)
        ≡ numbered
            (run.chunk_id_from_index doc.document_id)
            index
            (map (λ (d : Document). d.content) ds)
  unfolding payloads_from
  payloads_from-shown index [] = refl
  payloads_from-shown index (d ∷ ds) =
      ap (λ r. (run.chunk_id_from_index doc.document_id index, index, d.content) ∷ r)
        (payloads_from-shown (suc index) ds)

  pub payloads_from-length :
      (index : ℕ) (ds : List Document)
      → length (payloads_from run doc index ds) ≡ length (map (λ (d : Document). d.content) ds)
  unfolding payloads_from
  payloads_from-length index [] = refl
  payloads_from-length index (d ∷ ds) = ap suc (payloads_from-length (suc index) ds)

  put_new :
      (c : ChunkPayload) (table : List ChunkPayload)
      → All (λ (d : ChunkPayload). text_eq d.chunk_id c.chunk_id ≡ false) table
      → put run doc c table ≡ table ++ c ∷ []
  unfolding put
  put_new c [] h = refl
  put_new c (d ∷ table) h =
      if_false (text_eq d.chunk_id c.chunk_id) _ _ h.0 ∙ ap (λ ds. d ∷ ds) (put_new c table h.1)

  -- The ids of different numbers differ.
  abbrev pub Distinct : Type 0
  Distinct =
      (i j : ℕ)
      → run.chunk_id_from_index doc.document_id i ≡ run.chunk_id_from_index doc.document_id j
      → i ≡ j

  -- The rows of a table have numbers below `n`, and the ids of these numbers.
  abbrev pub Below : ℕ → List ChunkPayload → Type 0
  Below n table =
      All
        (λ (d : ChunkPayload).
          (d.chunk_index < n)
          × (d.chunk_id ≡ run.chunk_id_from_index doc.document_id d.chunk_index))
        table

  Below-weaken : (m n : ℕ) (table : List ChunkPayload) → m ≤ n → Below m table → Below n table
  Below-weaken m n [] h low = tt
  Below-weaken m n (d ∷ table) h low =
      let first = low.0.0 in ((omega arith, low.0.1), Below-weaken m n table h low.1)

  differs :
      Distinct
      → (n : ℕ) (d : ChunkPayload)
      → (d.chunk_index < n) × (d.chunk_id ≡ run.chunk_id_from_index doc.document_id d.chunk_index)
      → text_eq d.chunk_id (run.chunk_id_from_index doc.document_id n) ≡ false
  differs apart n d (low, own) =
      elim (Bool-cases (text_eq d.chunk_id (run.chunk_id_from_index doc.document_id n))) [
        | inr e ↦ e
        | inl e ↦
            let same = apart d.chunk_index n (sym own ∙ (text_eq_iff _ _).0 e) in
            absurd (omega (arith, same, low))
      ]

  -- Chunks with new numbers stand behind those that are there.
  upsert-append :
      Distinct
      → (n : ℕ) (ds : List Document) (table : List ChunkPayload) → Below n table
      → upsert run doc (payloads_from run doc n ds) table ≡ table ++ payloads_from run doc n ds
  unfolding upsert payloads_from
  upsert-append apart n [] table h = sym (append-nil table)
  upsert-append apart n (d ∷ ds) table h =
      let c : ChunkPayload = record {
        chunk_id = run.chunk_id_from_index doc.document_id n;
        chunk_index = n;
        content = d.content;
        start_char = 0;
        end_char = length d.content;
        token_count = token_count_of run doc d;
        metadata = d.meta;
      } in
      let below_next : Below (suc n) (table ++ c ∷ []) =
        All-append _ table (c ∷ []) (Below-weaken n (suc n) table (omega arith) h)
          ((omega arith, refl), tt) in
      ap (upsert run doc (payloads_from run doc (suc n) ds))
        (put_new c table (All-map (differs apart n) table h))
      ∙ upsert-append apart (suc n) ds (table ++ c ∷ []) below_next
      ∙ append_assoc table (c ∷ []) (payloads_from run doc (suc n) ds)

  head_row : List (Text × ℕ × Text) → Text × ℕ × Text
  head_row [] = ([], 0, [])
  head_row (r ∷ rs) = r

  tail_rows : List (Text × ℕ × Text) → List (Text × ℕ × Text)
  tail_rows [] = []
  tail_rows (r ∷ rs) = rs

  pub numbered-Below :
      (i : ℕ) (ts : List Text) (table : List ChunkPayload)
      → map shown table ≡ numbered (run.chunk_id_from_index doc.document_id) i ts
      → Below (i + length ts) table
  unfolding head_row tail_rows
  numbered-Below i ts [] e = tt
  numbered-Below i [] (c ∷ table) e = cc e
  numbered-Below i (t ∷ ts) (c ∷ table) e =
      let first = ap head_row e in
      let at = ap (λ r. r.1) first in
      let rest = numbered-Below (suc i) ts table (ap tail_rows e) in
      (
        (
          omega (arith, at),
          ap (λ r. r.0) first ∙ ap (run.chunk_id_from_index doc.document_id) (sym at),
        ),
        Below-weaken (suc i + length ts) _ table (omega arith) rest,
      )

  -- An accepted append adds chunks with new numbers to the table, where a table that is to be cleared
  -- is empty.
  append_chunks-shown :
      Distinct
      → (clear : Bool) (n : ℕ) (ds : List Document) (table after : List ChunkPayload)
      → Below n table
      → (clear ≡ true → map shown table ≡ [])
      → append_chunks run doc clear (payloads_from run doc n ds) table ≡ some after
      → map shown after ≡ map shown table ++ map shown (payloads_from run doc n ds)
  unfolding append_chunks payloads_from
  append_chunks-shown apart clear n [] table after low h e =
      ap (map shown) (sym (some_eq e)) ∙ sym (append-nil (map shown table))
  append_chunks-shown apart clear n (d ∷ ds) table after low h e =
      elim (Bool-cases (run.accepts (payloads_from run doc n (d ∷ ds)))) [
        | inl k ↦ ap (map shown) (sym (some_eq (sym (if_true _ _ _ k) ∙ e))) ∙ cleared clear h
        | inr k ↦ cc (sym (if_false _ _ _ k) ∙ e)
      ]
    where
      cleared :
          (b : Bool)
          → (b ≡ true → map shown table ≡ [])
          → map shown (upsert run doc (payloads_from run doc n (d ∷ ds)) (if b then [] else table))
            ≡ map shown table ++ map shown (payloads_from run doc n (d ∷ ds))
      cleared true g =
          ap (map shown) (upsert-append apart n (d ∷ ds) [] tt)
          ∙ sym (ap (λ ts. ts ++ map shown (payloads_from run doc n (d ∷ ds))) (g refl))
      cleared false g =
          ap (map shown) (upsert-append apart n (d ∷ ds) table low)
          ∙ map-append shown table (payloads_from run doc n (d ∷ ds))

  -- What a shard's documents leave: the table grows by their contents, and the checkpoints stay.
  pub write_docs-shown :
      Distinct
      → ((ds es : List Document) → run.embed ds ≡ some es → es ≡ ds)
      → (resumed : Bool) (p : Progress) (docs : List Document) (w v : World) (offset : ℕ)
      → ((p.first_shard && not resumed) ≡ true → map shown w.chunks ≡ [])
      → Below p.chunk_offset w.chunks
      → write_docs run doc resumed p docs w ≡ some (offset, v)
      → (offset ≡ p.chunk_offset + length (map (λ (d : Document). d.content) docs))
        × (v.checkpoints ≡ w.checkpoints)
        × (map shown v.chunks
            ≡ map shown w.chunks
              ++ numbered
                  (run.chunk_id_from_index doc.document_id)
                  p.chunk_offset
                  (map (λ (d : Document). d.content) docs))
  unfolding write_docs
  write_docs-shown apart same resumed p [] w v offset h low e =
      let both = some_eq e in
      (
        sym (ap (λ r. r.0) both) ∙ sym (add-zero p.chunk_offset),
        sym (ap (λ r. r.1.checkpoints) both),
        sym (ap (λ r. map shown r.1.chunks) both) ∙ sym (append-nil (map shown w.chunks)),
      )
  write_docs-shown apart same resumed p (d ∷ ds) w v offset h low e =
      let (embedded, made, next) = bind_some _ _ (offset, v) e in
      let (table, saved, last) = bind_some _ _ (offset, v) next in
      let texts_same =
        ap (map (λ (d : Document). d.content)) (same _ embedded made)
        ∙ enrich-content (meta_override doc p.domain) (d ∷ ds) in
      let both = some_eq last in
      (
        sym (ap (λ r. r.0) both)
            ∙ ap (λ n. p.chunk_offset + n) (payloads_from-length p.chunk_offset embedded)
            ∙ ap (λ ts. p.chunk_offset + length ts) texts_same,
        sym (ap (λ r. r.1.checkpoints) both),
        sym (ap (λ r. map shown r.1.chunks) both)
            ∙ append_chunks-shown apart (p.first_shard && not resumed) p.chunk_offset embedded
                w.chunks table low h saved
            ∙ ap (λ ts. map shown w.chunks ++ ts) (payloads_from-shown p.chunk_offset embedded)
            ∙ ap
                (λ ts.
                  map shown w.chunks
                  ++ numbered (run.chunk_id_from_index doc.document_id) p.chunk_offset ts)
                texts_same,
      )
