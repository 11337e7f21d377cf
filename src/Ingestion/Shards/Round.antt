-- ===== src/Ingestion/Shards/Round.antt =====
-- One round of the loop over a PDF: it adds the texts of its shard to the table.
use native.Mathlib.Nat.{zero-add}
use docintel.Common.{
  ℕ, zero, suc, ◌+◌, ◌-◌, ◌≤◌, ◌<◌, Bool, true, not, ◌&&◌, ◌||◌, Option, none, some, List, [], ◌++◌,
  map, Text, length, ◌≡◌, sym, ap, subst, ◌∙◌, arith, bind_some, some_eq, Bool-cases, if_true,
  if_false, inl, inr, lookup, lookup-insert, text_eq_refl, length-append,
}
use docintel.Ingestion.Router.{PageProfile}
use docintel.Ingestion.Metadata.{Ingested, Document}
use docintel.Ingestion.Extraction.{extract_pages}
use docintel.Ingestion.Shards.{
  Checkpoint, World, Progress, Outcome, raised, returned, running, Run, decide, read_routed,
  save_checkpoint, end_of_shard, shard,
}
use docintel.Ingestion.Shards.Pages.{
  profiles, contents, visible, shown, numbered, contents-append, visible-append, numbered-append,
  Yields, extract_pages-contents, shard_docs-visible,
}
use docintel.Ingestion.Shards.Table.{Distinct, Below, numbered-Below, write_docs-shown}

module _ (content : ℕ → Text) (profile : ℕ → PageProfile) (run : Run) (doc : Ingested) where
  -- What a run with the router relies on: the prober gives the profiles of the pages it is asked for,
  -- an extraction by such a profile that yields a text yields that of the page, the ids of different
  -- numbers differ (they are hashes of the numbers), and the pipeline returns the documents that it
  -- embeds.
  pub record Reads : Type 0 where
    pub routed : run.use_page_routing ≡ true
    pub sized : 1 ≤ run.shard_size
    pub probed :
        (a b : ℕ)
        → a ≤ b
        → b < run.total_pages
        → run.probe_pages a b ≡ profiles profile a (suc b - a)
    pub yields : Yields run.extractors content profile
    pub distinct : Distinct run doc
    pub embedded : (ds es : List Document) → run.embed ds ≡ some es → es ≡ ds

  -- The texts of the chunks of the first pages.
  abbrev pub texts : ℕ → List Text
  texts k = visible (contents content 0 k)

  abbrev pub rows : ℕ → List (Text × ℕ × Text)
  rows k = numbered (run.chunk_id_from_index doc.document_id) 0 (texts k)

  -- The checkpoint behind the first pages.
  abbrev pub marked : ℕ → Option Checkpoint
  marked zero = none
  marked (suc k) = some (record {
    last_completed_page = k;
    chunk_count_so_far = length (texts (suc k));
    total_pages = run.total_pages;
  })

  -- The chunks of the first `k` pages are in the table, and the checkpoint says so.
  pub record Saved (k : ℕ) (w : World) : Type 0 where
    pub chunks : map shown w.chunks ≡ rows k
    pub checkpoint : lookup doc.document_id w.checkpoints ≡ marked k
    pub within : k ≤ run.total_pages

  -- How a run may leave the table: at a checkpoint, or with all pages and without a checkpoint.
  abbrev pub Left : Outcome → Type 0
  Left (raised w) = (k : ℕ) × Saved k w
  Left (returned w count domain) =
      (map shown w.chunks ≡ rows run.total_pages)
      × (count ≡ length (texts run.total_pages))
      × (lookup doc.document_id w.checkpoints ≡ none)
  Left running = ⊥

  -- The texts of the shard that begins at a page.
  abbrev pub shard_texts : ℕ → List Text
  shard_texts page = visible (contents content page (suc (end_of_shard run doc page) - page))

  pub record At (resumed : Bool) (p : Progress) (w : World) : Type 0 where
    pub saved : Saved p.start_page w
    pub offset : p.chunk_offset ≡ length (texts p.start_page)
    pub clears : (p.first_shard && not resumed) ≡ true → p.start_page ≡ 0

  -- The texts behind a shard.
  texts-shard :
      (page : ℕ)
      → 1 ≤ run.shard_size
      → page < run.total_pages
      → texts (suc (end_of_shard run doc page)) ≡ texts page ++ shard_texts page
  texts-shard page s h =
      ap (λ k. visible (contents content 0 k)) {x = suc (end_of_shard run doc page)} (omega arith)
      ∙ ap visible (contents-append content 0 page (suc (end_of_shard run doc page) - page))
      ∙ visible-append (contents content 0 page) _
      ∙ ap
          (λ k. texts page ++ visible (contents content k (suc (end_of_shard run doc page) - page)))
          (omega arith)

  -- A decision on the domain leaves the rest of the progress.
  decide_keeps :
      (p : Progress) (b : Bool) (sample : Text)
      → ((decide run doc p b sample).start_page ≡ p.start_page)
        × ((decide run doc p b sample).chunk_offset ≡ p.chunk_offset)
        × ((decide run doc p b sample).first_shard ≡ p.first_shard)
  unfolding decide
  decide_keeps p b sample = elim (Bool-cases (p.domain_decided || not b)) [
    | inl e ↦ (
      ap (λ (q : Progress). q.start_page) (if_true _ _ _ e),
      ap (λ (q : Progress). q.chunk_offset) (if_true _ _ _ e),
      ap (λ (q : Progress). q.first_shard) (if_true _ _ _ e),
    )
    | inr e ↦ (
      ap (λ (q : Progress). q.start_page) (if_false _ _ _ e),
      ap (λ (q : Progress). q.chunk_offset) (if_false _ _ _ e),
      ap (λ (q : Progress). q.first_shard) (if_false _ _ _ e),
    )
  ]

  read_routed-contents :
      Reads
      → (p q : Progress) (end_page : ℕ) (docs : List Document) → p.start_page ≤ end_page
      → end_page < run.total_pages
      → read_routed run doc p end_page ≡ some (q, docs)
      → (map (λ (d : Document). d.content) docs
          ≡ visible (contents content p.start_page (suc end_page - p.start_page)))
        × (q.start_page ≡ p.start_page)
        × (q.chunk_offset ≡ p.chunk_offset)
        × (q.first_shard ≡ p.first_shard)
  unfolding read_routed
  read_routed-contents r p q end_page docs low high e =
      let (es, made, last) = bind_some _ _ (q, docs) e in
      let both = some_eq last in
      let keeps = decide_keeps p _ _ in
      (
        ap (λ b. map (λ (d : Document). d.content) b.1) (sym both)
            ∙ shard_docs-visible p.chunk_offset es
            ∙ ap visible (
                extract_pages-contents run.extractors content profile r.yields p.start_page _ es (
                  ap (extract_pages run.extractors) (sym (r.probed p.start_page end_page low high))
                  ∙ made)),
        ap (λ b. b.0.start_page) (sym both) ∙ keeps.0,
        ap (λ b. b.0.chunk_offset) (sym both) ∙ keeps.1,
        ap (λ b. b.0.first_shard) (sym both) ∙ keeps.2,
      )

  -- The rows of a shard stand behind those before it.
  rows-shard :
      (page : ℕ)
      → 1 ≤ run.shard_size
      → page < run.total_pages
      → rows page
          ++ numbered
              (run.chunk_id_from_index doc.document_id)
              (length (texts page))
              (shard_texts page)
        ≡ rows (suc (end_of_shard run doc page))
  rows-shard page s h =
      ap (λ k. rows page ++ numbered (run.chunk_id_from_index doc.document_id) k (shard_texts page))
        (sym (zero-add (length (texts page))))
      ∙ sym (numbered-append _ 0 (texts page) (shard_texts page))
      ∙ ap (numbered (run.chunk_id_from_index doc.document_id) 0) (sym (texts-shard page s h))

  -- Where the table is cleared, it is empty.
  cleared_empty :
      (resumed : Bool) (p s : Progress) (w : World)
      → At resumed p w
      → s.first_shard ≡ p.first_shard
      → (s.first_shard && not resumed) ≡ true
      → map shown w.chunks ≡ []
  cleared_empty resumed p s w at first_is c =
      at.saved.chunks ∙ ap rows (at.clears (ap (λ b. b && not resumed) (sym first_is) ∙ c))

  -- The numbers in the table are below the next one.
  At-Below :
      (resumed : Bool) (p : Progress) (w : World)
      → At resumed p w
      → (n : ℕ) → n ≡ p.chunk_offset
      → Below run doc n w.chunks
  At-Below resumed p w at n e =
      subst (λ k. Below run doc k w.chunks)
        (zero-add (length (texts p.start_page)) ∙ sym (e ∙ at.offset))
        (numbered-Below run doc 0 (texts p.start_page) w.chunks at.saved.chunks)

  -- A round that does not raise adds the texts of its shard and comes closer to the last page.
  pub shard-At :
      Reads
      → (resumed : Bool) (p q : Progress) (w v : World) → At resumed p w
      → p.start_page < run.total_pages
      → shard run doc resumed p w ≡ some (q, v)
      → At resumed q v × (p.start_page < q.start_page)
  unfolding shard save_checkpoint
  shard-At r resumed p q w v at h e =
      let size = r.sized in
      let end_page = end_of_shard run doc p.start_page in
      let within_shard : p.start_page ≤ end_page = omega (arith, h, size) in
      let within_pdf : end_page < run.total_pages = omega (arith, h) in
      let ((s, docs), read, next) = bind_some _ _ (q, v) e in
      let (texts_are, start_is, offset_is, first_is) =
        read_routed-contents r p s end_page docs within_shard within_pdf
          (sym (if_true _ _ _ r.routed) ∙ read) in
      let ((offset, u), written, last) = bind_some _ _ (q, v) next in
      let (grown, kept, table) =
        write_docs-shown run doc r.distinct r.embedded resumed s docs w u offset
          (cleared_empty resumed p s w at first_is)
          (At-Below resumed p w at s.chunk_offset offset_is) written in
      let from = offset_is ∙ at.offset in
      let counted : offset ≡ length (texts (suc end_page)) =
        grown
        ∙ ap (λ k. k + length (map (λ (d : Document). d.content) docs)) from
        ∙ ap (λ ts. length (texts p.start_page) + length ts) texts_are
        ∙ sym (length-append (texts p.start_page) (shard_texts p.start_page))
        ∙ ap length (sym (texts-shard p.start_page r.sized h)) in
      let checkpoint_at : ℕ → Option Checkpoint = λ k. some (record {
        last_completed_page = end_page;
        chunk_count_so_far = k;
        total_pages = run.total_pages;
      }) in
      subst {A = Progress × World} (λ b. At resumed b.0 b.1 × (p.start_page < b.0.start_page))
        (some_eq last)
        (
          record {
            saved = record {
              chunks =
                  table
                  ∙ ap
                      (λ k.
                        map shown w.chunks
                        ++ numbered (run.chunk_id_from_index doc.document_id) k
                            (map (λ (d : Document). d.content) docs))
                      from
                  ∙ ap
                      (λ ts.
                        map shown w.chunks
                        ++ numbered (run.chunk_id_from_index doc.document_id)
                            (length (texts p.start_page)) ts)
                      texts_are
                  ∙ ap
                      (λ rs.
                        rs
                        ++ numbered (run.chunk_id_from_index doc.document_id)
                            (length (texts p.start_page)) (shard_texts p.start_page))
                      at.saved.chunks
                  ∙ rows-shard p.start_page r.sized h;
              checkpoint =
                  lookup-insert doc.document_id doc.document_id _ u.checkpoints
                  ∙ if_true _ _ _ (text_eq_refl doc.document_id)
                  ∙ ap checkpoint_at counted;
              within = omega arith;
            };
            offset = counted;
            clears = λ c. cc c;
          },
          omega arith,
        )
