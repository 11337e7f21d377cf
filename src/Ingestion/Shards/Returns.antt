-- ===== src/Ingestion/Shards/Returns.antt =====
-- A run over a PDF returns, where the calls answer.
use docintel.Common.{
  bind_at, ℕ, zero, suc, ◌-◌, ◌≤◌, ◌<◌, Bool, true, false, not, ◌&&◌, Option, none, some, List, [],
  ◌∷◌, ◌≡◌, refl, ap, ◌∙◌, arith, Bool-cases, if_true, if_false, inl, inr, ltb, ltb→lt,
  if◌then◌else◌, ◌==◌, ==_iff,
}
use docintel.Ingestion.Router.{PageProfile}
use docintel.Ingestion.Metadata.{Ingested, Document, enrich, meta_override}
use docintel.Ingestion.Extraction.{Extract, extract_page, extract_pages}
use docintel.Ingestion.Shards.{
  ChunkPayload, World, Progress, Outcome, raised, returned, running, Run, read_routed,
  read_converted, append_chunks, write_docs, end_of_shard, shard, loop, begin_at, run_pdf_sharded,
  payloads_from,
}
use docintel.Ingestion.Shards.Ends.{shard-next}

-- The router is on, and each call of a run answers.
pub record Answering (run : Run) : Type 0 where
  pub routed : run.use_page_routing ≡ true
  pub extracts : (p : PageProfile) → (e : Extract) × (extract_page run.extractors p ≡ some e)
  pub embeds : (ds : List Document) → (es : List Document) × (run.embed ds ≡ some es)
  pub stores : (cs : List ChunkPayload) → run.accepts cs ≡ true

module _ (run : Run) (doc : Ingested) (answers : Answering run) where
  extract_pages_total :
      (ps : List PageProfile) → (es : List Extract) × (extract_pages run.extractors ps ≡ some es)
  unfolding extract_pages
  extract_pages_total [] = ([], refl)
  extract_pages_total (p ∷ ps) =
      let (e, h) = answers.extracts p in
      let (es, k) = extract_pages_total ps in (e ∷ es, bind_at _ _ e h ∙ bind_at _ _ es k)

  append_chunks_total :
      (clear : Bool) (cs table : List ChunkPayload)
      → (after : List ChunkPayload) × (append_chunks run doc clear cs table ≡ some after)
  unfolding append_chunks
  append_chunks_total clear [] table = (table, refl)
  append_chunks_total clear (c ∷ cs) table = (_, if_true _ _ _ (answers.stores (c ∷ cs)))

  write_docs_total :
      (resumed : Bool) (p : Progress) (ds : List Document) (w : World)
      → (r : ℕ × World) × (write_docs run doc resumed p ds w ≡ some r)
  unfolding write_docs
  write_docs_total resumed p [] w = (_, refl)
  write_docs_total resumed p (d ∷ ds) w =
      let (es, h) = answers.embeds (enrich (meta_override doc p.domain) (d ∷ ds)) in
      let (table, k) =
        append_chunks_total (p.first_shard && not resumed) (payloads_from run doc p.chunk_offset es)
          w.chunks in
      (_, bind_at _ _ es h ∙ bind_at _ _ table k)

  read_routed_total :
      (p : Progress) (end_page : ℕ)
      → (r : Progress × List Document) × (read_routed run doc p end_page ≡ some r)
  unfolding read_routed
  read_routed_total p end_page =
      let (es, h) = extract_pages_total (run.probe_pages p.start_page end_page) in
      (_, bind_at _ _ es h)

  shard_total :
      (resumed : Bool) (p : Progress) (w : World)
      → (r : Progress × World) × (shard run doc resumed p w ≡ some r)
  unfolding shard
  shard_total resumed p w =
      let end_page = end_of_shard run doc p.start_page in
      let ((q, docs), h) = read_routed_total p end_page in
      let (r, k) = write_docs_total resumed q docs w in
      (
        _,
        bind_at
              (if run.use_page_routing
                then read_routed run doc p end_page
                else read_converted run doc p end_page)
              _ (q, docs) (if_true _ _ _ answers.routed ∙ h)
            ∙ bind_at (write_docs run doc resumed q docs w) _ r k,
      )

  abbrev pub has_returned : Outcome → Bool
  has_returned (raised w) = false
  has_returned (returned w count domain) = true
  has_returned running = false

  loop_returns :
      1 ≤ run.shard_size
      → (fuel : ℕ) (resumed : Bool) (p : Progress) (w : World)
      → run.total_pages - p.start_page < fuel
      → has_returned (loop run doc fuel resumed p w) ≡ true
  unfolding loop
  loop_returns size zero resumed p w h = absurd (omega arith)
  loop_returns size (suc fuel) resumed p w h =
      elim (Bool-cases (ltb p.start_page run.total_pages)) [
        | inl more ↦
            let ((q, v), e) = shard_total resumed p w in
            let next = shard-next run doc resumed p q w v e in
            let less = ltb→lt p.start_page run.total_pages more in
            ap has_returned (if_true _ _ _ more)
            ∙ ap (after fuel) e
            ∙ loop_returns size fuel resumed q v (omega arith)
        | inr done ↦ ap has_returned (if_false _ _ _ done)
      ]
    where
      after : ℕ → Option (Progress × World) → Bool
      after n o =
          has_returned (elim o [ none ↦ raised w | some (q, v) ↦ loop run doc n resumed q v ])

  -- Where the router is on, the PDF and its shards have a page at least, and each extraction, the
  -- pipeline and the document service answer, a run returns, from every world.
  pub run_pdf_sharded_returns :
      1 ≤ run.shard_size
      → 1 ≤ run.total_pages
      → (w : World) → has_returned (run_pdf_sharded run doc w) ≡ true
  unfolding run_pdf_sharded begin_at
  run_pdf_sharded_returns size pages w = elim (Bool-cases (run.total_pages == 0)) [
    | inl e ↦ absurd (let none_there = (==_iff run.total_pages 0).0 e in omega arith)
    | inr e ↦
        ap has_returned (if_false _ _ _ e)
        ∙ loop_returns size (suc run.total_pages) _ _ w (omega arith)
  ]
