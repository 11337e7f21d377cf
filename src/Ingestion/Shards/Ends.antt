-- ===== src/Ingestion/Shards/Ends.antt =====
-- The loop over the shards of a PDF ends, with the router or with the converter.
use docintel.Common.{
  ℕ, zero, suc, ◌-◌, ◌≤◌, ◌<◌, Bool, true, false, Option, none, some, ◌≡◌, ◌≢◌, sym, ap, ◌∙◌, arith,
  bind_some, some_eq, Bool-cases, Option-cases, if_true, if_false, inl, inr, ltb, ltb→lt, ◌==◌,
  if◌then◌else◌,
}
use docintel.Ingestion.Metadata.{Ingested}
use docintel.Ingestion.Shards.{
  write_docs, World, Progress, Outcome, raised, returned, running, Run, read_routed, read_converted,
  end_of_shard, shard, loop, begin_at, run_pdf_sharded,
}

module _ (run : Run) (doc : Ingested) where
  pub shard-next :
      (resumed : Bool) (p q : Progress) (w v : World)
      → shard run doc resumed p w ≡ some (q, v)
      → q.start_page ≡ suc (end_of_shard run doc p.start_page)
  unfolding shard
  shard-next resumed p q w v e =
      let end_page = end_of_shard run doc p.start_page in
      let ((s, docs), read, next) =
        bind_some
          (if run.use_page_routing
            then read_routed run doc p end_page
            else read_converted run doc p end_page)
          _ (q, v) e in
      let ((offset, u), written, last) =
        bind_some (write_docs run doc resumed s docs w) _ (q, v) next in
      ap (λ b. b.0.start_page) (sym (some_eq last))

  -- Whether a run has ended.
  abbrev has_ended : Outcome → Bool
  has_ended (raised w) = true
  has_ended (returned w count domain) = true
  has_ended running = false

  loop-ends :
      1 ≤ run.shard_size
      → (fuel : ℕ) (resumed : Bool) (p : Progress) (w : World)
      → run.total_pages - p.start_page < fuel
      → has_ended (loop run doc fuel resumed p w) ≡ true
  unfolding loop
  loop-ends size zero resumed p w h = absurd (omega arith)
  loop-ends size (suc fuel) resumed p w h = elim (Bool-cases (ltb p.start_page run.total_pages)) [
    | inl more ↦
        ap has_ended (if_true _ _ _ more) ∙ elim (Option-cases (shard run doc resumed p w)) [
          | inl failed ↦ ap (ended fuel) failed
          | inr ((q, v), e) ↦
              let next = shard-next resumed p q w v e in
              let less = ltb→lt p.start_page run.total_pages more in
              ap (ended fuel) e ∙ loop-ends size fuel resumed q v (omega arith)
        ]
    | inr done ↦ ap has_ended (if_false _ _ _ done)
  ]
    where
      ended : ℕ → Option (Progress × World) → Bool
      ended fuel o =
          has_ended (elim o [ none ↦ raised w | some (q, v) ↦ loop run doc fuel resumed q v ])

  -- The loop ends: where a shard has a page at least, a run raises or returns, from every world and
  -- whatever the calls answer.
  pub run_pdf_sharded-ends : (w : World) → 1 ≤ run.shard_size → run_pdf_sharded run doc w ≢ running
  unfolding run_pdf_sharded begin_at
  run_pdf_sharded-ends w size e = elim (Bool-cases (run.total_pages == 0)) [
    | inl none_there ↦ cc (sym (ap has_ended (if_true _ _ _ none_there)) ∙ ap has_ended e)
    | inr some_there ↦ cc (
        sym (
          ap has_ended (if_false _ _ _ some_there)
          ∙ loop-ends size (suc run.total_pages) _ _ w (omega arith))
        ∙ ap has_ended e)
  ]
