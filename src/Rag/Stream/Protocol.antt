-- ===== src/Rag/Stream/Protocol.antt =====
-- Every run of the stream keeps to the order of the events, and ends.
use docintel.Common.{
  zero, suc, drop, drop, suc, ◌∷◌, length, arith, ◌++◌, ◌==◌, Text, ℕ, Option-cases, true, ◌⊎◌, ◌<◌,
  Option, none, ◌≡◌, refl, ◌∙◌, Bool, false, not, ◌&&◌, inl, inr, Bool-cases, some, List, [],
  is_empty,
}
use docintel.Rag.Types.{Document, RetrievalMode, PipelineEvent}
use docintel.Rag.Llm.Order.{follow-run_queue}
use docintel.Rag.Guard.{new_guard}
use docintel.Rag.Llm.{Drained, Drained, run_queue, enqueue_all}
use docintel.Rag.Gate.{gate, rerank_or_skip, Settings}
use docintel.Rag.Engine.{replay_pieces, Engine, Request, Outcome, emit}
use docintel.Rag.Stream.{
  sources_event, Source, expand_query, embed, check, CachePoint, candidates, resolve_domain_filter,
  replay_cached, stream, check_cache, retrieve_documents, validate, rerank, get_or_default,
  conclude, finish_answer, generate, answer_without_documents, answer_from, gate_documents,
  rerank_documents, check_policy,
}
use docintel.Rag.Events.{
  EndsOnce, follow-EndsOnce, replaying, start, opened, follow-streaming-reranked,
  follow-reranked-retrieved, Phase, retrieved, reranked, streaming, done, follow, follow-append,
}

-- The events lead to the end.
abbrev pub Completes : Phase → Outcome → Type 0
Completes p o = follow p o.events ≡ some done

-- Events that lead from `p` to `q`, before a stream that completes from `q`.
emit-Completes :
    (p q : Phase) (es : List PipelineEvent) (o : Outcome)
    → follow p es ≡ some q
    → Completes q o
    → Completes p (emit es o)
emit-Completes p q es o h k = follow-append p q es o.events h ∙ k

module _ {V S : Type 0} (cfg : Settings) (e : Engine V S) (req : Request) where
  conclude-Completes :
      (docs : List Document) (d : Drained) (failed : Bool)
      → Completes streaming (conclude cfg e req docs d failed)
  unfolding conclude finish_answer follow
  conclude-Completes docs d failed =
      elim (Bool-cases (failed && is_empty d.answer && is_empty d.thinking_parts)) [
        | inl t ↦ simp t refl
        | inr f ↦ simp f refl
      ]

  generate-Completes : (docs : List Document) → Completes streaming (generate cfg e req docs)
  unfolding generate
  generate-Completes docs =
      let (chunks, failed) = e.llm docs in
      let d =
        run_queue (new_guard e.refusal_sentence) (enqueue_all req.effective_thinking chunks) in
      emit-Completes streaming streaming d.events (conclude cfg e req docs d failed)
        (follow-run_queue (new_guard e.refusal_sentence)
          (enqueue_all req.effective_thinking chunks))
        (conclude-Completes docs d failed)

  answer_from-Completes : (docs : List Document) → Completes reranked (answer_from cfg e req docs)
  unfolding answer_from answer_without_documents follow
  answer_from-Completes docs = elim (Bool-cases req.retrieve_only) [
    | inl t ↦ simp t refl
    | inr f ↦ simp f (elim (Bool-cases (is_empty docs)) [
      | inl t ↦ simp t refl
      | inr some_docs ↦ simp some_docs (elim (Bool-cases (e.build_prompt docs)) [
        | inr failed ↦ simp failed refl
        | inl built ↦ simp built (elim (Bool-cases e.semaphore_locked) [
          | inl locked ↦ simp locked (generate-Completes docs)
          | inr free ↦
              simp free (
                follow-streaming-reranked (generate cfg e req docs).events
                  (generate-Completes docs))
        ])
      ])
    ])
  ]

  gate_documents-Completes :
      (scored : Bool) (docs : List Document)
      → Completes reranked (gate_documents cfg e req scored docs)
  unfolding gate_documents
  gate_documents-Completes scored docs = answer_from-Completes (
      gate cfg (get_or_default req.min_score cfg.rag_min_relevance_score)
        (get_or_default req.top_k cfg.rag_default_top_k) scored docs)

  rerank_documents-Completes :
      (mode : RetrievalMode) (docs : List Document)
      → Completes retrieved (rerank_documents cfg e req mode docs)
  unfolding rerank_documents follow
  rerank_documents-Completes mode docs =
      elim (Bool-cases (req.use_reranking && not (is_empty docs))) [
        | inl t ↦
            (let r =
                rerank_or_skip cfg mode
                  (λ ds. rerank cfg.rag_reranker_top_k ds none (e.rerank_post ds)) docs in
              simp t (gate_documents-Completes r.scored r.documents))
        | inr f ↦ simp f (
            follow-reranked-retrieved (gate_documents cfg e req false docs).events
              (gate_documents-Completes false docs))
      ]

  check_policy-Completes :
      (mode : RetrievalMode) (docs : List Document)
      → Completes retrieved (check_policy cfg e req mode docs)
  unfolding check_policy follow
  check_policy-Completes mode docs = elim (Bool-cases (is_empty docs)) [
    | inl t ↦ simp t (rerank_documents-Completes mode [])
    | inr f ↦ simp f (elim (Bool-cases e.audit_fails) [
      | inl t ↦ simp t refl
      | inr g ↦
          simp g
            (rerank_documents-Completes mode (validate e.policy req.user_context docs).documents)
    ])
  ]

  retrieve_documents-Completes :
      (v : V) (s : Option S) (expanded : Option (V × Option S))
      → Completes opened (retrieve_documents cfg e req v s expanded)
  unfolding retrieve_documents follow
  retrieve_documents-Completes v s expanded =
      let filter = (resolve_domain_filter req.document_type (e.route req.question)).1 in
      elim (Option-cases (e.retrieve v s filter)) [
        | inl raised ↦ simp raised refl
        | inr ((docs, mode), found) ↦
            simp found (check_policy-Completes mode (candidates cfg e req filter expanded docs))
      ]

  follow-replay_pieces :
      (left size : ℕ) (s : Text) (sources : List Source)
      → follow replaying (replay_pieces left size s ++ sources_event sources ∷ []) ≡ some done
  unfolding replay_pieces follow
  follow-replay_pieces zero size s sources = refl
  follow-replay_pieces (suc left) size [] sources = refl
  follow-replay_pieces (suc left) size (c ∷ s) sources =
      follow-replay_pieces left size (drop size (c ∷ s)) sources

  -- What the cache check yields: a whole replay, or nothing.
  abbrev CacheEnds : List PipelineEvent × Bool → Type 0
  CacheEnds r = (r ≡ ([], false)) ⊎ ((follow opened r.0 ≡ some done) × (r.1 ≡ true))

  replay_cached-CacheEnds :
      (p : CachePoint)
      → 0 < cfg.rag_cache_replay_chunk_chars
      → CacheEnds (replay_cached cfg e req p)
  unfolding replay_cached follow
  replay_cached-CacheEnds p h = elim (Bool-cases (cfg.rag_cache_replay_chunk_chars == 0)) [
    | inl z ↦ absurd (ground arith)
    | inr f ↦ simp f (
        inr (
          follow-replay_pieces (length p.response) cfg.rag_cache_replay_chunk_chars p.response
              p.sources,
          refl,
        ))
  ]

  check_cache-CacheEnds :
      (v : V) → 0 < cfg.rag_cache_replay_chunk_chars → CacheEnds (check_cache cfg e req v)
  unfolding check_cache
  check_cache-CacheEnds v h = elim (Bool-cases (req.use_cache && e.has_cache)) [
    | inr no_cache ↦ simp no_cache (inl refl)
    | inl use_it ↦ elim (Option-cases (e.cache_search v)) [
      | inl raised ↦ simp (use_it, raised) (inl refl)
      | inr (near, found) ↦ elim (Option-cases (check near req.tenant_id (some req.user_context))) [
        | inl miss ↦ simp (use_it, found, miss) (inl refl)
        | inr (p, hit) ↦ simp (use_it, found, hit) (replay_cached-CacheEnds p h)
      ]
    ]
  ]

  stream-follow : 0 < cfg.rag_cache_replay_chunk_chars → Completes start (stream cfg e req)
  unfolding stream follow
  stream-follow h = elim (Option-cases (embed cfg e req req.question)) [
    | inl raised ↦ simp raised refl
    | inr ((v, s), embedded) ↦ elim (check_cache-CacheEnds v h) [
      | inl nothing ↦
          simp (embedded, nothing) (retrieve_documents-Completes v s (expand_query cfg e req))
      | inr (whole, ends) ↦ simp (embedded, ends) whole
    ]
  ]

  -- Where a cached answer is replayed in pieces of at least one character, the events of a stream
  -- keep to the order of `follow`, whatever the calls of `Engine` answer and whichever of them raise,
  -- and the stream ends: its last event, and only that one, is a `SourcesEvent` or an `ErrorEvent`.
  -- By that order each stage comes at most once and in its place: opening, cache or routing,
  -- retrieval, reranking, at most one `QueuedEvent`, the answer, the end; each error comes from its
  -- own stage; and a cache hit leads to tokens and sources only. The answer itself may hold no token,
  -- or tokens, thinking tokens and status events in any order. A call to which `Engine` gives no
  -- exception is taken to return.
  pub stream-Completes :
      0 < cfg.rag_cache_replay_chunk_chars
      → Completes start (stream cfg e req) × EndsOnce (stream cfg e req).events
  stream-Completes h =
      let whole = stream-follow h in
      (whole, follow-EndsOnce start (stream cfg e req).events (λ e. cc e) whole)
