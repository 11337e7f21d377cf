-- ===== src/Rag/Stream/Effects.antt =====
-- What a stream writes into the cache and stores in the conversation, against what it yields.
use docintel.Shared.Security.{classification_order, parse_classification}
use docintel.Rag.Routing.{resolve_domain_filter}
use docintel.Rag.Sources.{build_sources}
use docintel.Rag.Guard.{new_guard}
use docintel.Rag.Llm.{run_queue, enqueue_all}
use docintel.Rag.Cache.{check, write_level, write_point}
use docintel.Rag.Stream.{
  expand_query, embed, replay_cached, stream, check_cache, routing_event, candidates,
  metadata_event, resolve_domain_filter, RetrievalMode, build_sources, retrieve_documents,
  check_policy, rerank_documents, gate_documents, sources_event, new_guard, queued_event,
  enqueue_all, Document, conclude, write_point, answer_from, answer_without_documents, generate,
  finish_answer,
}
use docintel.Rag.Gate.{Settings}
use mathlib.Core.List.{append-nil}
use docintel.Common.{
  ◌==◌, text_eq, arith, Option-cases, not, Bool, ◌&&◌, inr, Bool-cases, inl, none, refl, ◌∷◌, some,
  Option, if◌then◌else◌, ◌≡◌, sym, ap, ◌∙◌, true, false, ◌||◌, ◌⊎◌, List, [], ◌++◌, Text, is_empty,
  strip, All,
}
use docintel.Rag.Types.{
  routing_event, metadata_event, RetrievalMode, sources_event, queued_event, Document,
  PipelineEvent,
}
use docintel.Rag.Llm.Order.{
  has_error-run_queue, token_text-run_queue, token_text, token_text-append, has_error,
  has_error-append,
}
use docintel.Rag.Engine.{Request, Engine, turns_of, Turn, only, Outcome, emit}

-- What one run leaves behind: nothing if it yields an error; and what it caches and stores is the
-- text that it yielded as tokens, with or without the white space at its ends; it caches no empty
-- answer, and marks what it caches as internal and free of roles.
pub record Faithful (tenant : Text) (o : Outcome) : Type 0 where
  pub no_trace : has_error o.events ≡ true → (o.cache_writes ≡ []) × (o.turns ≡ [])
  pub cached :
      All
        (λ p.
          (p.response ≡ strip (token_text o.events))
          × (is_empty p.response ≡ false)
          × (p.tenant_id ≡ tenant)
          × (p.max_classification_level ≡ 1)
          × (p.required_roles ≡ []))
        o.cache_writes
  pub stored :
      All (λ t. (t.answer ≡ token_text o.events) ⊎ (t.answer ≡ strip (token_text o.events))) o.turns

-- Events before a run that are no tokens and no errors.
emit-Faithful :
    (tenant : Text) (es : List PipelineEvent) (o : Outcome)
    → token_text es ≡ []
    → has_error es ≡ false
    → Faithful tenant o
    → Faithful tenant (emit es o)
emit-Faithful tenant es o silent fine h =
    let text = token_text-append es o.events in
    let same : token_text (es ++ o.events) ≡ token_text o.events =
      text ∙ ap (λ r. r ++ token_text o.events) silent in
    record {
      no_trace = λ err.
          h.no_trace
            (sym (has_error-append es o.events ∙ ap (λ b. b || has_error o.events) fine) ∙ err);
      cached = rw same h.cached;
      stored = rw same h.stored;
    }

only-Faithful : (tenant : Text) (es : List PipelineEvent) → Faithful tenant (only es)
only-Faithful tenant es = record { no_trace = λ h. (refl, refl); cached = tt; stored = tt }

turns_of-All : (P : Turn → Type 0) (id : Option Text) (t : Turn) → P t → All P (turns_of id t)
turns_of-All P none t h = tt
turns_of-All P (some []) t h = tt
turns_of-All P (some (c ∷ s)) t h = (h, tt)

module _ {V S : Type 0} (cfg : Settings) (e : Engine V S) (req : Request) where
  abbrev IsFaithful : Outcome → Type 0
  IsFaithful o = Faithful req.tenant_id o

  -- An answer behind token events whose text is `text`.
  finish_answer-Faithful :
      (docs : List Document) (es : List PipelineEvent) (text : Text)
      → token_text es ≡ text
      → has_error es ≡ false
      → IsFaithful (emit es (finish_answer cfg e req docs (strip text)))
  unfolding finish_answer write_point write_level parse_classification classification_order text_eq
  finish_answer-Faithful docs es text tokens fine =
      let ends = token_text-append es (sources_event (build_sources docs) ∷ []) in
      let same : token_text (es ++ sources_event (build_sources docs) ∷ []) ≡ text =
        ends ∙ append-nil (token_text es) ∙ tokens in
      record {
        no_trace =
            λ err. cc (has_error-append es (sources_event (build_sources docs) ∷ []), fine, err);
        cached =
            rw same
              (elim (Bool-cases (req.use_cache && e.has_cache && not (is_empty (strip text)))) [
                | inr off ↦ simp off tt
                | inl on ↦ simp on ((refl, ground arith, refl, refl, refl), tt)
              ]);
        stored = rw same (turns_of-All _ req.conversation_id _ (inr refl));
      }

  generate-Faithful : (docs : List Document) → IsFaithful (generate cfg e req docs)
  unfolding generate conclude
  generate-Faithful docs =
      let (chunks, failed) = e.llm docs in
      let items = enqueue_all req.effective_thinking chunks in
      let d = run_queue (new_guard e.refusal_sentence) items in
      elim (Bool-cases (failed && is_empty d.answer && is_empty d.thinking_parts)) [
        | inl t ↦ simp t (only-Faithful req.tenant_id _)
        | inr f ↦ simp f (
            finish_answer-Faithful docs d.events d.answer
              (token_text-run_queue (new_guard e.refusal_sentence) items)
              (has_error-run_queue (new_guard e.refusal_sentence) items))
      ]

  without_documents-Faithful : IsFaithful (answer_without_documents cfg e req)
  unfolding answer_without_documents
  without_documents-Faithful = record {
    no_trace = λ err. cc;
    cached = tt;
    stored = turns_of-All _ req.conversation_id _ (inl (sym (append-nil _)));
  }

  answer_from-Faithful : (docs : List Document) → IsFaithful (answer_from cfg e req docs)
  unfolding answer_from
  answer_from-Faithful docs = elim (Bool-cases req.retrieve_only) [
    | inl t ↦ simp t (only-Faithful req.tenant_id _)
    | inr f ↦ simp f (elim (Bool-cases (is_empty docs)) [
      | inl t ↦ simp t without_documents-Faithful
      | inr filled ↦ simp filled (elim (Bool-cases (e.build_prompt docs)) [
        | inr failed ↦ simp failed (only-Faithful req.tenant_id _)
        | inl built ↦ simp built (queued docs)
      ])
    ])
  ]
    where
      queued :
          (docs : List Document)
          → IsFaithful (
              emit (if e.semaphore_locked then queued_event ∷ [] else []) (generate cfg e req docs))
      queued docs = elim (Bool-cases e.semaphore_locked) [
        | inl t ↦ simp t (
            emit-Faithful req.tenant_id (queued_event ∷ []) (generate cfg e req docs) refl refl
              (generate-Faithful docs))
        | inr f ↦ simp f (generate-Faithful docs)
      ]

  gate_documents-Faithful :
      (scored : Bool) (docs : List Document) → IsFaithful (gate_documents cfg e req scored docs)
  unfolding gate_documents
  gate_documents-Faithful scored docs = answer_from-Faithful _

  rerank_documents-Faithful :
      (mode : RetrievalMode) (docs : List Document)
      → IsFaithful (rerank_documents cfg e req mode docs)
  unfolding rerank_documents
  rerank_documents-Faithful mode docs =
      elim (Bool-cases (req.use_reranking && not (is_empty docs))) [
        | inl t ↦ simp t (
            emit-Faithful req.tenant_id (metadata_event _ ∷ []) (gate_documents cfg e req _ _) refl
              refl (gate_documents-Faithful _ _))
        | inr f ↦ simp f (gate_documents-Faithful false docs)
      ]

  check_policy-Faithful :
      (mode : RetrievalMode) (docs : List Document) → IsFaithful (check_policy cfg e req mode docs)
  unfolding check_policy
  check_policy-Faithful mode docs = elim (Bool-cases (is_empty docs)) [
    | inl t ↦ simp t (rerank_documents-Faithful mode [])
    | inr f ↦ simp f (elim (Bool-cases e.audit_fails) [
      | inl t ↦ simp t (only-Faithful req.tenant_id _)
      | inr g ↦ simp g (rerank_documents-Faithful mode _)
    ])
  ]

  retrieve_documents-Faithful :
      (v : V) (s : Option S) (expanded : Option (V × Option S))
      → IsFaithful (retrieve_documents cfg e req v s expanded)
  unfolding retrieve_documents
  retrieve_documents-Faithful v s expanded =
      let filter = (resolve_domain_filter req.document_type (e.route req.question)).1 in
      elim (Option-cases (e.retrieve v s filter)) [
        | inl raised ↦ simp raised (only-Faithful req.tenant_id _)
        | inr ((docs, mode), found) ↦
            let o = check_policy cfg e req mode (candidates cfg e req filter expanded docs) in
            simp found (
              emit-Faithful req.tenant_id (routing_event _ _ ∷ metadata_event _ ∷ []) o refl refl
                (check_policy-Faithful mode (candidates cfg e req filter expanded docs)))
      ]

  check_cache-silent :
      (v : V)
      → (check_cache cfg e req v).1 ≡ false
      → (token_text (check_cache cfg e req v).0 ≡ [])
        × (has_error (check_cache cfg e req v).0 ≡ false)
  unfolding check_cache replay_cached
  check_cache-silent v h = elim (Bool-cases (req.use_cache && e.has_cache)) [
    | inr no_cache ↦ simp no_cache (refl, refl)
    | inl use_it ↦ elim (Option-cases (e.cache_search v)) [
      | inl raised ↦ simp (use_it, raised) (refl, refl)
      | inr (near, found) ↦ elim (Option-cases (check near req.tenant_id (some req.user_context))) [
        | inl miss ↦ simp (use_it, found, miss) (refl, refl)
        | inr (p, hit) ↦ elim (Bool-cases (cfg.rag_cache_replay_chunk_chars == 0)) [
          | inl z ↦ simp (use_it, found, hit, z) (refl, refl)
          | inr f ↦ cc (simp (use_it, found, hit, f) at h)
        ]
      ]
    ]
  ]

  -- Every run is faithful: a run that yields an error writes no cache entry and stores no turn; and
  -- every cache entry and stored answer is the text that the client got as tokens, with or without
  -- the white space at its ends. A cache entry is not empty, belongs to the request's tenant, has
  -- the level of `internal` and wants no role.
  pub stream-Faithful : IsFaithful (stream cfg e req)
  unfolding stream
  stream-Faithful = elim (Option-cases (embed cfg e req req.question)) [
    | inl raised ↦ simp raised (only-Faithful req.tenant_id _)
    | inr ((v, s), embedded) ↦ elim (Bool-cases (check_cache cfg e req v).1) [
      | inl ended ↦ simp (embedded, ended) (only-Faithful req.tenant_id _)
      | inr goes_on ↦
          let (silent, fine) = check_cache-silent v goes_on in
          let o = retrieve_documents cfg e req v s (expand_query cfg e req) in
          simp (embedded, goes_on)
            (emit-Faithful req.tenant_id (metadata_event _ ∷ (check_cache cfg e req v).0) o silent
              fine (retrieve_documents-Faithful v s (expand_query cfg e req)))
    ]
  ]
