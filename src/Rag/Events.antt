-- ===== src/Rag/Events.antt =====
-- The order of the events of a stream. It is that of the docstring of
-- services/rag-service/src/events.py with the metadata events of the later stages added, and without
-- two things that pipelines/query.py does not keep to: that an answer has a token at least, and that
-- thinking tokens and the status event come before all tokens.
use docintel.Common.{
  some_eq, refl, sym, ap, ◌∙◌, arith, Bool, true, false, ◌⊎◌, ◌≢◌, ◌≡◌, Option-cases, inl, inr,
  Option, none, some, List, [], ◌∷◌, ◌++◌, if◌then◌else◌,
}
use docintel.Rag.Types.{
  MetadataFields, embedding_failed, retrieval_failed, policy_check_failed, prompt_build_failed,
  generation_failed, PipelineEvent, metadata_event, routing_event, queued_event,
  thinking_token_event, token_event, sources_event, error_event, status_event,
}

-- Where a client stands in a stream.
pub data Phase : Type 0 where
  start opened replaying routed retrieved reranked streaming done : Phase

-- The tokens of an answer, and its end.
abbrev pub advance_answer : PipelineEvent → Option Phase
advance_answer (thinking_token_event t) = some streaming
advance_answer (token_event t) = some streaming
advance_answer (status_event t) = some streaming
advance_answer (sources_event s) = some done
advance_answer (error_event generation_failed) = some done
advance_answer (error_event prompt_build_failed) = some done
advance_answer _ = none

abbrev pub advance_reranked : PipelineEvent → Option Phase
advance_reranked queued_event = some streaming
advance_reranked ev = advance_answer ev

-- A metadata event that reports no cache hit leads to `p`.
abbrev pub on_miss : MetadataFields → Phase → Option Phase
on_miss m p = if m.cache_hit then none else some p

-- The phase after an event; `none` means that the event may not come there. Nothing may come
-- after the end.
unfoldable pub advance : Phase → PipelineEvent → Option Phase
advance start (metadata_event m) = on_miss m opened
advance opened (error_event embedding_failed) = some done
advance opened (metadata_event m) = if m.cache_hit then some replaying else none
advance opened (routing_event d x) = some routed
advance replaying (token_event t) = some replaying
advance replaying (sources_event s) = some done
advance routed (error_event retrieval_failed) = some done
advance routed (metadata_event m) = on_miss m retrieved
advance retrieved (error_event policy_check_failed) = some done
advance retrieved (metadata_event m) = on_miss m reranked
advance retrieved ev = advance_reranked ev
advance reranked ev = advance_reranked ev
advance streaming ev = advance_answer ev
advance _ _ = none

unfoldable pub follow : Phase → List PipelineEvent → Option Phase
unfolding advance
follow p [] = some p
follow p (ev ∷ evs) = elim (advance p ev) [ none ↦ none | some q ↦ follow q evs ]

pub follow-append :
    (p q : Phase) (xs ys : List PipelineEvent)
    → follow p xs ≡ some q
    → follow p (xs ++ ys) ≡ follow q ys
unfolding follow
follow-append p q [] ys h = cc
follow-append p q (x ∷ xs) ys h = elim (Option-cases (advance p x)) [
  | inl stuck ↦ cc (rw (follow, stuck) at h)
  | inr (r, next) ↦ rw (follow, next) (follow-append r q xs ys (rw (follow, next) at h))
]

-- An answer may begin before anything is queued, and before documents are reranked.
pub follow-streaming-reranked :
    (evs : List PipelineEvent) → follow streaming evs ≡ some done → follow reranked evs ≡ some done
unfolding follow
follow-streaming-reranked [] h = cc
follow-streaming-reranked (queued_event ∷ evs) h = cc
follow-streaming-reranked (error_event embedding_failed ∷ evs) h = h
follow-streaming-reranked (error_event _ ∷ evs) h = h
follow-streaming-reranked (_ ∷ evs) h = h

pub follow-reranked-retrieved :
    (evs : List PipelineEvent) → follow reranked evs ≡ some done → follow retrieved evs ≡ some done
unfolding follow
follow-reranked-retrieved [] h = cc
follow-reranked-retrieved (metadata_event m ∷ evs) h = cc
follow-reranked-retrieved (error_event policy_check_failed ∷ evs) h = cc
follow-reranked-retrieved (error_event _ ∷ evs) h = h
follow-reranked-retrieved (_ ∷ evs) h = h

-- A `SourcesEvent` or an `ErrorEvent`.
abbrev pub is_final : PipelineEvent → Bool
is_final (sources_event s) = true
is_final (error_event m) = true
is_final _ = false

-- The last event is final, and no other one.
abbrev pub EndsOnce : List PipelineEvent → Type 0
EndsOnce [] = ⊥
EndsOnce (ev ∷ []) = is_final ev ≡ true
EndsOnce (ev ∷ next ∷ evs) = (is_final ev ≡ false) × EndsOnce (next ∷ evs)

advance-final :
    (p q : Phase) (ev : PipelineEvent)
    → advance p ev ≡ some q
    → ((is_final ev ≡ true) × (q ≡ done)) ⊎ ((is_final ev ≡ false) × (q ≢ done))
unfolding advance
advance-final p q ev h = ground (arith)

advance-done : (ev : PipelineEvent) → advance done ev ≡ none
unfolding advance
advance-done ev = refl

follow_next :
    (p q : Phase) (ev : PipelineEvent) (evs : List PipelineEvent)
    → advance p ev ≡ some q
    → follow p (ev ∷ evs) ≡ follow q evs
unfolding follow
follow_next p q ev evs e =
    ap (λ (o : Option Phase). elim o [ none ↦ none | some r ↦ follow r evs ]) e

follow_stuck :
    (p : Phase) (ev : PipelineEvent) (evs : List PipelineEvent)
    → advance p ev ≡ none
    → follow p (ev ∷ evs) ≡ none
unfolding follow
follow_stuck p ev evs e =
    ap (λ (o : Option Phase). elim o [ none ↦ none | some r ↦ follow r evs ]) e

follow-nil : (p : Phase) → follow p [] ≡ some done → p ≡ done
unfolding follow
follow-nil p h = some_eq h

-- What is followed to the end ends once.
pub follow-EndsOnce :
    (p : Phase) (evs : List PipelineEvent) → p ≢ done → follow p evs ≡ some done → EndsOnce evs
follow-EndsOnce p [] live h = live (follow-nil p h)
follow-EndsOnce p (ev ∷ []) live h = elim (Option-cases (advance p ev)) [
  | inl stuck ↦ cc (follow_stuck p ev [] stuck, h)
  | inr (q, e) ↦ elim (advance-final p q ev e) [
    | inl (final, over) ↦ final
    | inr (early, live') ↦ absurd (live' (follow-nil q (sym (follow_next p q ev [] e) ∙ h)))
  ]
]
follow-EndsOnce p (ev ∷ next ∷ evs) live h = elim (Option-cases (advance p ev)) [
  | inl stuck ↦ cc (follow_stuck p ev (next ∷ evs) stuck, h)
  | inr (q, e) ↦
      let rest = sym (follow_next p q ev (next ∷ evs) e) ∙ h in
      elim (advance-final p q ev e) [
        | inl (final, over) ↦ cc (
          follow_stuck done next evs (advance-done next),
          ap (λ r. follow r (next ∷ evs)) over,
          rest,
        )
        | inr (early, live') ↦ (early, follow-EndsOnce q (next ∷ evs) live' rest)
      ]
]
