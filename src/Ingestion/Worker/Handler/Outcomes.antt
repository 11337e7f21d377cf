-- ===== src/Ingestion/Worker/Handler/Outcomes.antt =====
-- What a run of `_handle_message` reports and acknowledges.
use docintel.Common.{
  Option, is_empty, Bool, ltb, if◌then◌else◌, ◌≡◌, refl, true, false, none, some, List, [], ◌∷◌,
}
use docintel.Ingestion.Worker.{Message}
use docintel.Ingestion.Worker.Handler.{
  Fetched, files, missing, fetch_raises, Ingested, completed, Completion, Answers, Handled,
  document_id, on_exception, publish_and_ack, store, process, process_ingested, give_up,
  handle_message, success, failure, max_delivery_count,
}

module _ {C : Type 0} (a : Answers C) (msg : Message) where
  -- What an acknowledged run did: it published one event, about this document; and if that says
  -- completed, it stored all chunks of the ingestion, whose number it reports.
  pub record Acknowledged (h : Handled C) : Type 0 where
    pub event : Completion
    pub published_one : h.published ≡ event ∷ []
    pub same_document : event.document_id ≡ document_id a msg
    pub stored :
        event.status ≡ completed
        → (r : Ingested C) × (a.ingest ≡ some r)
          × (h.persisted ≡ r.chunks)
          × (event.chunk_count ≡ r.chunk_count)

  if_cases :
      (b : Bool) (x y : Handled C)
      → (b ≡ true → x.acked ≡ true → Acknowledged x)
      → (b ≡ false → y.acked ≡ true → Acknowledged y)
      → (if b then x else y).acked ≡ true
      → Acknowledged (if b then x else y)
  if_cases true x y f g e = f refl e
  if_cases false x y f g e = g refl e

  on_exception-Acknowledged :
      (es : List Completion) (cs : List C)
      → (on_exception a msg es cs).acked ≡ true
      → Acknowledged (on_exception a msg es cs)
  unfolding on_exception
  on_exception-Acknowledged es cs e = cc e

  abbrev StoredAll : Completion → List C → Type 0
  StoredAll c cs =
      c.status ≡ completed
      → (r : Ingested C) × (a.ingest ≡ some r) × (cs ≡ r.chunks) × (c.chunk_count ≡ r.chunk_count)

  publish_and_ack-Acknowledged :
      (c : Completion) (cs : List C)
      → c.document_id ≡ document_id a msg
      → StoredAll c cs
      → (publish_and_ack a msg c cs).acked ≡ true
      → Acknowledged (publish_and_ack a msg c cs)
  unfolding publish_and_ack
  publish_and_ack-Acknowledged c cs d s e =
      if_cases (a.publishes) _ _
        (λ p.
          if_cases a.acks _ _
            (λ q o. record { event = c; published_one = refl; same_document = d; stored = s })
            (λ q. on_exception-Acknowledged (c ∷ []) cs))
        (λ p. on_exception-Acknowledged [] cs) e

  give_up-Acknowledged : (give_up a msg).acked ≡ true → Acknowledged (give_up a msg)
  unfolding give_up
  give_up-Acknowledged e =
      if_cases (a.publishes) _ _
        (λ p o. record {
          event = failure a msg;
          published_one = refl;
          same_document = refl;
          stored = λ k. cc k;
        })
        (λ p o. cc o) e

  empty_chunks : (cs : List C) → is_empty cs ≡ true → [] ≡ cs
  empty_chunks [] e = refl
  empty_chunks (c ∷ cs) e = cc e

  store-Acknowledged :
      (r : Ingested C)
      → a.ingest ≡ some r
      → (store a msg r).acked ≡ true
      → Acknowledged (store a msg r)
  unfolding store
  store-Acknowledged r h e =
      if_cases (is_empty r.chunks) _ _
        (λ p.
          publish_and_ack-Acknowledged (success a msg r) [] refl
            (λ k. (r, h, empty_chunks r.chunks p, refl)))
        (λ p.
          if_cases a.persist _ _
            (λ q.
              publish_and_ack-Acknowledged (success a msg r) r.chunks refl
                (λ k. (r, h, refl, refl)))
            (λ q. on_exception-Acknowledged [] []))
        e

  process_ingested-Acknowledged :
      (o : Option (Ingested C))
      → a.ingest ≡ o
      → (process_ingested a msg o).acked ≡ true
      → Acknowledged (process_ingested a msg o)
  unfolding process_ingested
  process_ingested-Acknowledged none h e = on_exception-Acknowledged [] [] e
  process_ingested-Acknowledged (some r) h e = store-Acknowledged r h e

  process-Acknowledged :
      (f : Fetched) → (process a msg f).acked ≡ true → Acknowledged (process a msg f)
  unfolding process
  process-Acknowledged missing e =
      publish_and_ack-Acknowledged (failure a msg) [] refl (λ k. cc k) e
  process-Acknowledged fetch_raises e = on_exception-Acknowledged [] [] e
  process-Acknowledged files e = process_ingested-Acknowledged a.ingest refl e

-- A message is acknowledged only by a run that published exactly one completion event, about the
-- message's document; and if that event says completed, then the document service has stored all
-- chunks that the ingestion returned.
pub handle_message-Acknowledged :
    {C : Type 0} (a : Answers C) (msg : Message)
    → (handle_message a msg).acked ≡ true
    → Acknowledged a msg (handle_message a msg)
unfolding handle_message
handle_message-Acknowledged a msg e =
    if_cases a msg (ltb max_delivery_count a.delivery_count) _ _ (λ p. give_up-Acknowledged a msg)
      (λ p. process-Acknowledged a msg a.fetch) e
