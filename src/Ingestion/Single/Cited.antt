-- ===== src/Ingestion/Single/Cited.antt =====
-- Where the chunks of a file that is read in one pass come from.
use docintel.Ingestion.Shards.Pages.{enrich-content}
use mathlib.Core.List.{append_assoc}
use docintel.Common.{
  In-append_right, suc, ℕ, ◌+◌, some, List, [], ◌∷◌, ◌++◌, map, Text, codes, lookup, text_eq,
  length, take, drop, leb, All, All-append, In, ◌≡◌, refl, sym, ap, subst, ◌∙◌, inl, inr,
  Bool-cases, if_true, if_false, bind_some, some_eq,
}
use docintel.Ingestion.Metadata.{enrich, meta_override, number, texts, Document, Ingested}
use docintel.Ingestion.Metadata.Precedence.{enrich-Labelled, Labelled}
use docintel.Ingestion.Splitter.{Chunk}
use docintel.Ingestion.Splitter.Offsets.{Cites, split_document-Cites}
use docintel.Ingestion.Single.{
  decide_domain, Result, ingest, build_payloads, payload_of, offset_value, document_of, Payload,
  Calls, build_chunk_payload, split_documents,
}
use docintel.Ingestion.Single.Marks.{count_up, kept, set_start, set_end, value_here}

module _ (calls : Calls) (doc : Ingested) where
  -- A document of the splitter: it is a chunk of a text, with what the text's metadata say.
  record Split (sources : List Text) (d : Document) : Type 0 where
    source : Document
    among : In source.content sources
    chunk : Chunk
    cites : Cites calls.encode calls.decode 512 64 source.content chunk
    labelled : Labelled doc source
    made : d ≡ document_of calls.id_of source chunk

  -- A payload tells where it comes from, and who may read it: the text between its offsets, of one
  -- of the texts, ends its content.
  pub record Cited (sources : List Text) (p : Payload) : Type 0 where
    pub source : Text
    pub among : In source sources
    pub start : ℕ
    pub raw : Text
    pub overlap : Text
    pub starts : p.start_char ≡ number start
    pub ends : p.end_char ≡ number (start + length raw)
    pub stands : take (length raw) (drop start source) ≡ raw
    pub shown : p.content ≡ overlap ++ raw
    pub roles : lookup (codes "allowed_roles") p.metadata ≡ some (texts doc.acl.allowed_roles)
    pub users : lookup (codes "allowed_users") p.metadata ≡ some (texts doc.acl.allowed_users)

  chunks-Split :
      (sources : List Text) (d : Document)
      → In d.content sources
      → Labelled doc d
      → (cs : List Chunk) → All (Cites calls.encode calls.decode 512 64 d.content) cs
      → All (Split sources) (map (document_of calls.id_of d) cs)
  chunks-Split sources d among l [] h = tt
  chunks-Split sources d among l (c ∷ cs) h = (
    record { source = d; among = among; chunk = c; cites = h.0; labelled = l; made = refl },
    chunks-Split sources d among l cs h.1,
  )

  split_documents-Split :
      (sources : List Text) (ds : List Document)
      → All (λ (d : Document). In d.content sources) ds
      → All (Labelled doc) ds
      → All (Split sources) (split_documents calls doc ds)
  unfolding split_documents
  split_documents-Split sources [] h l = tt
  split_documents-Split sources (d ∷ ds) h l =
      All-append _ _ _
        (chunks-Split sources d h.0 l.0 _
          (split_document-Cites calls.encode calls.decode 512 64 d.content))
        (split_documents-Split sources ds h.1 l.1)

  -- Both branches give the payload of the document.
  build_chunk_payload_lem :
      (d : Document) (i : ℕ) (p : Payload)
      → build_chunk_payload calls doc d i ≡ some p
      → (id : Text) × (payload_of d i id ≡ p)
  unfolding build_chunk_payload
  build_chunk_payload_lem d i p e = elim (Bool-cases (leb 32 (length d.id))) [
    | inl h ↦
        let (u, made, last) =
          bind_some (calls.uuid_of_hex (take 32 d.id)) _ p (sym (if_true _ _ _ h) ∙ e) in
        (u, some_eq last)
    | inr h ↦ (_, some_eq (sym (if_false _ _ _ h) ∙ e))
  ]

  -- The payload of a chunk tells what its metadata tell.
  payload-Cited :
      (sources : List Text) (d : Document) (i : ℕ) (id : Text)
      → Split sources d
      → Cited sources (payload_of d i id)
  unfolding document_of offset_value text_eq
  payload-Cited sources d i id s =
      subst (λ x. Cited sources (payload_of x i id)) (sym s.made)
        (record {
          source = s.source.content;
          among = s.among;
          start = s.cites.start;
          raw = s.cites.raw;
          overlap = s.cites.overlap;
          starts =
              value_here _ _ _ _ (set_start calls.id_of s.source s.chunk)
              ∙ ap offset_value s.cites.starts;
          ends = value_here _ _ _ _ (set_end calls.id_of s.source s.chunk) ∙ ap number s.cites.ends;
          stands = s.cites.stands;
          shown = s.cites.shown;
          roles =
              kept calls.id_of s.source s.chunk (codes "allowed_roles") refl refl refl refl
              ∙ s.labelled.roles;
          users =
              kept calls.id_of s.source s.chunk (codes "allowed_users") refl refl refl refl
              ∙ s.labelled.users;
        })

  build_payloads-Cited :
      (sources : List Text) (i : ℕ) (ds : List Document) (ps : List Payload)
      → All (Split sources) ds
      → build_payloads calls doc i ds ≡ some ps
      → All (Cited sources) ps × (map (λ (p : Payload). p.chunk_index) ps ≡ count_up i (length ps))
  unfolding build_payloads
  build_payloads-Cited sources i [] ps h e =
      subst
        (λ qs.
          All (Cited sources) qs
          × (map (λ (p : Payload). p.chunk_index) qs ≡ count_up i (length qs)))
        (some_eq e) (tt, refl)
  build_payloads-Cited sources i (d ∷ ds) ps h e =
      let (p, built, next) = bind_some (build_chunk_payload calls doc d i) _ ps e in
      let (qs, rest, last) = bind_some (build_payloads calls doc (suc i) ds) _ ps next in
      let (id, is) = build_chunk_payload_lem d i p built in
      let (cited, counted) = build_payloads-Cited sources (suc i) ds qs h.1 rest in
      subst
        (λ rs.
          All (Cited sources) rs
          × (map (λ (p : Payload). p.chunk_index) rs ≡ count_up i (length rs)))
        (some_eq last)
        (
          (subst (Cited sources) is (payload-Cited sources d i id h.0), cited),
          ap (λ k. k ∷ map (λ (p : Payload). p.chunk_index) qs)
                (ap (λ (q : Payload). q.chunk_index) (sym is))
              ∙ ap (λ ks. i ∷ ks) counted,
        )

  -- The contents of some documents are among them.
  among_all :
      (sources : List Text) (ds : List Document) (rest : List Text)
      → sources ≡ rest ++ map (λ (d : Document). d.content) ds
      → All (λ (d : Document). In d.content sources) ds
  among_all sources [] rest e = tt
  among_all sources (d ∷ ds) rest e = (
    subst (In d.content) (sym e) (In-append_right d.content rest _ (inl refl)),
    among_all sources ds (rest ++ d.content ∷ [])
        (e ∙ sym (append_assoc rest (d.content ∷ []) (map (λ (d : Document). d.content) ds))),
  )

  pub ingest-Cited :
      ((ds es : List Document) (n : ℕ) → calls.embed_and_write ds ≡ some (es, n) → es ≡ ds)
      → (hint : Text) (raw : List Document) (r : Result) → ingest calls doc hint raw ≡ some r
      → All (Cited (map (λ (d : Document). d.content) raw)) r.chunks
        × (map (λ (p : Payload). p.chunk_index) r.chunks ≡ count_up 0 r.chunk_count)
  unfolding ingest
  ingest-Cited same hint [] r e =
      subst
        (λ (x : Result).
          All (Cited []) x.chunks
          × (map (λ (p : Payload). p.chunk_index) x.chunks ≡ count_up 0 x.chunk_count))
        (some_eq e) (tt, refl)
  ingest-Cited same hint (d ∷ ds) r e =
      let sources = map (λ (x : Document). x.content) (d ∷ ds) in
      let override = meta_override doc (decide_domain calls doc hint (d ∷ ds)) in
      let enriched = enrich override (d ∷ ds) in
      let ((es, written), done, next) =
        bind_some (calls.embed_and_write (split_documents calls doc enriched)) _ r e in
      let (ps, built, last) = bind_some (build_payloads calls doc 0 es) _ r next in
      let split =
        split_documents-Split sources enriched
          (among_all sources enriched [] (sym (enrich-content override (d ∷ ds))))
          (enrich-Labelled doc (decide_domain calls doc hint (d ∷ ds)) (d ∷ ds)) in
      let embedded = same _ es written done in
      subst
        (λ (x : Result).
          All (Cited sources) x.chunks
          × (map (λ (p : Payload). p.chunk_index) x.chunks ≡ count_up 0 x.chunk_count))
        (some_eq last)
        (build_payloads-Cited sources 0 es ps (subst (All (Split sources)) (sym embedded) split)
          built)
