-- ===== src/Rag/Stream/Retrieved.antt =====
-- The documents that a stream works on are those that its own calls of the retriever returned.
use docintel.Common.{
  sym, subst, ◌≡◌, refl, ◌⊎◌, inl, inr, Bool-cases, Option-cases, Option, none, some, List, [], ◌∷◌,
  ◌++◌, text_eq, any, All, All-map, All-append, In,
}
use docintel.Rag.Types.{Document, RetrievalMode}
use docintel.Rag.Gate.{Settings}
use docintel.Rag.Routing.{resolve_domain_filter}
use docintel.Rag.Engine.{Engine, Request, union_by_id}
use docintel.Rag.Stream.{candidates, embed, expand_query}

union_by_id-All :
    (P : Document → Type 0) (docs more : List Document)
    → All P docs
    → All P more
    → All P (union_by_id docs more)
unfolding union_by_id
union_by_id-All P docs [] h k = h
union_by_id-All P docs (d ∷ ds) h k = elim (Bool-cases (any (λ x. text_eq x.id d.id) docs)) [
  | inl seen ↦ rw seen (union_by_id-All P docs ds h k.1)
  | inr new ↦
      rw new (union_by_id-All P (docs ++ d ∷ []) ds (All-append P docs (d ∷ []) h (k.0, tt)) k.1)
]

All-In : (docs : List Document) → All (λ d. In d docs) docs
All-In [] = tt
All-In (d ∷ ds) = (inl refl, All-map (λ x among. inr among) ds (All-In ds))

pub All-both :
    (P Q : Document → Type 0) (ds : List Document) → All P ds → All Q ds → All (λ d. P d × Q d) ds
All-both P Q [] h k = tt
All-both P Q (d ∷ ds) h k = ((h.0, k.0), All-both P Q ds h.1 k.1)

module _ {V S : Type 0} (cfg : Settings) (e : Engine V S) (req : Request) where
  -- The embeddings of the question or of the expanded query.
  abbrev pub Embedded : V → Option S → Type 0
  Embedded v s =
      (embed cfg e req req.question ≡ some (v, s)) ⊎ (expand_query cfg e req ≡ some (v, s))

  -- The retriever returned the document for one of them, under the domain filter of the request.
  pub record Retrieved (d : Document) : Type 0 where
    dense : V
    sparse : Option S
    embedded : Embedded dense sparse
    documents : List Document
    mode : RetrievalMode
    answered :
        e.retrieve dense sparse (resolve_domain_filter req.document_type (e.route req.question)).1
        ≡ some (documents, mode)
    among : In d documents

  -- The document is a retrieved one, up to the score.
  pub record Found (d : Document) : Type 0 where
    pub original : Document
    pub retrieved : Retrieved original
    pub id : d.id ≡ original.id
    pub content : d.content ≡ original.content
    pub metadata : d.metadata ≡ original.metadata

  reply-Found :
      (v : V) (s : Option S) (docs : List Document) (mode : RetrievalMode)
      → Embedded v s
      → e.retrieve v s (resolve_domain_filter req.document_type (e.route req.question)).1
        ≡ some (docs, mode)
      → All Found docs
  reply-Found v s docs mode emb ans =
      All-map
        (λ d among. record {
          original = d;
          retrieved = record {
            dense = v;
            sparse = s;
            embedded = emb;
            documents = docs;
            mode = mode;
            answered = ans;
            among = among;
          };
          id = refl;
          content = refl;
          metadata = refl;
        })
        docs (All-In docs)

  -- All candidates of step 5, those of the expanded query included.
  pub candidates-Found :
      (v : V) (s : Option S) (docs : List Document) (mode : RetrievalMode)
      → embed cfg e req req.question ≡ some (v, s)
      → e.retrieve v s (resolve_domain_filter req.document_type (e.route req.question)).1
        ≡ some (docs, mode)
      → (o : Option (V × Option S)) → expand_query cfg e req ≡ o
      → All Found (
          candidates cfg e req
            (resolve_domain_filter req.document_type (e.route req.question)).1
            o
            docs)
  unfolding candidates
  candidates-Found v s docs mode emb ans none q = reply-Found v s docs mode (inl emb) ans
  candidates-Found v s docs mode emb ans (some (w, t)) q =
      let filter = (resolve_domain_filter req.document_type (e.route req.question)).1 in
      let here = reply-Found v s docs mode (inl emb) ans in
      let Kept = λ (o : Option (List Document × RetrievalMode)).
        All Found (elim o [ none ↦ docs | some (more, _) ↦ union_by_id docs more ]) in
      elim (Option-cases (e.retrieve w t filter)) [
        | inl raised ↦ subst Kept (sym raised) here
        | inr ((more, other), found) ↦
            subst Kept (sym found)
              (union_by_id-All Found docs more here (reply-Found w t more other (inr q) found))
      ]
