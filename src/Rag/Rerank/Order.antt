-- ===== src/Rag/Rerank/Order.antt =====
-- What the reranker client returns: copies of the given documents in descending order of their
-- new scores, or the given documents in their own order.
use docintel.Common.{
  subst, some_eq, ℕ, zero, suc, ◌≤◌, ◌≡◌, refl, ◌⊎◌, true, false, inl, inr, Bool-cases,
  Option-cases, Option, none, some, List, [], ◌∷◌, codes, text_eq, take, leb, leb→le, All, All-map,
  All-take, arith,
}
use docintel.Rag.Types.{Document, score_of}
use docintel.Rag.Rerank.{
  Ranked, RerankReply, transport_error, http_error, not_json, body, RerankResult, Reason, degraded,
  document_at, score_results, insert_desc, sort_desc, effective_top_k, handle_reply, rerank,
}

-- Scores do not rise along the list.
abbrev pub Below : ℕ → List Document → Type 0
Below n ds = All (λ e. score_of e ≤ n) ds

abbrev pub IsDescending : List Document → Type 0
IsDescending [] = Unit
IsDescending (d ∷ ds) = Below (score_of d) ds × IsDescending ds

insert_desc-All :
    (P : Document → Type 0) (d : Document) (ds : List Document)
    → P d
    → All P ds
    → All P (insert_desc d ds)
unfolding insert_desc
insert_desc-All P d [] h hs = (h, tt)
insert_desc-All P d (e ∷ es) h hs = elim (Bool-cases (leb (score_of e) (score_of d))) [
  | inl t ↦ rw t (h, hs)
  | inr f ↦ rw f (hs.0, insert_desc-All P d es h hs.1)
]

insert_desc-IsDescending :
    (d : Document) (ds : List Document) → IsDescending ds → IsDescending (insert_desc d ds)
unfolding insert_desc
insert_desc-IsDescending d [] h = (tt, tt)
insert_desc-IsDescending d (e ∷ es) h = elim (Bool-cases (leb (score_of e) (score_of d))) [
  | inl t ↦
      let le = leb→le (score_of e) (score_of d) t in
      rw t ((le, All-map (λ x b. omega arith) es h.0), h)
  | inr f ↦ rw f (
    insert_desc-All (λ x. score_of x ≤ score_of e) d es (ground arith) h.0,
    insert_desc-IsDescending d es h.1,
  )
]

sort_desc-IsDescending : (ds : List Document) → IsDescending (sort_desc ds)
unfolding sort_desc
sort_desc-IsDescending [] = tt
sort_desc-IsDescending (d ∷ ds) =
    insert_desc-IsDescending d (sort_desc ds) (sort_desc-IsDescending ds)

sort_desc-All : (P : Document → Type 0) (ds : List Document) → All P ds → All P (sort_desc ds)
unfolding sort_desc
sort_desc-All P [] h = tt
sort_desc-All P (d ∷ ds) h = insert_desc-All P d (sort_desc ds) h.0 (sort_desc-All P ds h.1)

-- A property of documents that does not look at their score.
abbrev pub IgnoresScore : (Document → Type 0) → Type 0
IgnoresScore P = (d : Document) (s : Option ℕ) → P d → P (record d { score = s })

document_at-All :
    (P : Document → Type 0) (ds : List Document) (i : ℕ) (d : Document)
    → All P ds
    → document_at ds i ≡ some d
    → P d
unfolding document_at
document_at-All P [] i d h e = cc
document_at-All P (x ∷ ds) zero d h e = subst P (some_eq e) h.0
document_at-All P (x ∷ ds) (suc i) d h e = document_at-All P ds i d h.1 e

score_results-All :
    (P : Document → Type 0)
    → IgnoresScore P
    → (ds : List Document) (rs : List Ranked) (out : List Document) → All P ds
    → score_results ds rs ≡ some out
    → All P out
unfolding score_results
score_results-All P ig ds [] out h e = subst (All P) (some_eq e) tt
score_results-All P ig ds ((i, s) ∷ rs) out h e = elim (Option-cases (document_at ds i)) [
  | inl missing ↦ cc (rw (score_results, missing) at e)
  | inr (d, found) ↦ elim (Option-cases (score_results ds rs)) [
    | inl failed ↦ cc (rw (score_results, found, failed) at e)
    | inr (rest, more) ↦
        let e' = rw (score_results, found, more) at e in
        subst (All P) (some_eq e') (
          ig d (some s) (document_at-All P ds i d h found),
          score_results-All P ig ds rs rest h more,
        )
  ]
]

-- How a call of the reranker that returns ends: scored and in descending order, or degraded and
-- in retrieval order, cut at `k`.
abbrev pub Ends : List Document → ℕ → RerankResult → Type 0
Ends docs k r =
    ((r.reranker_degraded ≡ false) × IsDescending r.documents)
    ⊎ ((r.reranker_degraded ≡ true) × (r.documents ≡ take k docs))

module _ (P : Document → Type 0) (ig : IgnoresScore P) (ds : List Document) (k : ℕ)
    (h : All P ds) where
  abbrev Good : RerankResult → Type 0
  Good r = All P r.documents × Ends ds k r

  degraded-Good : (reason : Reason) → Good (degraded ds k reason)
  unfolding degraded
  degraded-Good reason = (All-take P k ds h, inr (refl, refl))

  handle_reply-Good :
      (reply : RerankReply) (r : RerankResult) → handle_reply ds k reply ≡ some r → Good r
  unfolding handle_reply
  handle_reply-Good transport_error r e = subst Good (some_eq e) (degraded-Good _)
  handle_reply-Good (http_error status code) r e = subst Good (some_eq e) (degraded-Good _)
  handle_reply-Good not_json r e = cc
  handle_reply-Good (body none rs) r e = subst Good (some_eq e) (degraded-Good _)
  handle_reply-Good (body (some t) rs) r e = elim (Bool-cases (text_eq t (codes "probability"))) [
    | inr other ↦ subst Good (some_eq (rw (handle_reply, other) at e)) (degraded-Good _)
    | inl declared ↦ elim (Option-cases (score_results ds rs)) [
      | inl failed ↦ cc (rw (handle_reply, declared, failed) at e)
      | inr (scored, ok) ↦ subst Good (some_eq (rw (handle_reply, declared, ok) at e)) (
        sort_desc-All P scored (score_results-All P ig ds rs scored h ok),
        inl (refl, sort_desc-IsDescending scored),
      )
    ]
  ]

-- If the reranker call returns, then every document that it returns has each property of the
-- given documents that does not depend on the score; and either the call is not degraded and the
-- scores do not rise along the list, or it is degraded and the documents are the first given ones
-- in their own order, so that no document is invented and a failure reorders nothing.
pub rerank-Ends :
    (P : Document → Type 0)
    → IgnoresScore P
    → (default : ℕ) (ds : List Document) (top_k : Option ℕ) (post : ℕ → RerankReply)
    → (r : RerankResult) → All P ds
    → rerank default ds top_k post ≡ some r
    → All P r.documents × Ends ds (effective_top_k top_k default) r
unfolding rerank
rerank-Ends P ig default [] top_k post r h e =
    subst (λ r. All P r.documents × Ends [] (effective_top_k top_k default) r) (some_eq e)
      (tt, inl (refl, tt))
rerank-Ends P ig default (d ∷ ds) top_k post r h e =
    handle_reply-Good P ig (d ∷ ds) (effective_top_k top_k default) h _ r e
