-- ===== src/Ingestion/Shards/Pages.antt =====
-- What the parts of a shard's round do to the texts of the pages.
use native.Mathlib.Nat.{zero-add, add-zero, suc-add}
use docintel.Common.{
  ℕ, zero, suc, ◌+◌, not, some, List, [], ◌∷◌, ◌++◌, map, Text, strip, is_empty, length, keep, ◌≡◌,
  refl, sym, ap, ◌∙◌, arith, bind_some, some_eq, Bool-cases, if_true, if_false, inl, inr, Dict,
}
use docintel.Ingestion.Router.{PageProfile}
use docintel.Ingestion.Metadata.{Value, Document, enrich}
use docintel.Ingestion.Extraction.{Extractors, Extract, extract_page, extract_pages, shard_docs}
use docintel.Ingestion.Shards.{ChunkPayload}

-- The profiles of `count` pages from `page` on.
abbrev pub profiles : (ℕ → PageProfile) → ℕ → ℕ → List PageProfile
profiles profile page zero = []
profiles profile page (suc count) = profile page ∷ profiles profile (suc page) count

-- The texts of `count` pages from `page` on.
abbrev pub contents : (ℕ → Text) → ℕ → ℕ → List Text
contents content page zero = []
contents content page (suc count) = content page ∷ contents content (suc page) count

-- The texts that are not blank.
abbrev pub visible : List Text → List Text
visible ts = keep (λ t. not (is_empty (strip t))) ts

-- A chunk as a client sees it.
abbrev pub shown : ChunkPayload → Text × ℕ × Text
shown c = (c.chunk_id, c.chunk_index, c.content)

-- The chunks of some texts, with consecutive numbers.
abbrev pub numbered : (ℕ → Text) → ℕ → List Text → List (Text × ℕ × Text)
numbered id_of index [] = []
numbered id_of index (t ∷ ts) = (id_of index, index, t) ∷ numbered id_of (suc index) ts

suc_left : (a b : ℕ) → suc a + b ≡ a + suc b
suc_left a b = omega arith

pub contents-append :
    (content : ℕ → Text) (page m n : ℕ)
    → contents content page (m + n) ≡ contents content page m ++ contents content (page + m) n
contents-append content page zero n =
    ap (contents content page) (zero-add n) ∙ ap (λ k. contents content k n) (sym (add-zero page))
contents-append content page (suc m) n =
    ap (contents content page) (suc-add m n)
    ∙ ap (λ ts. content page ∷ ts)
        (contents-append content (suc page) m n
          ∙ ap (λ k. contents content (suc page) m ++ contents content k n) (suc_left page m))

pub visible-append : (xs ys : List Text) → visible (xs ++ ys) ≡ visible xs ++ visible ys
visible-append [] ys = refl
visible-append (x ∷ xs) ys = elim (Bool-cases (not (is_empty (strip x)))) [
  | inl e ↦
      if_true _ _ _ e
      ∙ ap (λ ts. x ∷ ts) (visible-append xs ys)
      ∙ sym (ap (λ ts. ts ++ visible ys) (if_true _ _ _ e))
  | inr e ↦
      if_false _ _ _ e ∙ visible-append xs ys ∙ sym (ap (λ ts. ts ++ visible ys) (if_false _ _ _ e))
]

pub numbered-append :
    (id_of : ℕ → Text) (index : ℕ) (xs ys : List Text)
    → numbered id_of index (xs ++ ys)
      ≡ numbered id_of index xs ++ numbered id_of (index + length xs) ys
numbered-append id_of index [] ys = ap (λ k. numbered id_of k ys) (sym (add-zero index))
numbered-append id_of index (x ∷ xs) ys =
    ap (λ r. (id_of index, index, x) ∷ r)
      (numbered-append id_of (suc index) xs ys
        ∙ ap (λ k. numbered id_of (suc index) xs ++ numbered id_of k ys)
            (suc_left index (length xs)))

-- The router reads these texts of the pages, each by the path of its profile, if the extraction
-- yields one.
abbrev pub Yields : Extractors → (ℕ → Text) → (ℕ → PageProfile) → Type 0
Yields x content profile =
    (i : ℕ) (e : Extract) → extract_page x (profile i) ≡ some e → e.content ≡ content i

pub extract_pages-contents :
    (x : Extractors) (content : ℕ → Text) (profile : ℕ → PageProfile)
    → Yields x content profile
    → (page count : ℕ) (es : List Extract) → extract_pages x (profiles profile page count) ≡ some es
    → map (λ (e : Extract). e.content) es ≡ contents content page count
unfolding extract_pages
extract_pages-contents x content profile h page zero es e =
    ap (map (λ (e : Extract). e.content)) (sym (some_eq e))
extract_pages-contents x content profile h page (suc count) es e =
    let (d, first, next) = bind_some (extract_page x (profile page)) _ es e in
    let (ds, later, last) =
      bind_some (extract_pages x (profiles profile (suc page) count)) _ es next in
    ap (map (λ (e : Extract). e.content)) (sym (some_eq last))
    ∙ ap (λ t. t ∷ map (λ (e : Extract). e.content) ds) (h page d first)
    ∙ ap (λ ts. content page ∷ ts)
        (extract_pages-contents x content profile h (suc page) count ds later)

pub shard_docs-visible :
    (split_id : ℕ) (es : List Extract)
    → map (λ (d : Document). d.content) (shard_docs split_id es)
      ≡ visible (map (λ (e : Extract). e.content) es)
unfolding shard_docs
shard_docs-visible split_id [] = refl
shard_docs-visible split_id (e ∷ es) = elim (Bool-cases (is_empty (strip e.content))) [
  | inl h ↦
      ap (map (λ (d : Document). d.content)) (if_true _ _ _ h)
      ∙ shard_docs-visible split_id es
      ∙ sym (if_false _ _ _ (ap not h))
  | inr h ↦
      ap (map (λ (d : Document). d.content)) (if_false _ _ _ h)
      ∙ ap (λ ts. e.content ∷ ts) (shard_docs-visible (suc split_id) es)
      ∙ sym (if_true _ _ _ (ap not h))
]

pub enrich-content :
    (override : Dict Value) (ds : List Document)
    → map (λ (d : Document). d.content) (enrich override ds) ≡ map (λ (d : Document). d.content) ds
unfolding enrich
enrich-content override [] = refl
enrich-content override (d ∷ ds) = ap (λ ts. d.content ∷ ts) (enrich-content override ds)
