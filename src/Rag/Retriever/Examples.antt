-- ===== src/Rag/Retriever/Examples.antt =====
-- A store and a cache that do as the laws say, and runs with them.
use docintel.Common.{
  ℕ, zero, suc, Bool, true, none, some, [], ◌∷◌, Text, codes, lookup, insert, lookup-insert, any,
  drop, ◌≡◌, refl, ap, inr, Lacks, All, ◌&&◌,
}
use docintel.Shared.Security.{default_acl}
use docintel.Ingestion.Metadata.{text, texts, Document, Ingested, enrich, meta_override}
use docintel.Rag.Retriever.{
  Test, is_null, is_empty_field, match_any, match_value, build_acl_filter, get_tenant_retrievers,
  calls,
}
use docintel.Rag.Retriever.Filter.{
  Store, is_missing, is_unset, has_value, accepts, in_domain, may_read, build_acl_filter_lem,
  enrich_open,
}
use docintel.Rag.Retriever.Isolation.{Numerals, Puts, own, get_tenant_retrievers-own}

-- The key behind `meta.`.
abbrev holds_of : Test → Document → Bool
holds_of (is_null k) d = is_missing (lookup (drop 5 k) d.meta)
holds_of (is_empty_field k) d = is_unset (lookup (drop 5 k) d.meta)
holds_of (match_any k ts) d = any (λ t. has_value t (lookup (drop 5 k) d.meta)) ts
holds_of (match_value k t) d = has_value t (lookup (drop 5 k) d.meta)

small-Store : Store holds_of
small-Store = record {
  null_law = λ k d. refl;
  empty_law = λ k d. refl;
  any_law = λ k ts d. refl;
  value_law = λ k t d. refl;
}

abbrev payroll : Document
payroll = record {
  id = codes "c1";
  content = codes "salaries";
  meta =
      (codes "document_type", text (codes "hr"))
      ∷ (codes "allowed_roles", texts (codes "hr" ∷ []))
      ∷ [];
}

build_acl_filter_lem_example :
    accepts holds_of
      (build_acl_filter
        (some (codes "hr" ∷ []))
        (some (codes "u1"))
        (some (codes "document_type", codes "hr")))
      payroll
    ≡ (in_domain (some (codes "document_type", codes "hr")) payroll
        && may_read (some (codes "hr" ∷ [])) (some (codes "u1")) payroll)
build_acl_filter_lem_example =
    build_acl_filter_lem holds_of small-Store (some (codes "hr" ∷ [])) (some (codes "u1"))
      (some (codes "document_type", codes "hr")) payroll

-- The event names a role; the worker passes the default access list.
abbrev uploaded : Ingested
uploaded = record {
  tenant_id = codes "acme";
  document_id = codes "d1";
  filename = codes "payroll.pdf";
  extra_meta = (codes "allowed_roles", texts (codes "hr" ∷ [])) ∷ [];
  acl = default_acl;
}

enrich_open_example :
    All
      (λ d. accepts holds_of (build_acl_filter none (some (codes "guest")) none) d ≡ true)
      (enrich (meta_override uploaded (codes "hr")) (payroll ∷ []))
enrich_open_example =
    enrich_open holds_of small-Store uploaded (codes "hr") (payroll ∷ []) refl none
      (some (codes "guest"))

-- A number as so many strokes.
abbrev strokes : ℕ → Text
strokes zero = []
strokes (suc n) = b'1' ∷ strokes n

strokes-Numerals : Numerals strokes
strokes-Numerals = record { plain = plain; same = same }
  where
    plain : (n : ℕ) → Lacks b':' (strokes n)
    plain zero = tt
    plain (suc n) = (refl, plain n)

    same : (m n : ℕ) → strokes m ≡ strokes n → m ≡ n
    same zero zero e = refl
    same zero (suc n) e = cc e
    same (suc m) zero e = cc e
    same (suc m) (suc n) e = ap suc (same m n (ap (drop 1) e))

insert-Puts : Puts insert
insert-Puts k j r cache = inr (lookup-insert k j r cache)

get_tenant_retrievers-own_example :
    (get_tenant_retrievers strokes insert
      (codes "b")
      5
      (calls strokes insert ((codes "a", 5) ∷ (codes "b", 5) ∷ []) [])).0
    ≡ own strokes insert (codes "b") 5
get_tenant_retrievers-own_example =
    get_tenant_retrievers-own strokes insert strokes-Numerals insert-Puts
      ((codes "a", 5) ∷ (codes "b", 5) ∷ []) (codes "b") 5
