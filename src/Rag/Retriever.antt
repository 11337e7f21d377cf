-- ===== src/Rag/Retriever.antt =====
-- services/rag-service/src/components/retrieval.py: `SecureRetriever`, and its retrievers per tenant.
pub mod Filter
pub mod Isolation
mod Examples
use docintel.Common.{
  ℕ, Bool, Option, none, some, List, [], ◌∷◌, ◌++◌, Text, codes, Dict, lookup, is_empty,
  if◌then◌else◌,
}

-- The conditions of the vector store that the code uses, on a field.
pub data Test : Type 0 where
  is_null is_empty_field : Text → Test
  match_any : Text → List Text → Test
  match_value : Text → Text → Test

-- A condition of `must`: a test, or a filter of its own with `should`.
pub data Condition : Type 0 where
  test : Test → Condition
  should : List Test → Condition

-- `domain_filter`: the key, and the value that it has to match.
unfoldable pub domain_conditions : Option (Text × Text) → List Condition
domain_conditions none = []
domain_conditions (some (key, value)) = test (match_value (codes "meta." ++ key) value) ∷ []

unfoldable pub role_tests : Option (List Text) → List Test
role_tests none = []
role_tests (some []) = []
role_tests (some (r ∷ rs)) = match_any (codes "meta.allowed_roles") (r ∷ rs) ∷ []

unfoldable pub user_tests : Option Text → List Test
user_tests none = []
user_tests (some []) = []
user_tests (some (c ∷ u)) = match_value (codes "meta.allowed_users") (c ∷ u) ∷ []

-- The conditions that must hold.
unfoldable pub build_acl_filter :
    Option (List Text) → Option Text → Option (Text × Text) → List Condition
build_acl_filter user_roles user_id domain_filter =
    let acl_should =
      is_null (codes "meta.allowed_roles")
        ∷ is_empty_field (codes "meta.allowed_roles")
        ∷ role_tests user_roles
      ++ user_tests user_id in
    domain_conditions domain_filter ++ should acl_should ∷ []

-- The retrievers of a tenant: the collection that they search, and how many documents they return.
pub record Retrievers : Type 0 where
  pub collection : Text
  pub top_k : ℕ

abbrev pub collection_of : Text → Text
collection_of tenant_id = codes "documents_" ++ tenant_id

-- `str` is Python's text of a number, and `put` is the assignment in the cache, which may evict
-- other entries.
module _ (str : ℕ → Text) (put : Text → Retrievers → Dict Retrievers → Dict Retrievers) where
  unfoldable pub cache_key : Text → ℕ → Text
  cache_key tenant_id top_k = tenant_id ++ (codes ":" ++ str top_k)

  -- `_get_tenant_retrievers`: the retrievers, and the cache behind the call.
  unfoldable pub get_tenant_retrievers : Text → ℕ → Dict Retrievers → Retrievers × Dict Retrievers
  get_tenant_retrievers tenant_id top_k cache = elim (lookup (cache_key tenant_id top_k) cache) [
    | some r ↦ (r, cache)
    | none ↦
        let made : Retrievers = record { collection = collection_of tenant_id; top_k = top_k } in
        (made, put (cache_key tenant_id top_k) made cache)
  ]

  -- The cache behind some calls.
  unfoldable pub calls : List (Text × ℕ) → Dict Retrievers → Dict Retrievers
  calls [] cache = cache
  calls ((tenant_id, top_k) ∷ rest) cache =
      calls rest (get_tenant_retrievers tenant_id top_k cache).1

-- `use_hybrid` of `run`: the query's sparse embedding, where the setting is on.
pub data Mode : Type 0 where
  hybrid dense : Mode

module _ {D V S : Type 0} (hybrid_run : Retrievers → V → S → List Condition → D)
    (dense_run : Retrievers → V → List Condition → D) where
  unfoldable pub search : Bool → Retrievers → V → Option S → List Condition → D × Mode
  search use_hybrid r embedding none filters = (dense_run r embedding filters, dense)
  search use_hybrid r embedding (some sparse) filters =
      if use_hybrid
      then (hybrid_run r embedding sparse filters, hybrid)
      else (dense_run r embedding filters, dense)
