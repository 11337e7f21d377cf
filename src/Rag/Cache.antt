-- ===== src/Rag/Cache.antt =====
-- services/rag-service/src/components/cache.py: the semantic response cache. The vector search
-- itself is an argument; what the checker asks of it and does with its points is modelled.
pub mod Access
mod Examples
use docintel.Common.{
  ℕ, Bool, true, false, ◌&&◌, ◌||◌, Option, none, some, List, [], ◌∷◌, Text, any, keep, is_empty,
  text_eq, leb, take, if◌then◌else◌,
}
use docintel.Shared.Security.{
  Classification, internal, classification_order, parse_classification, UserContext,
}
use docintel.Rag.Types.{Source}

-- The payload of a point of the collection.
pub record CachePoint : Type 0 where
  pub response : Text
  pub sources : List Source
  pub tenant_id : Text
  pub max_classification_level : ℕ
  pub required_roles : List Text

-- `user_roles & set(required_roles)` is not empty.
pub shares_role : List Text → List Text → Bool
shares_role roles required = any (λ r. any (λ q. text_eq r q) required) roles

unfoldable pub clearance_level : Option UserContext → ℕ
clearance_level none = classification_order internal
clearance_level (some u) = classification_order u.clearance

pub roles_of : Option UserContext → List Text
roles_of none = []
roles_of (some u) = u.roles

-- The `must` filter of the query: tenant and clearance.
pub matches_filter : Text → ℕ → CachePoint → Bool
matches_filter tenant level p = text_eq p.tenant_id tenant && leb p.max_classification_level level

-- `query_points` with the nearest points above the threshold, best first: the filter, and the
-- limit of 5.
pub query_points : List CachePoint → Text → ℕ → List CachePoint
query_points near tenant level = take 5 (keep (matches_filter tenant level) near)

-- The loop over the points.
pub first_readable : List Text → List CachePoint → Option CachePoint
first_readable roles [] = none
first_readable roles (p ∷ ps) =
    let later = first_readable roles ps in
    if is_empty p.required_roles || shares_role roles p.required_roles then some p else later

-- `SemanticCacheChecker.run`: the point of a cache hit.
pub check : List CachePoint → Text → Option UserContext → Option CachePoint
check near tenant user =
    first_readable (roles_of user) (query_points near tenant (clearance_level user))

-- `SemanticCacheWriter.run`: an unknown classification counts as `internal`.
unfoldable pub write_level : Text → ℕ
write_level name =
    classification_order (elim (parse_classification name) [ some c ↦ c | none ↦ internal ])

unfoldable pub write_point : Text → List Source → Text → Text → List Text → CachePoint
write_point response sources tenant max_classification required_roles = record {
  response = response;
  sources = sources;
  tenant_id = tenant;
  max_classification_level = write_level max_classification;
  required_roles = required_roles;
}
