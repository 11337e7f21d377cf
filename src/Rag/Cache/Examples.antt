-- ===== src/Rag/Cache/Examples.antt =====
-- A cache hit.
use docintel.Common.{◌≡◌, refl, some, [], ◌∷◌, codes, text_eq}
use docintel.Shared.Security.{classification_order}
use docintel.Rag.Demo.{demo_user}
use docintel.Rag.Cache.Access.{Readable, check-Readable}
use docintel.Rag.Cache.{
  CachePoint, check, first_readable, query_points, matches_filter, clearance_level, shares_role,
  roles_of,
}

abbrev open_point : CachePoint
open_point = record {
  response = codes "Yes.";
  sources = [];
  tenant_id = codes "t1";
  max_classification_level = 1;
  required_roles = codes "reader" ∷ [];
}

check_hits : check (open_point ∷ []) (codes "t1") (some demo_user) ≡ some open_point
unfolding check first_readable query_points matches_filter clearance_level shares_role roles_of
    classification_order text_eq
check_hits = refl

check-Readable_example : Readable (codes "t1") (some demo_user) open_point
check-Readable_example =
    check-Readable (open_point ∷ []) (codes "t1") (some demo_user) open_point check_hits
