-- ===== src/Shared/Profiles/Examples.antt =====
-- Profiles at concrete rows.
use docintel.Shared.Profiles.Cache.{Resolver, invalidate, resolve_sync, resolve_sync-invalidate}
use docintel.Common.{◌≡◌, refl, none, some, [], ◌∷◌, codes, starts_with}
use docintel.Shared.Security.{lower}
use docintel.Shared.Profiles.{
  best_loop, match_pattern, is_wildcard, prefer, note_wildcard, longer, temperature, Row,
  best_match, resolve, infer_kind,
}
use docintel.Shared.Profiles.Choice.{Applies, best_match-Applies, resolve_tenant_first}

abbrev any_model : Row
any_model = record { model_pattern = codes "*"; kind = none; params = λ f. some 5 }

abbrev one_model : Row
one_model = record { model_pattern = codes "m"; kind = none; params = λ f. some 9 }

tenant_best : best_match (codes "m") (any_model ∷ []) (infer_kind (codes "m")) ≡ some any_model
unfolding best_match best_loop match_pattern is_wildcard starts_with lower prefer note_wildcard
    longer
tenant_best = refl

best_match-Applies_example : Applies (codes "m") (infer_kind (codes "m")) any_model
best_match-Applies_example =
    best_match-Applies (codes "m") (any_model ∷ []) (infer_kind (codes "m")) any_model tenant_best

resolve_tenant_first_example :
    resolve [] (codes "m") (one_model ∷ []) (any_model ∷ []) temperature ≡ some 5
resolve_tenant_first_example =
    resolve_tenant_first [] (codes "m") (one_model ∷ []) (any_model ∷ []) any_model temperature 5
      tenant_best refl

abbrev cached_once : Resolver
cached_once = record {
  cache =
      record { model_name = codes "m"; tenant_id = codes "t"; value = λ f. some 1; expires_at = 90 }
      ∷ [];
  platform = none;
}

resolve_sync-invalidate_example :
    (resolve_sync []
      (codes "m")
      (codes "t")
      (one_model ∷ [])
      []
      50
      (invalidate (some (codes "t")) cached_once)).0
    ≡ resolve [] (codes "m") (one_model ∷ []) []
resolve_sync-invalidate_example =
    resolve_sync-invalidate [] (codes "m") (codes "t") (one_model ∷ []) [] 50 cached_once
