-- ===== src/Ingestion/Metadata/Examples.antt =====
-- A run of the enricher on a document whose event names roles.
use docintel.Common.{refl, ◌≡◌, lookup, text_eq, insert, some, codes, [], ◌∷◌}
use docintel.Shared.Security.{default_acl}
use docintel.Ingestion.Metadata.{meta_override, update, to_meta, texts, Ingested}

abbrev handbook : Ingested
handbook = record {
  tenant_id = codes "acme";
  document_id = codes "d1";
  filename = codes "handbook.pdf";
  extra_meta = (codes "allowed_roles", texts (codes "hr" ∷ [])) ∷ [];
  acl = default_acl;
}

-- The default access list replaces the roles that the event names.
roles_replaced :
    lookup (codes "allowed_roles") (meta_override handbook (codes "general")) ≡ some (texts [])
unfolding lookup text_eq meta_override update insert to_meta
roles_replaced = refl
