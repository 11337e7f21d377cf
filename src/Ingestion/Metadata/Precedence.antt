-- ===== src/Ingestion/Metadata/Precedence.antt =====
-- Which entry of a chunk's metadata counts, where several sources name the same key.
use docintel.Common.{
  Option, none, some, List, [], ◌∷◌, Text, codes, Dict, lookup, lookup-insert, text_eq, All, ◌≡◌,
  refl, ap, ◌∙◌, if◌then◌else◌, true, false, Bool,
}
use docintel.Ingestion.Metadata.{
  Value, text, texts, update, label, to_meta, Ingested, own_meta, meta_override, Document, enrich,
}

-- The first of two answers that is one.
abbrev pub first_some : Option Value → Option Value → Option Value
first_some none o = o
first_some (some v) o = some v

first_some_if :
    (b : Bool) (v : Value) (m o : Option Value)
    → (if b then some v else first_some m o) ≡ first_some (if b then some v else m) o
first_some_if true v m o = refl
first_some_if false v m o = refl

-- An entry of the new dictionary counts before one of the old dictionary.
pub lookup-update :
    (k : Text) (old new : Dict Value)
    → lookup k (update old new) ≡ first_some (lookup k new) (lookup k old)
unfolding update lookup
lookup-update k old [] = refl
lookup-update k old ((j, v) ∷ new) =
    lookup-insert j k v (update old new)
    ∙ ap (λ o. if text_eq j k then some v else o) (lookup-update k old new)
    ∙ first_some_if (text_eq j k) v (lookup k new) (lookup k old)

-- What a key has in the metadata of a chunk.
override_lookup :
    (doc : Ingested) (domain k : Text) (old : Dict Value)
    → lookup k (update old (meta_override doc domain))
      ≡ first_some
          (first_some
            (lookup k (to_meta doc.acl))
            (first_some (lookup k doc.extra_meta) (lookup k (own_meta doc domain))))
          (lookup k old)
unfolding meta_override
override_lookup doc domain k old =
    lookup-update k old (meta_override doc domain)
    ∙ ap (λ o. first_some o (lookup k old))
        (lookup-update k (update (own_meta doc domain) doc.extra_meta) (to_meta doc.acl)
          ∙ ap (first_some (lookup k (to_meta doc.acl)))
              (lookup-update k (own_meta doc domain) doc.extra_meta))

-- The metadata of a chunk tells who may read it as the access list does, and it tells the tenant.
pub record Labelled (doc : Ingested) (chunk : Document) : Type 0 where
  pub classification :
      lookup (codes "classification") chunk.meta ≡ some (text (label doc.acl.classification))
  pub roles : lookup (codes "allowed_roles") chunk.meta ≡ some (texts doc.acl.allowed_roles)
  pub users : lookup (codes "allowed_users") chunk.meta ≡ some (texts doc.acl.allowed_users)
  pub tenant :
      lookup (codes "tenant_id") chunk.meta
      ≡ first_some (lookup (codes "tenant_id") doc.extra_meta) (some (text doc.tenant_id))

settled :
    (m o : Option Value) (v : Value) → first_some (first_some m (some v)) o ≡ first_some m (some v)
settled none o v = refl
settled (some w) o v = refl

-- Every chunk that the enricher passes on carries the classification, the roles and the users of the
-- document's access list, whatever the chunk and the event bring; its tenant is that of the event's
-- metadata if they name one, and else the document's.
pub enrich-Labelled :
    (doc : Ingested) (domain : Text) (chunks : List Document)
    → All (Labelled doc) (enrich (meta_override doc domain) chunks)
unfolding enrich to_meta lookup text_eq
enrich-Labelled doc domain [] = tt
enrich-Labelled doc domain (c ∷ chunks) = (
  record {
    classification = override_lookup doc domain (codes "classification") c.meta;
    roles = override_lookup doc domain (codes "allowed_roles") c.meta;
    users = override_lookup doc domain (codes "allowed_users") c.meta;
    tenant =
        override_lookup doc domain (codes "tenant_id") c.meta
        ∙ settled (lookup (codes "tenant_id") doc.extra_meta) _ (text doc.tenant_id);
  },
  enrich-Labelled doc domain chunks,
)
