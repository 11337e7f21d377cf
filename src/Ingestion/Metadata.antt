-- ===== src/Ingestion/Metadata.antt =====
-- services/ingestion-service/src/pipeline.py: the metadata of a document's chunks (`meta_override`,
-- `MetadataEnricher`, `_build_chunk_payload`), with `DocumentACL.to_meta` of
-- lib/docintel-common/docintel_common/security.py.
pub mod Precedence
mod Examples
use docintel.Common.{
  ℕ, Option, none, some, Bool, List, [], ◌∷◌, Text, codes, Dict, insert, lookup, ◌+◌, suc, max,
  length, if◌then◌else◌, is_space, is_empty, not, ltb, take,
}
use docintel.Shared.Security.{
  DocumentAcl, Classification, public, internal, confidential, restricted,
}

-- A value of a metadata dictionary; `other` is a value that the event brought, as JSON.
pub data Value : Type 0 where
  text : Text → Value
  number : ℕ → Value
  texts : List Text → Value
  missing : Value
  other : Text → Value

-- `{**old, **new}`; the keys of a dictionary differ, so the order of the inserts decides nothing but
-- the order of the entries.
unfoldable pub update : Dict Value → Dict Value → Dict Value
update old [] = old
update old ((k, v) ∷ new) = insert k v (update old new)

-- `self.classification.value`.
unfoldable pub label : Classification → Text
label public = codes "public"
label internal = codes "internal"
label confidential = codes "confidential"
label restricted = codes "restricted"

unfoldable pub text_or_missing : Option Text → Value
text_or_missing none = missing
text_or_missing (some t) = text t

unfoldable pub to_meta : DocumentAcl → Dict Value
to_meta acl =
    (codes "classification", text (label acl.classification))
    ∷ (codes "allowed_roles", texts acl.allowed_roles)
    ∷ (codes "allowed_users", texts acl.allowed_users)
    ∷ (codes "department", text_or_missing acl.department)
    ∷ (codes "region", text acl.region)
    ∷ (codes "expires_at", text_or_missing acl.expires_at)
    ∷ []

-- What is known of a document before its text is read.
pub record Ingested : Type 0 where
  pub tenant_id : Text
  pub document_id : Text
  pub filename : Text
  pub extra_meta : Dict Value
  pub acl : DocumentAcl

abbrev pub own_meta : Ingested → Text → Dict Value
own_meta doc domain =
    (codes "tenant_id", text doc.tenant_id)
    ∷ (codes "document_id", text doc.document_id)
    ∷ (codes "filename", text doc.filename)
    ∷ (codes "domain", text domain)
    ∷ (codes "document_type", text domain)
    ∷ []

unfoldable pub meta_override : Ingested → Text → Dict Value
meta_override doc domain = update (update (own_meta doc domain) doc.extra_meta) (to_meta doc.acl)

-- A Haystack document.
pub record Document : Type 0 where
  pub id : Text
  pub content : Text
  pub meta : Dict Value

-- `MetadataEnricher.run`.
unfoldable pub enrich : Dict Value → List Document → List Document
enrich override [] = []
enrich override (doc ∷ docs) = record doc { meta = update doc.meta override } ∷ enrich override docs

-- `len(text.split())`, behind a character that is in a word or not.
unfoldable pub word_count : Bool → Text → ℕ
word_count in_word [] = 0
word_count in_word (c ∷ s) =
    let rest = word_count (not (is_space c)) s in
    if is_space c then rest else if in_word then rest else suc rest
