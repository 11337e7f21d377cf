-- ===== src/Rag/Retriever/Filter.antt =====
-- Whom the filter of `_build_acl_filter` lets read a chunk.
use docintel.Common.{
  All-map, Bool, true, false, ◌&&◌, ◌||◌, Option, none, some, List, [], ◌∷◌, ◌++◌, Text, codes,
  lookup, is_empty, any, text_eq, All, ◌≡◌, refl, ap, ◌∙◌,
}
use docintel.Ingestion.Metadata.{
  Value, text, number, texts, missing, other, Document, Ingested, enrich, meta_override,
}
use docintel.Ingestion.Metadata.Precedence.{enrich-Labelled}
use docintel.Rag.Retriever.{
  Test, is_null, is_empty_field, match_any, match_value, Condition, test, should, domain_conditions,
  role_tests, user_tests, build_acl_filter,
}

-- A field without a value: it is missing, null or an empty list.
abbrev pub is_unset : Option Value → Bool
is_unset none = true
is_unset (some missing) = true
is_unset (some (texts ts)) = is_empty ts
is_unset (some v) = false

abbrev pub is_missing : Option Value → Bool
is_missing (some missing) = true
is_missing o = false

-- A field that is a text, or a list that has it.
abbrev pub has_value : Text → Option Value → Bool
has_value t (some (text s)) = text_eq s t
has_value t (some (texts ts)) = any (λ s. text_eq s t) ts
has_value t o = false

abbrev pub all_of : List Bool → Bool
all_of [] = true
all_of (b ∷ bs) = b && all_of bs

module _ (holds : Test → Document → Bool) where
  -- What the vector store documents of its conditions, for the fields of the metadata.
  pub record Store : Type 0 where
    pub null_law :
        (k : Text) (d : Document)
        → holds (is_null (codes "meta." ++ k)) d ≡ is_missing (lookup k d.meta)
    pub empty_law :
        (k : Text) (d : Document)
        → holds (is_empty_field (codes "meta." ++ k)) d ≡ is_unset (lookup k d.meta)
    pub any_law :
        (k : Text) (ts : List Text) (d : Document)
        → holds (match_any (codes "meta." ++ k) ts) d ≡ any (λ t. has_value t (lookup k d.meta)) ts
    pub value_law :
        (k t : Text) (d : Document)
        → holds (match_value (codes "meta." ++ k) t) d ≡ has_value t (lookup k d.meta)

  -- A nested filter with `should` needs one of its tests.
  abbrev pub meets : Document → Condition → Bool
  meets d (test t) = holds t d
  meets d (should ts) = any (λ t. holds t d) ts

  -- All conditions of `must` are met.
  abbrev pub accepts : List Condition → Document → Bool
  accepts [] d = true
  accepts (c ∷ cs) d = meets d c && accepts cs d

-- The chunk's domain is the one that is asked for.
abbrev pub in_domain : Option (Text × Text) → Document → Bool
in_domain none d = true
in_domain (some (key, value)) d = has_value value (lookup key d.meta)

abbrev pub names_role : Option (List Text) → Option Value → Bool
names_role none field = false
names_role (some roles) field = any (λ r. has_value r field) roles

abbrev pub names_user : Option Text → Option Value → Bool
names_user none field = false
names_user (some []) field = false
names_user (some (c ∷ u)) field = has_value (c ∷ u) field

-- The chunk has no roles, or one of the caller's, or it names the caller.
abbrev pub may_read : Option (List Text) → Option Text → Document → Bool
may_read roles user d =
    is_unset (lookup (codes "allowed_roles") d.meta)
    || (names_role roles (lookup (codes "allowed_roles") d.meta)
        || names_user user (lookup (codes "allowed_users") d.meta))

-- The nested filter of the access list.
abbrev acl_condition : Option (List Text) → Option Text → Condition
acl_condition roles user = should (
    is_null (codes "meta.allowed_roles")
      ∷ is_empty_field (codes "meta.allowed_roles")
      ∷ role_tests roles
    ++ user_tests user)

opens : (o : Option Value) (b : Bool) → o ≡ some (texts []) → (is_unset o || b) ≡ true
opens o b e = ap (λ x. is_unset x || b) e

module _ (holds : Test → Document → Bool) (store : Store holds) where
  role_tests_lem :
      (roles : Option (List Text)) (d : Document) (rest : List Test)
      → any (λ t. holds t d) (role_tests roles ++ rest)
        ≡ (names_role roles (lookup (codes "allowed_roles") d.meta) || any (λ t. holds t d) rest)
  unfolding role_tests
  role_tests_lem none d rest = refl
  role_tests_lem (some []) d rest = refl
  role_tests_lem (some (r ∷ rs)) d rest =
      ap (λ b. b || any (λ t. holds t d) rest) (store.any_law (codes "allowed_roles") (r ∷ rs) d)

  user_tests_lem :
      (user : Option Text) (d : Document)
      → any (λ t. holds t d) (user_tests user)
        ≡ names_user user (lookup (codes "allowed_users") d.meta)
  unfolding user_tests
  user_tests_lem none d = refl
  user_tests_lem (some []) d = refl
  user_tests_lem (some (c ∷ u)) d = or_false _ ∙ store.value_law (codes "allowed_users") (c ∷ u) d
    where
      or_false : (b : Bool) → (b || false) ≡ b
      or_false true = refl
      or_false false = refl

  null_or_unset :
      (o : Option Value) (b : Bool) → (is_missing o || (is_unset o || b)) ≡ (is_unset o || b)
  null_or_unset none b = refl
  null_or_unset (some (text t)) b = refl
  null_or_unset (some (number n)) b = refl
  null_or_unset (some (texts ts)) b = refl
  null_or_unset (some missing) b = refl
  null_or_unset (some (other t)) b = refl

  acl_lem :
      (roles : Option (List Text)) (user : Option Text) (d : Document)
      → meets holds d (acl_condition roles user) ≡ may_read roles user d
  acl_lem roles user d =
      ap
        (λ b.
          b
          || (holds (is_empty_field (codes "meta.allowed_roles")) d
              || any (λ t. holds t d) (role_tests roles ++ user_tests user)))
        (store.null_law (codes "allowed_roles") d)
      ∙ ap
          (λ b.
            is_missing (lookup (codes "allowed_roles") d.meta)
            || (b || any (λ t. holds t d) (role_tests roles ++ user_tests user)))
          (store.empty_law (codes "allowed_roles") d)
      ∙ null_or_unset (lookup (codes "allowed_roles") d.meta) _
      ∙ ap (λ b. is_unset (lookup (codes "allowed_roles") d.meta) || b)
          (role_tests_lem roles d (user_tests user)
            ∙ ap (λ b. names_role roles (lookup (codes "allowed_roles") d.meta) || b)
                (user_tests_lem user d))

  and_true : (b : Bool) → (b && true) ≡ b
  and_true true = refl
  and_true false = refl

-- The filter accepts a chunk just where the chunk is of the domain that is asked for, if one is, and
-- its list of roles is missing, null or empty, or has a role of the caller, or its list of users has the
-- caller.
pub build_acl_filter_lem :
    (holds : Test → Document → Bool)
    → Store holds
    → (roles : Option (List Text)) (user : Option Text) (domain : Option (Text × Text))
    → (d : Document)
    → accepts holds (build_acl_filter roles user domain) d
      ≡ (in_domain domain d && may_read roles user d)
unfolding build_acl_filter domain_conditions
build_acl_filter_lem holds store roles user none d =
    and_true holds store _ ∙ acl_lem holds store roles user d
build_acl_filter_lem holds store roles user (some (key, value)) d =
    ap (λ b. b && (meets holds d (acl_condition roles user) && true)) (store.value_law key value d)
    ∙ ap (λ b. has_value value (lookup key d.meta) && b)
        (and_true holds store _ ∙ acl_lem holds store roles user d)

-- The chunks of a document whose access list names no role are accepted for every caller who asks
-- for no domain, also where the list names users, or where the event's metadata name roles.
pub enrich_open :
    (holds : Test → Document → Bool)
    → Store holds
    → (doc : Ingested) (domain : Text) (chunks : List Document) → doc.acl.allowed_roles ≡ []
    → (roles : Option (List Text)) (user : Option Text)
    → All
        (λ d. accepts holds (build_acl_filter roles user none) d ≡ true)
        (enrich (meta_override doc domain) chunks)
enrich_open holds store doc domain chunks h roles user =
    All-map
      (λ d l.
        build_acl_filter_lem holds store roles user none d
        ∙ opens _ _ (l.roles ∙ ap (λ ts. some (texts ts)) h))
      _ (enrich-Labelled doc domain chunks)
