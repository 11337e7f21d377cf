-- ===== src/Rag/Cache/Access.antt =====
-- Who gets a cached response.
use docintel.Common.{
  refl, le→leb, ◌≤◌, ◌≡◌, ◌⊎◌, inl, inr, Bool-cases, true, Option, some, List, [], ◌∷◌, Text,
  text_eq, text_eq_iff, is_empty, leb→le, leb, All, All-take, All-map, keep_holds, and_parts,
  some_eq, subst,
}
use docintel.Shared.Security.{UserContext}
use docintel.Rag.Cache.{
  CachePoint, shares_role, clearance_level, roles_of, matches_filter, query_points, first_readable,
  check,
}

-- What the module promises of a hit.
abbrev pub Readable : Text → Option UserContext → CachePoint → Type 0
Readable tenant user p =
    (p.tenant_id ≡ tenant)
    × (p.max_classification_level ≤ clearance_level user)
    × ((is_empty p.required_roles ≡ true) ⊎ (shares_role (roles_of user) p.required_roles ≡ true))

abbrev Passed : Text → Option UserContext → CachePoint → Type 0
Passed tenant user p = (p.tenant_id ≡ tenant) × (p.max_classification_level ≤ clearance_level user)

matches_filter_sound :
    (tenant : Text) (user : Option UserContext) (p : CachePoint)
    → matches_filter tenant (clearance_level user) p ≡ true
    → Passed tenant user p
unfolding matches_filter
matches_filter_sound tenant user p h =
    let (same, low) =
      and_parts (text_eq p.tenant_id tenant) (leb p.max_classification_level (clearance_level user))
        h in
    ((text_eq_iff p.tenant_id tenant).0 same, leb→le _ _ low)

first_readable_sound :
    (tenant : Text) (user : Option UserContext) (ps : List CachePoint) (p : CachePoint)
    → All (Passed tenant user) ps
    → first_readable (roles_of user) ps ≡ some p
    → Readable tenant user p
unfolding first_readable
first_readable_sound tenant user [] p h e = cc
first_readable_sound tenant user (q ∷ ps) p h e = elim (Bool-cases (is_empty q.required_roles)) [
  | inl open_to_all ↦
      subst (Readable tenant user) (some_eq (rw (open_to_all, first_readable) at e))
        (h.0.0, h.0.1, inl open_to_all)
  | inr bound ↦ elim (Bool-cases (shares_role (roles_of user) q.required_roles)) [
    | inl shared ↦
        subst (Readable tenant user) (some_eq (rw (bound, shared, first_readable) at e))
          (h.0.0, h.0.1, inr shared)
    | inr apart ↦ first_readable_sound tenant user ps p h.1 (rw (bound, apart, first_readable) at e)
  ]
]

-- Every cache hit is an entry of the caller's tenant whose level the caller's clearance covers,
-- and which wants no role or one that the caller holds.
pub check-Readable :
    (near : List CachePoint) (tenant : Text) (user : Option UserContext) (p : CachePoint)
    → check near tenant user ≡ some p
    → Readable tenant user p
unfolding check query_points
check-Readable near tenant user p e =
    first_readable_sound tenant user _ p
      (All-take (Passed tenant user) 5 _
        (All-map (matches_filter_sound tenant user) _ (keep_holds (matches_filter tenant _) near)))
      e

-- An entry that asks for no role is hit wherever it is the nearest.
pub check_nearest :
    (near : List CachePoint) (tenant : Text) (user : Option UserContext) (p : CachePoint)
    → p.tenant_id ≡ tenant
    → p.max_classification_level ≤ clearance_level user
    → is_empty p.required_roles ≡ true
    → check (p ∷ near) tenant user ≡ some p
unfolding check query_points matches_filter first_readable
check_nearest near tenant user p same low open_to_all =
    rw
      (
        (text_eq_iff p.tenant_id tenant).1 same,
        le→leb p.max_classification_level (clearance_level user) low,
        open_to_all,
      )
      refl
