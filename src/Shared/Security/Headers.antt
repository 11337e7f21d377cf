-- ===== src/Shared/Security/Headers.antt =====
-- What `UserContext.from_gateway_headers` makes of the gateway's headers.
use docintel.Common.{
  [], ◌≡◌, ◌≢◌, refl, map, strip, true, false, not, inl, inr, Option-cases, some, Text, Dict, codes,
  keep_holds, is_empty, All, text_eq_iff, arith,
}
use docintel.Shared.Security.{
  Classification, public, internal, confidential, restricted, lower, parse_classification,
  split_char, header_or, parse_roles, parse_clearance, from_gateway_headers,
}

-- The word that the source's enum gives a level.
unfoldable pub value : Classification → Text
value public = codes "public"
value internal = codes "internal"
value confidential = codes "confidential"
value restricted = codes "restricted"

parse_classification_sound :
    (s : Text) (c : Classification) → parse_classification s ≡ some c → s ≡ value c
unfolding parse_classification value
parse_classification_sound s public h = ground (
  arith,
  text_eq_iff s (codes "public"),
  text_eq_iff s (codes "internal"),
  text_eq_iff s (codes "confidential"),
  text_eq_iff s (codes "restricted"),
)
parse_classification_sound s c h = ground (
  arith,
  text_eq_iff s (codes "public"),
  text_eq_iff s (codes "internal"),
  text_eq_iff s (codes "confidential"),
  text_eq_iff s (codes "restricted"),
)

abbrev pub clearance_header : Dict Text → Text
clearance_header h =
    header_or h (codes "x-user-clearance") (codes "X-User-Clearance") (codes "internal")

parse_clearance_sound :
    (raw : Text) → parse_clearance raw ≢ internal → lower raw ≡ value (parse_clearance raw)
unfolding parse_clearance
parse_clearance_sound raw h = elim (Option-cases (parse_classification (lower raw))) [
  | inl e ↦ absurd (h (rw (parse_clearance, e) refl))
  | inr (c, e) ↦ rw (parse_clearance, e) (parse_classification_sound (lower raw) c e)
]

-- A caller has a level other than `internal` only if the clearance header, in lower case, is that
-- level's word: a missing or unknown clearance is `internal`.
pub clearance-from_gateway_headers :
    (h : Dict Text)
    → (from_gateway_headers h).clearance ≢ internal
    → lower (clearance_header h) ≡ value (from_gateway_headers h).clearance
unfolding from_gateway_headers
clearance-from_gateway_headers h = parse_clearance_sound (clearance_header h)

header_or-filled :
    (h : Dict Text) (a b d : Text) → is_empty d ≡ false → is_empty (header_or h a b d) ≡ false
unfolding header_or
header_or-filled h a b d e = ground arith

-- No role in a caller's context is empty, and neither are its tenant and organisation: a missing
-- tenant is `default`, and a missing organisation is the tenant.
pub from_gateway_headers_filled :
    (h : Dict Text)
    → All (λ r. not (is_empty r) ≡ true) (from_gateway_headers h).roles
      × (is_empty (from_gateway_headers h).tenant_id ≡ false)
      × (is_empty (from_gateway_headers h).org_id ≡ false)
unfolding from_gateway_headers parse_roles
from_gateway_headers_filled h =
    let tenant =
      header_or-filled h (codes "x-tenant-id") (codes "X-Tenant-Id") (codes "default") refl in
    (
      keep_holds {A = Text} (λ r. not (is_empty r))
          (map strip
            (split_char b',' (header_or h (codes "x-user-roles") (codes "X-User-Roles") []))),
      tenant,
      header_or-filled h (codes "x-org-id") (codes "X-Org-Id") _ tenant,
    )
