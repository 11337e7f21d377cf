-- ===== src/Shared/Security.antt =====
-- lib/docintel-common/docintel_common/security.py: classification levels, document ACLs and the
-- caller's context, which is read from the headers that the gateway sets.
pub mod Headers
mod Examples
use docintel.Common.{
  ℕ, zero, suc, ◌+◌, Bool, true, false, not, Option, none, some, List, [], ◌∷◌, Text, Dict, codes,
  keep, is_empty, any, lookup, strip, text_eq, leb, ◌&&◌, ◌==◌, if◌then◌else◌, map,
}

pub data Classification : Type 0 where
  public internal confidential restricted : Classification

-- `CLASSIFICATION_ORDER`.
unfoldable pub classification_order : Classification → ℕ
classification_order public = 0
classification_order internal = 1
classification_order confidential = 2
classification_order restricted = 3

unfoldable pub clearance_permits : Classification → Classification → Bool
clearance_permits user doc = leb (classification_order doc) (classification_order user)

-- `DocumentACL`, and its defaults.
pub record DocumentAcl : Type 0 where
  pub classification : Classification
  pub allowed_roles : List Text
  pub allowed_users : List Text
  pub department : Option Text
  pub region : Text
  pub expires_at : Option Text

abbrev pub default_acl : DocumentAcl
default_acl = record {
  classification = internal;
  allowed_roles = [];
  allowed_users = [];
  department = none;
  region = codes "global";
  expires_at = none;
}

pub record UserContext : Type 0 where
  pub user_id : Text
  pub org_id : Text
  pub tenant_id : Text
  pub roles : List Text
  pub clearance : Classification
  pub department : Option Text
  pub region : Text

-- `role in self.roles`.
unfoldable pub has_role : UserContext → Text → Bool
has_role u role = any (λ r. text_eq r role) u.roles

-- `str.lower` on ASCII; a text with other letters is left as it is where Python may change it.
unfoldable pub lower : Text → Text
lower s = map (λ c. if leb b'A' c && leb c b'Z' then c + 32 else c) s

-- `Classification(value)`; `none` is the ValueError.
unfoldable pub parse_classification : Text → Option Classification
parse_classification s =
    if text_eq s (codes "public")
    then some public
    else if text_eq s (codes "internal")
    then some internal
    else if text_eq s (codes "confidential")
    then some confidential
    else if text_eq s (codes "restricted")
    then some restricted
    else none

-- `s.split(sep)` at one character: the pieces, with the first one apart.
pub split_from : ℕ → Text → Text × List Text
split_from sep [] = ([], [])
split_from sep (c ∷ s) =
    let (first, rest) = split_from sep s in
    if c == sep then ([], first ∷ rest) else (c ∷ first, rest)

pub split_char : ℕ → Text → List Text
unfolding split_from
split_char sep s = let (first, rest) = split_from sep s in first ∷ rest

-- `headers.get(a) or headers.get(b) or default`: an empty value counts as missing.
unfoldable pub header_or : Dict Text → Text → Text → Text → Text
header_or headers a b default = elim (lookup a headers) [
  | some (c ∷ s) ↦ c ∷ s
  | _ ↦ elim (lookup b headers) [ some (c ∷ s) ↦ c ∷ s | _ ↦ default ]
]

abbrev pub text_or_none : Text → Option Text
text_or_none [] = none
text_or_none (c ∷ s) = some (c ∷ s)

pub parse_roles : Text → List Text
parse_roles raw = keep (λ r. not (is_empty r)) (map strip (split_char b',' raw))

pub parse_clearance : Text → Classification
parse_clearance raw = elim (parse_classification (lower raw)) [ some c ↦ c | none ↦ internal ]

unfoldable pub from_gateway_headers : Dict Text → UserContext
from_gateway_headers h =
    let tenant = header_or h (codes "x-tenant-id") (codes "X-Tenant-Id") (codes "default") in
    record {
      user_id = header_or h (codes "x-user-id") (codes "X-User-Id") [];
      org_id = header_or h (codes "x-org-id") (codes "X-Org-Id") tenant;
      tenant_id = tenant;
      roles = parse_roles (header_or h (codes "x-user-roles") (codes "X-User-Roles") []);
      clearance =
          parse_clearance
            (header_or h (codes "x-user-clearance") (codes "X-User-Clearance") (codes "internal"));
      department =
          text_or_none (header_or h (codes "x-user-department") (codes "X-User-Department") []);
      region = header_or h (codes "x-user-region") (codes "X-User-Region") (codes "global");
    }
