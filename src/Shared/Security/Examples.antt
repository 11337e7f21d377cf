-- ===== src/Shared/Security/Examples.antt =====
-- Headers read into a caller's context.
use docintel.Common.{◌≡◌, refl, [], ◌∷◌, Text, Dict, codes, lookup, strip, is_space, text_eq}
use docintel.Shared.Security.{
  restricted, lower, parse_classification, split_from, split_char, header_or, parse_roles,
  parse_clearance, from_gateway_headers,
}

abbrev headers : Dict Text
headers =
    (codes "x-user-clearance", codes "Restricted") ∷ (codes "x-user-roles", codes "a, b,,") ∷ []

roles_read : (from_gateway_headers headers).roles ≡ codes "a" ∷ codes "b" ∷ []
unfolding from_gateway_headers header_or parse_roles split_char split_from lookup strip is_space
    text_eq
roles_read = refl

clearance_read : (from_gateway_headers headers).clearance ≡ restricted
unfolding from_gateway_headers header_or parse_clearance parse_classification lower lookup text_eq
clearance_read = refl
