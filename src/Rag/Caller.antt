-- ===== src/Rag/Caller.antt =====
-- services/rag-service/src/api/dependencies.py: the check of the gateway's token, and the caller's
-- context that is read from the headers behind it.
pub mod Authentic
mod Examples
use docintel.Common.{
  Bool, false, Option, none, some, List, [], ◌∷◌, Text, codes, Dict, is_empty, if◌then◌else◌,
}
use docintel.Shared.Security.{UserContext, from_gateway_headers}
use docintel.Shared.InternalAuth.{verify_internal_token}

pub record Headers : Type 0 where
  pub internal_service_token : Option Text
  pub request_id : Option Text
  pub tenant_id : Option Text
  pub user_id : Option Text
  pub user_roles : Option Text
  pub user_clearance : Option Text
  pub org_id : Option Text
  pub user_department : Option Text
  pub user_region : Option Text

-- `value or default`: an empty value counts as missing.
abbrev pub text_or : Option Text → Text → Text
text_or none d = d
text_or (some []) d = d
text_or (some (c ∷ s)) d = c ∷ s

module _ (hmac : Text → Text → Text) (secret : Text) where
  -- `require_internal_token`: false is the answer 403.
  unfoldable pub require_internal_token : Headers → Bool
  require_internal_token h =
      if is_empty secret
      then false
      else verify_internal_token hmac (text_or h.internal_service_token [])
          (text_or h.request_id []) (text_or h.tenant_id []) (text_or h.user_id []) secret

  -- The dictionary that is built from the headers; a department that is missing is `None`, which
  -- counts as an empty text.
  abbrev pub forwarded : Headers → Dict Text
  forwarded h =
      (codes "X-Tenant-Id", text_or h.tenant_id (codes "default"))
      ∷ (codes "X-User-Id", text_or h.user_id [])
      ∷ (codes "X-User-Roles", text_or h.user_roles [])
      ∷ (codes "X-User-Clearance", text_or h.user_clearance (codes "internal"))
      ∷ (codes "X-Org-Id", text_or h.org_id (text_or h.tenant_id (codes "default")))
      ∷ (codes "X-User-Department", text_or h.user_department [])
      ∷ (codes "X-User-Region", text_or h.user_region (codes "global"))
      ∷ []

  unfoldable pub extract_user_context : Headers → Option UserContext
  extract_user_context h =
      if require_internal_token h then some (from_gateway_headers (forwarded h)) else none
