-- ===== src/Shared/InternalAuth.antt =====
-- lib/docintel-common/docintel_common/internal_auth.py: the token with which the gateway signs a
-- request. The HMAC of a message under a secret, as hexadecimal text, is an argument.
pub mod Message
mod Examples
use docintel.Common.{Bool, false, ◌||◌, [], ◌++◌, Text, codes, is_empty, text_eq, if◌then◌else◌}

module _ (hmac : Text → Text → Text) where
  unfoldable pub compute_internal_token : Text → Text → Text → Text → Text
  compute_internal_token request_id tenant_id user_id secret =
      hmac secret (request_id ++ (codes ":" ++ (tenant_id ++ (codes ":" ++ user_id))))

  unfoldable pub verify_internal_token : Text → Text → Text → Text → Text → Bool
  verify_internal_token token request_id tenant_id user_id secret =
      if is_empty token || is_empty secret
      then false
      else text_eq token (compute_internal_token request_id tenant_id user_id secret)

  unfoldable pub compute_service_token : Text → Text → Text
  compute_service_token tenant_id secret = compute_internal_token [] tenant_id [] secret
