-- ===== src/Rag/Caller/Examples.antt =====
-- A signed request, with an HMAC that puts the secret before the message.
use docintel.Common.{◌≡◌, ◌⊎◌, false, none, some, ◌++◌, Text, codes}
use docintel.Shared.Security.{UserContext}
use docintel.Rag.Caller.{Headers, require_internal_token, extract_user_context}
use docintel.Rag.Caller.Authentic.{Authentic, extract_user_context-Authentic}

abbrev prefixed : Text → Text → Text
prefixed secret message = secret ++ message

abbrev signed_request : Headers
signed_request = record {
  internal_service_token = some (codes "key r1:acme:bob");
  request_id = some (codes "r1");
  tenant_id = some (codes "acme");
  user_id = some (codes "bob");
  user_roles = some (codes "hr");
  user_clearance = none;
  org_id = none;
  user_department = none;
  user_region = none;
}

extract_user_context-Authentic_example :
    ((extract_user_context prefixed (codes "key ") signed_request ≡ none)
      × (require_internal_token prefixed (codes "key ") signed_request ≡ false))
    ⊎ ((ctx : UserContext) × (extract_user_context prefixed (codes "key ") signed_request
          ≡ some ctx)
        × Authentic prefixed (codes "key ") signed_request ctx)
extract_user_context-Authentic_example =
    extract_user_context-Authentic prefixed (codes "key ") signed_request
