-- ===== src/Shared/InternalAuth/Examples.antt =====
-- Two users of two tenants with the same token.
use docintel.Common.{◌≡◌, ◌++◌, codes}
use docintel.Shared.InternalAuth.{verify_internal_token}
use docintel.Shared.InternalAuth.Message.{verify_internal_token_ambiguous}

verify_internal_token_ambiguous_example :
    verify_internal_token
      (λ s m. s ++ m)
      (codes "key r1:acme:eu:bob")
      (codes "r1")
      (codes "acme" ++ (codes ":" ++ codes "eu"))
      (codes "bob")
      (codes "key ")
    ≡ verify_internal_token
        (λ s m. s ++ m)
        (codes "key r1:acme:eu:bob")
        (codes "r1")
        (codes "acme")
        (codes "eu" ++ (codes ":" ++ codes "bob"))
        (codes "key ")
verify_internal_token_ambiguous_example =
    verify_internal_token_ambiguous (λ s m. s ++ m) (codes "key r1:acme:eu:bob") (codes "r1")
      (codes "acme") (codes "eu") (codes "bob") (codes "key ")
