-- ===== src/Rag/Caller/Authentic.antt =====
-- Who a request is taken to come from.
use docintel.Common.{
  ◌≡◌, refl, sym, ◌∙◌, ◌⊎◌, inl, inr, false, Option, none, some, [], ◌∷◌, Text, codes, is_empty,
  Bool-cases, if_true, if_false, lookup, text_eq,
}
use docintel.Shared.Security.{UserContext, from_gateway_headers, header_or}
use docintel.Shared.InternalAuth.{compute_internal_token}
use docintel.Shared.InternalAuth.Message.{verify_internal_token_sound}
use docintel.Rag.Caller.{Headers, text_or, require_internal_token, forwarded, extract_user_context}

module _ (hmac : Text → Text → Text) (secret : Text) (h : Headers) where
  -- The token is the HMAC of the caller's identifiers, and the context has these.
  pub record Authentic (ctx : UserContext) : Type 0 where
    pub signed :
        text_or h.internal_service_token []
        ≡ compute_internal_token hmac
            (text_or h.request_id [])
            (text_or h.tenant_id [])
            (text_or h.user_id [])
            secret
    pub has_secret : is_empty secret ≡ false
    pub tenant : ctx.tenant_id ≡ text_or h.tenant_id (codes "default")
    pub user : ctx.user_id ≡ text_or h.user_id []

  tenant_read :
      (t : Option Text)
      → (from_gateway_headers (forwarded hmac secret (record h { tenant_id = t }))).tenant_id
        ≡ text_or t (codes "default")
  unfolding from_gateway_headers header_or lookup text_eq
  tenant_read none = refl
  tenant_read (some []) = refl
  tenant_read (some (c ∷ s)) = refl

  user_read :
      (u : Option Text)
      → (from_gateway_headers (forwarded hmac secret (record h { user_id = u }))).user_id
        ≡ text_or u []
  unfolding from_gateway_headers header_or lookup text_eq
  user_read none = refl
  user_read (some []) = refl
  user_read (some (c ∷ s)) = refl

  -- A context is read only behind a token that is the HMAC of the request's own identifiers, under a
  -- secret that is set; it then has the tenant and the user of that token, with `default` for a
  -- request that names no tenant. Else the request is refused.
  pub extract_user_context-Authentic :
      ((extract_user_context hmac secret h ≡ none) × (require_internal_token hmac secret h ≡ false))
      ⊎ ((ctx : UserContext) × (extract_user_context hmac secret h ≡ some ctx) × Authentic ctx)
  unfolding extract_user_context require_internal_token
  extract_user_context-Authentic = elim (Bool-cases (require_internal_token hmac secret h)) [
    | inr e ↦ inl (if_false _ _ _ e, e)
    | inl e ↦ elim (Bool-cases (is_empty secret)) [
      | inl k ↦ cc (sym (if_true _ _ _ k) ∙ e)
      | inr k ↦ inr (
        from_gateway_headers (forwarded hmac secret h),
        if_true _ _ _ e,
        record {
          signed = verify_internal_token_sound hmac _ _ _ _ secret (sym (if_false _ _ _ k) ∙ e);
          has_secret = k;
          tenant = tenant_read h.tenant_id;
          user = user_read h.user_id;
        },
      )
    ]
  ]
