-- ===== src/Shared/InternalAuth/Message.antt =====
-- What the message of a token tells apart.
use mathlib.Core.List.{append_assoc}
use docintel.Common.{
  ◌≡◌, sym, ap, ◌∙◌, true, false, ◌||◌, Text, codes, ◌++◌, is_empty, text_eq, text_eq_iff,
  Bool-cases, inl, inr, if_true, if_false, if◌then◌else◌,
}
use docintel.Shared.InternalAuth.{compute_internal_token, verify_internal_token}

-- A token that verifies is the HMAC of the request's identifiers.
pub verify_internal_token_sound :
    (hmac : Text → Text → Text) (token request_id tenant_id user_id secret : Text)
    → verify_internal_token hmac token request_id tenant_id user_id secret ≡ true
    → token ≡ compute_internal_token hmac request_id tenant_id user_id secret
unfolding verify_internal_token
verify_internal_token_sound hmac token r t u secret e =
    elim (Bool-cases (is_empty token || is_empty secret)) [
      | inl h ↦ cc (sym (if_true _ _ _ h) ∙ e)
      | inr h ↦ (text_eq_iff token _).0 (sym (if_false _ _ _ h) ∙ e)
    ]

-- The message does not tell where the tenant ends: a token verifies for the user `user_id` of the
-- tenant `tenant_id:unit` just where it verifies for the user `unit:user_id` of the tenant `tenant_id`.
pub verify_internal_token_ambiguous :
    (hmac : Text → Text → Text) (token request_id tenant_id unit user_id secret : Text)
    → verify_internal_token hmac token request_id (tenant_id ++ (codes ":" ++ unit)) user_id secret
      ≡ verify_internal_token hmac token request_id tenant_id
          (unit ++ (codes ":" ++ user_id))
          secret
unfolding verify_internal_token compute_internal_token
verify_internal_token_ambiguous hmac token r t unit u secret =
    ap
      (λ m.
        if is_empty token || is_empty secret
        then false
        else text_eq token (hmac secret (r ++ (codes ":" ++ m))))
      (append_assoc t (codes ":" ++ unit) (codes ":" ++ u))
