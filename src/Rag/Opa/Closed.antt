-- ===== src/Rag/Opa/Closed.antt =====
-- The validator fails closed, and its audit event accounts for every chunk.
use mathlib.Core.List.{append_assoc, append-nil}
use docintel.Common.{
  ◌≡◌, refl, sym, ◌∙◌, true, not, ==_iff, inl, inr, Bool-cases, none, some, List, [], ◌∷◌, ◌++◌,
  Text, keep, keep_holds, map, All, All-map, arith,
}
use docintel.Shared.Security.{UserContext}
use docintel.Rag.Types.{Document}
use docintel.Rag.Opa.{
  Policy, OpaReply, unreachable, replied, chunk_input, permits, chunk_allowed, validate_loop,
  validate,
}

module _ (policy : Policy) (user : UserContext) where
  validate_loop_lem :
      (docs allowed : List Document) (denied ids : List Text)
      → ((validate_loop policy user docs allowed denied ids).0
          ≡ allowed ++ keep (chunk_allowed policy user) docs)
        × ((validate_loop policy user docs allowed denied ids).1
            ≡ denied ++ map (λ d. d.id) (keep (λ d. not (chunk_allowed policy user d)) docs))
  unfolding validate_loop
  validate_loop_lem [] allowed denied ids = (sym (append-nil allowed), sym (append-nil denied))
  validate_loop_lem (doc ∷ docs) allowed denied ids =
      elim (Bool-cases (chunk_allowed policy user doc)) [
        | inl e ↦
            let (p, q) = validate_loop_lem docs (allowed ++ doc ∷ []) denied _ in
            rw (e, validate_loop) (p ∙ append_assoc allowed (doc ∷ []) _, q)
        | inr e ↦
            let (p, q) = validate_loop_lem docs allowed (denied ++ doc.id ∷ []) _ in
            rw (e, validate_loop) (p, q ∙ append_assoc denied (doc.id ∷ []) _)
      ]

  -- The validator returns the chunks that the policy allows, in the order of retrieval, and its
  -- audit event lists all chunks and those that it denied, in that order too.
  pub validate_lem :
      (docs : List Document)
      → ((validate policy user docs).documents ≡ keep (chunk_allowed policy user) docs)
        × ((validate policy user docs).audit.retrieved_chunk_ids ≡ map (λ d. d.id) docs)
        × ((validate policy user docs).audit.denied_chunk_ids
            ≡ map (λ d. d.id) (keep (λ d. not (chunk_allowed policy user d)) docs))
  unfolding validate
  validate_lem docs = let (p, q) = validate_loop_lem docs [] [] [] in (p, refl, q)

-- An allowed chunk is one to which the engine answered 200 with the Boolean true.
abbrev pub IsAllowed : Policy → UserContext → Document → Type 0
IsAllowed policy user d = policy user (chunk_input d.metadata) ≡ replied 200 (some true)

permits_lem : (r : OpaReply) → permits r ≡ true → r ≡ replied 200 (some true)
unfolding permits
permits_lem unreachable h = cc
permits_lem (replied status none) h = cc
permits_lem (replied status (some result)) h = ground (arith, ==_iff status 200)

chunk_allowed-IsAllowed :
    (policy : Policy) (user : UserContext) (d : Document)
    → chunk_allowed policy user d ≡ true
    → IsAllowed policy user d
unfolding chunk_allowed
chunk_allowed-IsAllowed policy user d h = permits_lem (policy user (chunk_input d.metadata)) h

-- Fail closed: every chunk that comes through got the answer 200 with `true`, so an engine that
-- cannot be reached, or that answers anything else, lets nothing through.
pub validate-IsAllowed :
    (policy : Policy) (user : UserContext) (docs : List Document)
    → All (IsAllowed policy user) (validate policy user docs).documents
validate-IsAllowed policy user docs =
    rw (validate_lem policy user docs).0 (
      All-map (chunk_allowed-IsAllowed policy user) _ (keep_holds (chunk_allowed policy user) docs))
