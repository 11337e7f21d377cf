-- ===== src/Rag/Conversations/Absorb.antt =====
-- What a compression leaves of the store of conversations.
use mathlib.Core.List.{append-nil}
use docintel.Common.{
  is_some, keep, text_eq, and_not, ℕ, ◌+◌, true, false, Option, none, some, [], ◌∷◌, ◌++◌, Text,
  codes, length, ◌≡◌, refl, sym, ap, subst, ◌∙◌, Option-cases, inl, inr, if_false,
}
use docintel.Rag.Conversations.{
  is_turn, add_message, update_conversation_summary, Conversation, Db, first, is_of, turns,
}
use docintel.Rag.Conversations.History.{Plan, absorb, or_same}
use docintel.Rag.Conversations.Rows.{
  is_there, add_message-there, update_conversation_summary-there, anchor_of, add_message-turns,
  update_conversation_summary-anchor,
}

module _ (conversation_id tenant_id : Text) where
  -- A new summary leaves the turns, and the message that tells of it is none.
  same_turns :
      (n : ℕ) (s : Text) (db : Db)
      → turns conversation_id (update_conversation_summary conversation_id tenant_id s n db)
        ≡ turns conversation_id db
  unfolding turns update_conversation_summary
  same_turns n s db = refl

  no_turn :
      (s : Text)
      → keep (is_turn conversation_id) (
          (record {
            conversation_id = conversation_id;
            role = codes "context_summary";
            content = s;
          })
          ∷ [])
        ≡ []
  unfolding is_turn text_eq
  no_turn s = if_false _ _ _ (and_not (text_eq conversation_id conversation_id) false refl)

  -- What a compression leaves of the store.
  pub absorb-anchor :
      (now : ℕ) (p : Plan) (t : Text) (db : Db)
      → is_there conversation_id tenant_id db ≡ true
      → (turns conversation_id (absorb conversation_id tenant_id now p t db)
          ≡ turns conversation_id db)
        × (is_there conversation_id tenant_id (absorb conversation_id tenant_id now p t db) ≡ true)
        × ((anchor_of conversation_id tenant_id (absorb conversation_id tenant_id now p t db)).1
            ≡ p.summary_upto + length p.new_span)
  unfolding absorb or_same
  absorb-anchor now p t db h =
      let upto = p.summary_upto + length p.new_span in
      let updated = update_conversation_summary conversation_id tenant_id t upto db in
      let there = update_conversation_summary-there conversation_id tenant_id t upto db ∙ h in
      let counts =
        ap (λ a. a.1) (update_conversation_summary-anchor conversation_id tenant_id t upto db)
        ∙ chosen upto t (first (is_of conversation_id tenant_id) db.conversations) h in
      elim (Option-cases
        (add_message conversation_id (codes "context_summary") t tenant_id now updated)) [
          | inl e ↦ subst (left updated) (sym e) (same_turns upto t db, there, counts)
          | inr (after, e) ↦
              let (anchor_is, turns_are) =
                add_message-turns conversation_id tenant_id conversation_id
                  (codes "context_summary") t tenant_id now updated after e in
              subst (left updated) (sym e) (
                turns_are
                    ∙ ap (λ ms. turns conversation_id updated ++ ms) (no_turn t)
                    ∙ append-nil (turns conversation_id updated)
                    ∙ same_turns upto t db,
                add_message-there conversation_id tenant_id conversation_id
                      (codes "context_summary") t tenant_id now updated after e
                    ∙ there,
                ap (λ a. a.1) anchor_is ∙ counts,
              )
        ]
    where
      left : Db → Option Db → Type 0
      left d o =
          (turns conversation_id (or_same o d) ≡ turns conversation_id db)
          × (is_there conversation_id tenant_id (or_same o d) ≡ true)
          × ((anchor_of conversation_id tenant_id (or_same o d)).1
              ≡ p.summary_upto + length p.new_span)

      chosen :
          (n : ℕ) (s : Text) (o : Option Conversation)
          → is_some o ≡ true
          → (elim o as (λ x. Option Text × ℕ) [ none ↦ (none, 0) | some c ↦ (some s, n) ]).1 ≡ n
      chosen n s none k = cc k
      chosen n s (some c) k = refl
