-- ===== src/Rag/Conversations/Rows.antt =====
-- What the writes of the store do to what a conversation's readers see.
use docintel.Common.{
  is_some, ℕ, Bool, Option, none, some, List, [], ◌∷◌, ◌++◌, Text, text_eq, keep, any, ◌≡◌, refl,
  sym, ap, ◌∙◌, Bool-cases, inl, inr, if_true, if_false, some_eq, keep-append,
}
use docintel.Rag.Conversations.{
  Conversation, Db, first, change, is_of, is_addressed, is_turn, turns, touch, add_message,
  set_summary, update_conversation_summary,
}

-- The summary of a conversation, and how many messages it covers.
abbrev pub anchor : Option Conversation → Option Text × ℕ
anchor none = (none, 0)
anchor (some c) = (c.session_summary, c.summary_upto_count)

abbrev pub anchor_of : Text → Text → Db → Option Text × ℕ
anchor_of conversation_id tenant_id db =
    anchor (first (is_of conversation_id tenant_id) db.conversations)

-- An assignment that leaves what is seen of a conversation leaves what is seen of the store.
change-view :
    {B : Type 0} (view : Option Conversation → B)
    → (p q : Conversation → Bool) (f : Conversation → Conversation)
    → ((c : Conversation) → p (f c) ≡ p c)
    → ((c : Conversation) → view (some (f c)) ≡ view (some c))
    → (cs : List Conversation) → view (first p (change q f cs)) ≡ view (first p cs)
unfolding first change
change-view view p q f same keeps [] = refl
change-view view p q f same keeps (c ∷ cs) = elim (Bool-cases (q c)) [
  | inl e ↦ elim (Bool-cases (p c)) [
    | inl h ↦
        ap (λ x. view (first p x)) (if_true _ _ _ e)
        ∙ ap view (if_true _ _ _ (same c ∙ h))
        ∙ keeps c
        ∙ sym (ap view (if_true _ _ _ h))
    | inr h ↦
        ap (λ x. view (first p x)) (if_true _ _ _ e)
        ∙ ap view (if_false _ _ _ (same c ∙ h))
        ∙ sym (ap view (if_false _ _ _ h))
  ]
  | inr e ↦ elim (Bool-cases (p c)) [
    | inl h ↦
        ap (λ x. view (first p x)) (if_false _ _ _ e)
        ∙ ap view (if_true _ _ _ h)
        ∙ sym (ap view (if_true _ _ _ h))
    | inr h ↦
        ap (λ x. view (first p x)) (if_false _ _ _ e)
        ∙ ap view (if_false _ _ _ h)
        ∙ change-view view p q f same keeps cs
        ∙ sym (ap view (if_false _ _ _ h))
  ]
]

-- An assignment to the conversation that is looked up, if there is one.
change-first :
    (p : Conversation → Bool) (f : Conversation → Conversation)
    → ((c : Conversation) → p (f c) ≡ p c)
    → (cs : List Conversation)
    → first p (change p f cs) ≡ (elim (first p cs) [ none ↦ none | some c ↦ some (f c) ])
unfolding first change
change-first p f same [] = refl
change-first p f same (c ∷ cs) = elim (Bool-cases (p c)) [
  | inl h ↦
      ap (first p) (if_true _ _ _ h) ∙ if_true _ _ _ (same c ∙ h) ∙ sym (ap onto (if_true _ _ _ h))
  | inr h ↦
      ap (first p) (if_false _ _ _ h)
      ∙ if_false _ _ _ h
      ∙ change-first p f same cs
      ∙ sym (ap onto (if_false _ _ _ h))
]
  where
    onto : Option Conversation → Option Conversation
    onto o = elim o [ none ↦ none | some c ↦ some (f c) ]

module _ (conversation_id tenant_id : Text) where
  -- A message that is added leaves the anchor, and stands behind the earlier turns if it is one.
  pub add_message-turns :
      (id role content tenant : Text) (now : ℕ) (db after : Db)
      → add_message id role content tenant now db ≡ some after
      → (anchor_of conversation_id tenant_id after ≡ anchor_of conversation_id tenant_id db)
        × (turns conversation_id after
            ≡ turns conversation_id db
              ++ keep
                  (is_turn conversation_id)
                  ((record { conversation_id = id; role = role; content = content }) ∷ []))
  unfolding add_message turns touch is_of
  add_message-turns id role content tenant now db after e =
      elim (Bool-cases (any (λ c. text_eq c.id id) db.conversations)) [
        | inl h ↦
            let added = some_eq (sym (if_true _ _ _ h) ∙ e) in
            (
              ap (anchor_of conversation_id tenant_id) (sym added)
                  ∙ change-view anchor (is_of conversation_id tenant_id) (is_addressed id tenant)
                      (touch role content now) (λ c. refl) (λ c. refl) db.conversations,
              ap (turns conversation_id) (sym added)
                  ∙ keep-append (is_turn conversation_id) db.messages _,
            )
        | inr h ↦ cc (sym (if_false _ _ _ h) ∙ e)
      ]

  -- Both writes leave the conversation where it is.
  abbrev pub is_there : Db → Bool
  is_there db = is_some (first (is_of conversation_id tenant_id) db.conversations)

  pub add_message-there :
      (id role content tenant : Text) (now : ℕ) (db after : Db)
      → add_message id role content tenant now db ≡ some after
      → is_there after ≡ is_there db
  unfolding add_message touch is_of
  add_message-there id role content tenant now db after e =
      elim (Bool-cases (any (λ c. text_eq c.id id) db.conversations)) [
        | inl h ↦
            ap is_there (sym (some_eq (sym (if_true _ _ _ h) ∙ e)))
            ∙ change-view is_some (is_of conversation_id tenant_id) (is_addressed id tenant)
                (touch role content now) (λ c. refl) (λ c. refl) db.conversations
        | inr h ↦ cc (sym (if_false _ _ _ h) ∙ e)
      ]

  pub update_conversation_summary-there :
      (summary : Text) (upto : ℕ) (db : Db)
      → is_there (update_conversation_summary conversation_id tenant_id summary upto db)
        ≡ is_there db
  unfolding update_conversation_summary set_summary is_of
  update_conversation_summary-there summary upto db =
      ap is_some (
        change-first (is_of conversation_id tenant_id) (set_summary summary upto) (λ c. refl)
          db.conversations)
      ∙ kept (first (is_of conversation_id tenant_id) db.conversations)
    where
      kept :
          (o : Option Conversation)
          → is_some {A = Conversation}
              (elim o [ none ↦ none | some c ↦ some (set_summary summary upto c) ])
            ≡ is_some o
      kept none = refl
      kept (some c) = refl

  -- A new summary is the anchor, if the conversation is there.
  pub update_conversation_summary-anchor :
      (summary : Text) (upto : ℕ) (db : Db)
      → anchor_of conversation_id tenant_id
          (update_conversation_summary conversation_id tenant_id summary upto db)
        ≡ (elim (first (is_of conversation_id tenant_id) db.conversations) [
          | none ↦ (none, 0)
          | some c ↦ (some summary, upto)
        ])
  unfolding update_conversation_summary set_summary is_of
  update_conversation_summary-anchor summary upto db =
      ap anchor (
        change-first (is_of conversation_id tenant_id) (set_summary summary upto) (λ c. refl)
          db.conversations)
      ∙ seen (first (is_of conversation_id tenant_id) db.conversations)
    where
      seen :
          (o : Option Conversation)
          → anchor (elim o [ none ↦ none | some c ↦ some (set_summary summary upto c) ])
            ≡ (elim o [ none ↦ (none, 0) | some c ↦ (some summary, upto) ])
      seen none = refl
      seen (some c) = refl
