-- ===== src/Rag/Conversations/Window.antt =====
-- How many messages a question's history leaves out.
use docintel.Common.{
  if_true, Bool-cases, length-take, if◌then◌else◌, leb→le, ltb→lt, take, ◌⊎◌, is_empty, ◌≤◌, ◌<◌,
  List, ltb, leb, is_some, ℕ, ◌+◌, ◌-◌, true, false, Option, none, some, [], ◌∷◌, Text, length,
  drop, ◌≡◌, refl, sym, ap, subst, ◌∙◌, arith, inl, inr, if_false, length-drop,
}
use docintel.Rag.Conversations.{
  get_messages_slice, Message, Conversation, Db, first, is_of, turns,
  get_conversation_summary_state, get_recent_messages, state_of, if_there,
}
use docintel.Rag.Conversations.History.{
  reply, begin_compression, Store, replied, replied_first, begin, step, steps, plan, Limits, Plan,
  load_conversation_history, absorb,
}
use docintel.Rag.Conversations.Rows.{is_there, anchor, anchor_of}
use docintel.Rag.Conversations.Absorb.{absorb-anchor}

leb→above : (a b : ℕ) → leb a b ≡ false → b < a
leb→above a b e = ground arith

ltb→above : (a b : ℕ) → ltb a b ≡ false → b ≤ a
ltb→above a b e = ground arith

nil_length : (xs : List Message) → is_empty xs ≡ true → length xs ≡ 0
nil_length [] e = refl
nil_length (x ∷ xs) e = cc e

module _ (cfg : Limits) (conversation_id tenant_id : Text) where
  -- The messages that neither the summary counts nor the history shows.
  abbrev pub left_out : Db → ℕ
  left_out db =
      length (turns conversation_id db)
      - length (load_conversation_history cfg conversation_id tenant_id db).recent
      - (get_conversation_summary_state conversation_id tenant_id db).summary_upto_count

  -- They are those between the summary and the last `verbatim` ones.
  left_out_lem :
      (db : Db)
      → is_there conversation_id tenant_id db ≡ true
      → left_out db
        ≡ length (turns conversation_id db)
          - cfg.verbatim
          - (anchor_of conversation_id tenant_id db).1
  unfolding load_conversation_history get_recent_messages get_conversation_summary_state state_of
      if_there
  left_out_lem db h = counted (first (is_of conversation_id tenant_id) db.conversations) h
    where
      counted :
          (o : Option Conversation)
          → is_some o ≡ true
          → length (turns conversation_id db)
              - length (
                  if_there
                    (drop
                      (length (turns conversation_id db) - cfg.verbatim)
                      (turns conversation_id db))
                    o)
              - (state_of (turns conversation_id db) o).summary_upto_count
            ≡ length (turns conversation_id db) - cfg.verbatim - (anchor o).1
      counted none e = cc e
      counted (some c) e =
          let kept =
            length-drop (length (turns conversation_id db) - cfg.verbatim)
              (turns conversation_id db) in
          omega arith

  -- How a plan comes out above the threshold: there is nothing to do, or it covers all messages but
  -- the last `verbatim` ones.
  plan_cases :
      (db : Db)
      → is_there conversation_id tenant_id db ≡ true
      → cfg.threshold < length (turns conversation_id db)
      → ((plan cfg conversation_id tenant_id db ≡ none)
          × (length (turns conversation_id db)
                - cfg.verbatim
                - (anchor_of conversation_id tenant_id db).1
              ≤ 1))
        ⊎ ((p : Plan) × (plan cfg conversation_id tenant_id db ≡ some p)
            × (p.summary_upto + length p.new_span
                ≡ length (turns conversation_id db) - cfg.verbatim))
  unfolding plan get_conversation_summary_state get_messages_slice state_of if_there
  plan_cases db h over = decided (first (is_of conversation_id tenant_id) db.conversations) h
    where
      xs : List Message
      xs = turns conversation_id db

      upto : Option Conversation → ℕ
      upto o = (state_of xs o).summary_upto_count

      total : Option Conversation → ℕ
      total o = (state_of xs o).total_message_count

      span : Option Conversation → List Message
      span o = if_there (take (total o - cfg.verbatim - upto o) (drop (upto o) xs)) o

      made : Option Conversation → Plan
      made o = record {
        session_summary = (state_of xs o).session_summary;
        summary_upto = upto o;
        new_span = span o;
      }

      chosen : Option Conversation → Option Plan
      chosen o =
          if leb (total o) cfg.threshold
          then none
          else if leb (total o - cfg.verbatim) (upto o)
          then none
          else if ltb (total o - cfg.verbatim - upto o) 2
          then none
          else if is_empty (span o)
          then none
          else some (made o)

      decided :
          (o : Option Conversation)
          → is_some o ≡ true
          → ((chosen o ≡ none) × (length xs - cfg.verbatim - (anchor o).1 ≤ 1))
            ⊎ ((p : Plan) × (chosen o ≡ some p)
                × (p.summary_upto + length p.new_span ≡ length xs - cfg.verbatim))
      decided none e = cc e
      decided (some c) e =
          let spans =
            length-take (total (some c) - cfg.verbatim - upto (some c)) (drop (upto (some c)) xs) in
          let rests = length-drop (upto (some c)) xs in
          elim (Bool-cases (leb (total (some c)) cfg.threshold)) [
            | inl a ↦ absurd (let under = leb→le (total (some c)) cfg.threshold a in omega arith)
            | inr a ↦ elim (Bool-cases (leb (total (some c) - cfg.verbatim) (upto (some c)))) [
              | inl b ↦
                  let none_due = leb→le (total (some c) - cfg.verbatim) (upto (some c)) b in
                  inl (if_false _ _ _ a ∙ if_true _ _ _ b, omega arith)
              | inr b ↦ elim (Bool-cases (ltb (total (some c) - cfg.verbatim - upto (some c)) 2)) [
                | inl d ↦
                    let few = ltb→lt (total (some c) - cfg.verbatim - upto (some c)) 2 d in
                    inl (if_false _ _ _ a ∙ if_false _ _ _ b ∙ if_true _ _ _ d, omega arith)
                | inr d ↦
                    let due = leb→above (total (some c) - cfg.verbatim) (upto (some c)) b in
                    let enough = ltb→above (total (some c) - cfg.verbatim - upto (some c)) 2 d in
                    elim (Bool-cases (is_empty (span (some c)))) [
                      | inl f ↦ absurd (let empty = nil_length (span (some c)) f in omega arith)
                      | inr f ↦ inr (
                        made (some c),
                        if_false _ _ _ a ∙ if_false _ _ _ b ∙ if_false _ _ _ d ∙ if_false _ _ _ f,
                        omega arith,
                      )
                    ]
              ]
            ]
          ]

-- A compression that is not disturbed, in a conversation with more messages than the threshold, leaves
-- at most one message that neither the summary counts nor the next history shows, if the
-- summarizer answers.
pub compression-left_out :
    (compress : Option Text → List Message → ℕ → Option Text) (cfg : Limits)
    → (conversation_id tenant_id : Text) (now : ℕ) (db : Db)
    → ((a : Option Text) (ms : List Message) (n : ℕ) → is_some (compress a ms n) ≡ true)
    → is_there conversation_id tenant_id db ≡ true
    → cfg.threshold < length (turns conversation_id db)
    → left_out cfg conversation_id tenant_id
        (steps compress cfg conversation_id tenant_id
          (record { db = db; waiting = [] })
          (begin_compression ∷ reply 0 now ∷ [])).db
      ≤ 1
unfolding steps step begin replied_first replied
compression-left_out compress cfg id tenant now db answers h over =
    elim (plan_cases cfg id tenant db h over) [
      | inl (e, few) ↦
          subst after (sym e) (subst (λ n. n ≤ 1) (sym (left_out_lem cfg id tenant db h)) few)
      | inr (p, e, all) ↦
          subst after (sym e)
            (answered p all (compress p.session_summary p.new_span now) (answers _ _ _))
    ]
  where
    after : Option Plan → Type 0
    after o =
        let begun : Store = elim o [
          | none ↦ record { db = db; waiting = [] }
          | some p ↦ record { db = db; waiting = p ∷ [] }
        ] in
        left_out cfg id tenant (replied_first compress cfg id tenant now begun.waiting begun.db) ≤ 1

    answered :
        (p : Plan)
        → p.summary_upto + length p.new_span ≡ length (turns id db) - cfg.verbatim
        → (o : Option Text) → is_some o ≡ true
        → left_out cfg id tenant
            (elim o [ none ↦ db | some summary ↦ absorb id tenant now p summary db ])
          ≤ 1
    answered p all none k = cc k
    answered p all (some t) k =
        let (turns_are, there, counts) = absorb-anchor id tenant now p t db h in
        let counted = left_out_lem cfg id tenant (absorb id tenant now p t db) there in
        let lengths = ap length turns_are in subst (λ n. n ≤ 1) (sym counted) (omega arith)
