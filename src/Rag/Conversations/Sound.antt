-- ===== src/Rag/Conversations/Sound.antt =====
-- The stored summary is one of the first messages, just as many as the store says, also while
-- compressions wait for the summarizer.
use docintel.Rag.Conversations.Rows.{
  update_conversation_summary-anchor, add_message-turns, anchor_of,
}
use mathlib.Core.List.{append-nil}
use docintel.Common.{
  All-drop, All-take, suc, All-append, ◌∷◌, codes, leb, ltb, is_empty, All-map, All, ◌-◌, inr, inl,
  some_eq, Option-cases, ℕ, ◌+◌, Option, none, some, List, [], ◌++◌, Text, length, take, drop, ◌≡◌,
  sym, subst, arith, length-drop,
}
use docintel.Rag.Conversations.{
  update_conversation_summary, add_message, Conversation, if_there, state_of, is_of, first, turns,
  Db, get_messages_slice, get_conversation_summary_state, Message,
}
use docintel.Rag.Conversations.History.{
  begin_compression, reply, message, replied_first, Event, begin, absorb, steps, step, replied,
  or_same, Store, Limits, plan, Plan,
}
use docintel.Rag.Conversations.Covered.{
  Anchored, Waits, Anchored-append, Waits-append, Waits-reply, Anchored-nothing, if_some,
  state_of-anchor, slice_lem, slice_within,
}

module _ (conversation_id tenant_id : Text) where
  plan-Waits :
      (compress : Option Text → List Message → ℕ → Option Text) (cfg : Limits) (db : Db) (p : Plan)
      → Anchored compress (turns conversation_id db) (anchor_of conversation_id tenant_id db)
      → plan cfg conversation_id tenant_id db ≡ some p
      → Waits compress (turns conversation_id db) p
  unfolding plan get_conversation_summary_state get_messages_slice
  plan-Waits compress cfg db p h e =
      let found = first (is_of conversation_id tenant_id) db.conversations in
      let state = state_of (turns conversation_id db) found in
      let known =
        subst (Anchored compress (turns conversation_id db))
          (state_of-anchor (turns conversation_id db) found) h in
      let limit = state.total_message_count - cfg.verbatim - state.summary_upto_count in
      let rest = drop state.summary_upto_count (turns conversation_id db) in
      let short = slice_within limit rest found in
      let rest_length = length-drop state.summary_upto_count (turns conversation_id db) in
      let inside = known.within in
      subst (Waits compress (turns conversation_id db))
        (some_eq (
          if_some (is_empty (if_there (take limit rest) found)) _ p (
            if_some (ltb limit 2) _ p (
              if_some (leb (state.total_message_count - cfg.verbatim) state.summary_upto_count) _ p
                (if_some (leb state.total_message_count cfg.threshold) _ p e)))))
        (record {
          within = omega arith;
          summarised = known.summarised;
          next = slice_lem limit rest found;
        })

  -- Between the steps, the summary is one of what it counts, and so will be those that are awaited.
  pub record Sound (compress : Option Text → List Message → ℕ → Option Text) (s : Store)
      : Type 0 where
    pub anchored :
        Anchored compress (turns conversation_id s.db) (anchor_of conversation_id tenant_id s.db)
    pub awaited : All (Waits compress (turns conversation_id s.db)) s.waiting

  -- A write that only adds turns, and sets the summary to a sound one.
  grown :
      (compress : Option Text → List Message → ℕ → Option Text) (s : Store) (db : Db)
      → (more : List Message) → (turns conversation_id db ≡ turns conversation_id s.db ++ more)
      → Anchored compress (turns conversation_id s.db) (anchor_of conversation_id tenant_id db)
      → Sound compress s
      → Sound compress (record s { db = db })
  grown compress s db more e a h = record {
    anchored =
        subst (λ xs. Anchored compress xs (anchor_of conversation_id tenant_id db)) (sym e)
          (Anchored-append compress (turns conversation_id s.db) more _ a);
    awaited =
        subst (λ xs. All (Waits compress xs) s.waiting) (sym e)
          (All-map (λ p w. Waits-append compress (turns conversation_id s.db) more p w) s.waiting
            h.awaited);
  }

  message-Sound :
      (compress : Option Text → List Message → ℕ → Option Text) (s : Store)
      → (id role content tenant : Text) (now : ℕ) → Sound compress s
      → Sound compress
          (record s { db = or_same (add_message id role content tenant now s.db) s.db })
  unfolding or_same
  message-Sound compress s id role content tenant now h =
      elim (Option-cases (add_message id role content tenant now s.db)) [
        | inl e ↦ subst (λ o. Sound compress (record s { db = or_same o s.db })) (sym e) h
        | inr (db, e) ↦
            let (anchor_is, turns_are) =
              add_message-turns conversation_id tenant_id id role content tenant now s.db db e in
            subst (λ o. Sound compress (record s { db = or_same o s.db })) (sym e)
              (grown compress s db _ turns_are
                (subst (Anchored compress (turns conversation_id s.db)) (sym anchor_is) h.anchored)
                h)
      ]

  update-Sound :
      (compress : Option Text → List Message → ℕ → Option Text) (s : Store) (t : Text) (upto : ℕ)
      → Anchored compress (turns conversation_id s.db) (some t, upto)
      → Sound compress s
      → Sound compress
          (record s { db = update_conversation_summary conversation_id tenant_id t upto s.db })
  unfolding update_conversation_summary turns
  update-Sound compress s t upto a h =
      grown compress s (update_conversation_summary conversation_id tenant_id t upto s.db) []
        (sym (append-nil (turns conversation_id s.db)))
        (subst (Anchored compress (turns conversation_id s.db))
          (sym (update_conversation_summary-anchor conversation_id tenant_id t upto s.db))
          (chosen (first (is_of conversation_id tenant_id) s.db.conversations)))
        h
    where
      chosen :
          (o : Option Conversation)
          → Anchored compress
              (turns conversation_id s.db)
              (elim o [ none ↦ (none, 0) | some c ↦ (some t, upto) ])
      chosen none = Anchored-nothing compress (turns conversation_id s.db)
      chosen (some c) = a

  replied-Sound :
      (compress : Option Text → List Message → ℕ → Option Text) (cfg : Limits) (s : Store)
      → (now : ℕ) (p : Plan) → Waits compress (turns conversation_id s.db) p
      → Sound compress s
      → Sound compress (record s { db = replied compress cfg conversation_id tenant_id now p s.db })
  unfolding replied absorb
  replied-Sound compress cfg s now p w h =
      elim (Option-cases (compress p.session_summary p.new_span now)) [
        | inl e ↦ subst after (sym e) h
        | inr (t, e) ↦ subst after (sym e) (
            message-Sound compress
              (record s {
                db =
                    update_conversation_summary conversation_id tenant_id t
                      (p.summary_upto + length p.new_span) s.db;
              })
              conversation_id (codes "context_summary") t tenant_id now
              (update-Sound compress s t (p.summary_upto + length p.new_span)
                (Waits-reply compress (turns conversation_id s.db) p now t w e) h))
      ]
    where
      after : Option Text → Type 0
      after o = Sound compress (record s {
        db = elim o [
          | none ↦ s.db
          | some summary ↦ absorb conversation_id tenant_id now p summary s.db
        ];
      })

  step-Sound :
      (compress : Option Text → List Message → ℕ → Option Text) (cfg : Limits) (s : Store)
      → (event : Event) → Sound compress s
      → Sound compress (step compress cfg conversation_id tenant_id s event)
  unfolding step begin replied_first
  step-Sound compress cfg s (message id role content tenant now) h =
      message-Sound compress s id role content tenant now h
  step-Sound compress cfg s begin_compression h =
      elim (Option-cases (plan cfg conversation_id tenant_id s.db)) [
        | inl e ↦ subst after (sym e) h
        | inr (p, e) ↦ subst after (sym e) (record {
          anchored = h.anchored;
          awaited =
              All-append _ s.waiting (p ∷ []) h.awaited
                (plan-Waits compress cfg s.db p h.anchored e, tt);
        })
      ]
    where
      after : Option Plan → Type 0
      after o =
          Sound compress (elim o [ none ↦ s | some p ↦ record s { waiting = s.waiting ++ p ∷ [] } ])
  step-Sound compress cfg s (reply n now) h =
      let rest =
        All-append _ (take n s.waiting) (drop (suc n) s.waiting) (All-take _ n s.waiting h.awaited)
          (All-drop _ (suc n) s.waiting h.awaited) in
      first_replies (drop n s.waiting) (All-drop _ n s.waiting h.awaited)
        (record { anchored = h.anchored; awaited = rest })
    where
      first_replies :
          (ps : List Plan)
          → All (Waits compress (turns conversation_id s.db)) ps
          → Sound compress (record s { waiting = take n s.waiting ++ drop (suc n) s.waiting })
          → Sound compress (record {
            db = replied_first compress cfg conversation_id tenant_id now ps s.db;
            waiting = take n s.waiting ++ drop (suc n) s.waiting;
          })
      first_replies [] w k = k
      first_replies (p ∷ ps) w k =
          replied-Sound compress cfg
            (record s { waiting = take n s.waiting ++ drop (suc n) s.waiting }) now p w.0 k

-- The summary of a conversation is always the summarizer's, of just the first messages that the
-- store counts, and it counts no more than there are: from a store where this is so, it stays so
-- whatever messages come, whatever compressions begin, and in whatever order the summarizer replies
-- to them, or fails.
pub steps-Sound :
    (compress : Option Text → List Message → ℕ → Option Text) (cfg : Limits)
    → (conversation_id tenant_id : Text) (events : List Event) (s : Store)
    → Sound conversation_id tenant_id compress s
    → Sound conversation_id tenant_id compress
        (steps compress cfg conversation_id tenant_id s events)
unfolding steps
steps-Sound compress cfg c t [] s h = h
steps-Sound compress cfg c t (e ∷ es) s h =
    steps-Sound compress cfg c t es (step compress cfg c t s e) (step-Sound c t compress cfg s e h)
