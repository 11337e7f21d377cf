-- ===== src/Analytics/Consumer/Delivery.antt =====
-- Each message that the bus yields is pending at Redis until its row is in the table.
use docintel.Common.{
  if_false, if_true, if◌then◌else◌, zero, suc, length, All-drop, All-take, drop, take, Bool, leb,
  is_empty, some_eq, subst, not, bind_some, Option, Bool-cases, ℕ, ◌≡◌, refl, sym, ap, ◌∙◌, none,
  some, List, [], ◌∷◌, ◌++◌, Text, text_eq, text_eq_iff, All, All-map, All-append, In,
  In-append_left, In-append_right, In-keep, inl, inr, ◌⊎◌,
}
use docintel.Analytics.Row.{Cell, Payload, row_from_payload}
use docintel.Analytics.Consumer.{
  InsertEnd, insert_raises, succeeds, ack_raises, suc, length, drop, received, take, insert_ends,
  Bool, note_arrival, leb, is_empty, begin_with, not, Option, Batch, State, Event, arrives, claims,
  ticks, inserts, restarts, ack, ack_all, rows_of, begin_flush, end_flush, cut_short, restart,
  flush_if_full, step, steps, new_state,
}

ack-In : (id j : Text) (ids : List Text) → In id ids → In id (ack j ids) ⊎ (id ≡ j)
unfolding ack
ack-In id j ids h = elim (Bool-cases (text_eq id j)) [
  | inl e ↦ inr ((text_eq_iff id j).0 e)
  | inr e ↦ inl (In-keep _ id ids (ap not e) h)
]

ack_all-In : (id : Text) (more ids : List Text) → In id ids → In id (ack_all more ids) ⊎ In id more
unfolding ack_all
ack_all-In id [] ids h = inl h
ack_all-In id (j ∷ more) ids h = elim (ack-In id j ids h) [
  | inr e ↦ inr (inl e)
  | inl k ↦ elim (ack_all-In id more (ack j ids) k) [ inl a ↦ inl a | inr b ↦ inr (inr b) ]
]

module _ (parse_int parse_float : Text → Option ℕ) (entries : Text → Payload) (batch_size : ℕ) where
  -- The row of the message is in the table.
  abbrev pub Stored : List (List Cell) → Text → Type 0
  Stored table id =
      (r : List Cell) × (row_from_payload parse_int parse_float (entries id) ≡ some r) × In r table

  -- The message is pending at Redis or stored.
  abbrev pub Kept : State → Text → Type 0
  Kept s id = In id s.unacked ⊎ Stored s.table id

  record Inv (s : State) : Type 0 where
    kept : All (Kept s) s.delivered
    batched :
        All
          (λ b. rows_of parse_int parse_float entries batch_size b.msg_ids ≡ some b.rows)
          s.inserting

  pub rows_of-Stored :
      (id : Text) (ids : List Text) (rows : List (List Cell))
      → rows_of parse_int parse_float entries batch_size ids ≡ some rows
      → In id ids
      → Stored rows id
  unfolding rows_of
  rows_of-Stored id [] rows e h = absurd h.lower
  rows_of-Stored id (j ∷ ids) rows e h =
      let (r, er, e') = bind_some (row_from_payload parse_int parse_float (entries j)) _ rows e in
      let (rest, es, e'') =
        bind_some (rows_of parse_int parse_float entries batch_size ids) _ rows e' in
      subst (λ rows. Stored rows id) (some_eq e'')
        (elim h [
          | inl q ↦
              (r, ap (λ i. row_from_payload parse_int parse_float (entries i)) q ∙ er, inl refl)
          | inr k ↦ let (r', e, i) = rows_of-Stored id ids rest es k in (r', e, inr i)
        ])

  -- A batch is inserted, and some of its messages are acknowledged.
  after_insert-Kept :
      (b : Batch) (acked : List Text) (s : State) (id : Text)
      → rows_of parse_int parse_float entries batch_size b.msg_ids ≡ some b.rows
      → ((j : Text) → In j acked → In j b.msg_ids)
      → Kept s id
      → In id (ack_all acked s.unacked) ⊎ Stored (s.table ++ b.rows) id
  after_insert-Kept b acked s id e f (inr (r, q, i)) = inr (r, q, In-append_left r s.table b.rows i)
  after_insert-Kept b acked s id e f (inl h) = elim (ack_all-In id acked s.unacked h) [
    | inl a ↦ inl a
    | inr k ↦
        let (r, q, i) = rows_of-Stored id b.msg_ids b.rows e (f id k) in
        inr (r, q, In-append_right r s.table b.rows i)
  ]

  begin_with-Inv :
      (o : Option (List (List Cell))) (s : State)
      → rows_of parse_int parse_float entries batch_size s.buffer ≡ o
      → Inv s
      → Inv (begin_with parse_int parse_float entries batch_size o s).1
  unfolding begin_with
  begin_with-Inv none s e v = record { kept = v.kept; batched = v.batched }
  begin_with-Inv (some rows) s e v = record {
    kept = v.kept;
    batched = All-append _ s.inserting _ v.batched (e, tt);
  }

  begin_flush-Inv :
      (s : State) → Inv s → Inv (begin_flush parse_int parse_float entries batch_size s).1
  unfolding begin_flush
  begin_flush-Inv s v = elim (Bool-cases (is_empty s.buffer)) [
    | inl e ↦ rw e v
    | inr e ↦ rw e (begin_with-Inv _ s refl v)
  ]

  flush_if_full-Inv :
      (s : State) → Inv s → Inv (flush_if_full parse_int parse_float entries batch_size s).1
  unfolding flush_if_full
  flush_if_full-Inv s v = elim (Bool-cases (leb batch_size (length s.buffer))) [
    | inl e ↦ rw e (begin_flush-Inv s v)
    | inr e ↦ rw e v
  ]

  note_arrival-Inv :
      (id : Text) (s : State)
      → Inv s
      → Inv (note_arrival parse_int parse_float entries batch_size id s)
  unfolding note_arrival
  note_arrival-Inv id s v = record {
    kept =
        All-append _ s.delivered (id ∷ [])
          (All-map
            (λ j. elim [ inl h ↦ inl (In-append_left j s.unacked (id ∷ []) h) | inr h ↦ inr h ])
            s.delivered v.kept)
          (inl (In-append_right id s.unacked (id ∷ []) (inl refl)), tt);
    batched = v.batched;
  }

  take-In : (n : ℕ) (ids : List Text) (j : Text) → In j (take n ids) → In j ids
  take-In zero ids j h = absurd h.lower
  take-In (suc n) [] j h = h
  take-In (suc n) (i ∷ ids) j (inl e) = inl e
  take-In (suc n) (i ∷ ids) j (inr h) = inr (take-In n ids j h)

  end_flush-Inv :
      (b : Batch) (outcome : InsertEnd) (s : State)
      → rows_of parse_int parse_float entries batch_size b.msg_ids ≡ some b.rows
      → Inv s
      → Inv (end_flush parse_int parse_float entries batch_size b outcome s)
  unfolding end_flush
  end_flush-Inv b insert_raises s e v = v
  end_flush-Inv b (ack_raises acked in_run) s e v = record {
    kept =
        All-map (λ id. after_insert-Kept b (take acked b.msg_ids) s id e (take-In acked b.msg_ids))
          s.delivered v.kept;
    batched = v.batched;
  }
  end_flush-Inv b succeeds s e v = record {
    kept = All-map (λ id. after_insert-Kept b b.msg_ids s id e (λ j h. h)) s.delivered v.kept;
    batched = v.batched;
  }

  insert_ends-Inv :
      (place : ℕ) (outcome : InsertEnd) (bs : List Batch) (s : State)
      → All (λ b. rows_of parse_int parse_float entries batch_size b.msg_ids ≡ some b.rows) bs
      → Inv s
      → Inv (insert_ends parse_int parse_float entries batch_size place outcome bs s)
  unfolding insert_ends
  insert_ends-Inv place outcome [] s h v = v
  insert_ends-Inv place outcome (b ∷ later) s h v =
      end_flush-Inv b outcome (record s { inserting = take place s.inserting ++ later }) h.0
        (record {
          kept = v.kept;
          batched =
              All-append _ (take place s.inserting) later (All-take _ place s.inserting v.batched)
                h.1;
        })

  cut_short-Inv :
      (acked : ℕ) (bs : List Batch) (s : State)
      → All (λ b. rows_of parse_int parse_float entries batch_size b.msg_ids ≡ some b.rows) bs
      → Inv s
      → Inv (cut_short parse_int parse_float entries batch_size acked bs s)
  unfolding cut_short
  cut_short-Inv acked [] s h v = v
  cut_short-Inv acked (b ∷ later) s h v = record {
    kept =
        All-map
          (λ id. after_insert-Kept b (take acked b.msg_ids) s id h.0 (take-In acked b.msg_ids))
          s.delivered v.kept;
    batched = v.batched;
  }

  restart-Inv : (s : State) → Inv s → Inv (restart parse_int parse_float entries batch_size s)
  unfolding restart
  restart-Inv s v = record { kept = v.kept; batched = tt }

  received-Inv :
      (p : Bool × State) → Inv p.1 → Inv (received parse_int parse_float entries batch_size p)
  unfolding received
  received-Inv (ok, s) v = record { kept = v.kept; batched = v.batched }

  if_alive : (s t : State) → Inv t → Inv s → Inv (if s.alive then t else s)
  if_alive s t h k = elim (Bool-cases s.alive) [
    | inl e ↦ subst Inv (sym (if_true s.alive t s e)) h
    | inr e ↦ subst Inv (sym (if_false s.alive t s e)) k
  ]

  step-Inv :
      (e : Event) (s : State) → Inv s → Inv (step parse_int parse_float entries batch_size e s)
  unfolding step
  step-Inv (arrives id) s v =
      if_alive s _ (received-Inv _ (flush_if_full-Inv _ (note_arrival-Inv id s v))) v
  step-Inv (claims ids) s v =
      if_alive s _ (flush_if_full-Inv _ (record { kept = v.kept; batched = v.batched })) v
  step-Inv ticks s v = if_alive s _ (begin_flush-Inv s v) v
  step-Inv (inserts place outcome) s v =
      insert_ends-Inv place outcome (drop place s.inserting) s
        (All-drop _ place s.inserting v.batched) v
  step-Inv (restarts none) s v = restart-Inv s v
  step-Inv (restarts (some (place, acked))) s v =
      restart-Inv _
        (cut_short-Inv acked (drop place s.inserting) s (All-drop _ place s.inserting v.batched) v)

  steps-Inv :
      (es : List Event) (s : State)
      → Inv s
      → Inv (steps parse_int parse_float entries batch_size es s)
  unfolding steps
  steps-Inv [] s v = v
  steps-Inv (e ∷ es) s v = steps-Inv es _ (step-Inv e s v)

-- At least once: whatever the order of arrivals, claims, flushes, inserts and acknowledgements that
-- raise, payloads that raise, and restarts (also between an insert and its acknowledgements), every
-- message that the bus yielded to the consumer is still pending at Redis or has its row in the
-- table.
pub steps-Kept :
    (parse_int parse_float : Text → Option ℕ) (entries : Text → Payload) (batch_size : ℕ)
    (es : List Event)
    → let s = steps parse_int parse_float entries batch_size es new_state in
      All (Kept parse_int parse_float entries batch_size s) s.delivered
steps-Kept parse_int parse_float entries batch_size es =
    (steps-Inv parse_int parse_float entries batch_size es new_state
      (record { kept = tt; batched = tt })).kept
