-- ===== src/Analytics/Consumer/Poison.antt =====
-- A batch that is stored, and a batch with a payload that makes no row.
use docintel.Common.{
  not, ◌&&◌, length-append, bind_none_later, leb, is_empty, if_true, bind_none, drop, if_false,
  subst, Option, ℕ, ◌≤◌, ◌+◌, ◌≡◌, refl, sym, ap, ◌∙◌, true, false, none, List, [], ◌∷◌, ◌++◌, Text,
  All, In, inl, inr, length, arith,
}
use docintel.Analytics.Row.{Payload, row_from_payload}
use docintel.Analytics.Consumer.{
  InsertEnd, insert_raises, succeeds, ack_raises, leb, is_empty, drop, Option, Batch, State, Event,
  arrives, claims, ticks, inserts, restarts, rows_of, begin_with, begin_flush, end_flush,
  insert_ends, note_arrival, received, flush_if_full, step, steps,
}

-- The process goes on.
abbrev pub NoRestart : Event → Type 0
NoRestart (restarts cut) = ⊥
NoRestart (arrives id) = Unit {0}
NoRestart (claims ids) = Unit {0}
NoRestart ticks = Unit {0}
NoRestart (inserts place outcome) = Unit {0}

module _ (parse_int parse_float : Text → Option ℕ) (entries : Text → Payload) (batch_size : ℕ) where
  rows_of-poison :
      (bad : Text) (ids : List Text)
      → row_from_payload parse_int parse_float (entries bad) ≡ none
      → In bad ids
      → rows_of parse_int parse_float entries batch_size ids ≡ none
  unfolding rows_of
  rows_of-poison bad [] e h = absurd h.lower
  rows_of-poison bad (j ∷ ids) e (inl q) =
      bind_none _ _ (ap (λ i. row_from_payload parse_int parse_float (entries i)) (sym q) ∙ e)
  rows_of-poison bad (j ∷ ids) e (inr h) =
      bind_none_later _ _ (λ r. bind_none _ _ (rows_of-poison bad ids e h))

  -- The task has ended with an empty buffer, and the group has got these messages.
  abbrev pub Dead : List Text → State → Type 0
  Dead delivered s = (s.alive ≡ false) × ((s.buffer ≡ []) × (s.delivered ≡ delivered))

  insert_ends-Dead :
      (ds : List Text) (place : ℕ) (outcome : InsertEnd) (bs : List Batch) (s : State)
      → Dead ds s
      → Dead ds (insert_ends parse_int parse_float entries batch_size place outcome bs s)
  unfolding insert_ends end_flush
  insert_ends-Dead ds place outcome [] s d = d
  insert_ends-Dead ds place succeeds (b ∷ later) s d = d
  insert_ends-Dead ds place (ack_raises acked in_run) (b ∷ later) s d =
      (ap (λ alive. alive && not in_run) d.0, d.1)
  insert_ends-Dead ds place insert_raises (b ∷ later) s d = d

  step-Dead :
      (ds : List Text) (e : Event) (s : State)
      → NoRestart e
      → Dead ds s
      → Dead ds (step parse_int parse_float entries batch_size e s)
  unfolding step
  step-Dead ds (arrives id) s n d = subst (Dead ds) (sym (if_false s.alive _ s d.0)) d
  step-Dead ds (claims ids) s n d = subst (Dead ds) (sym (if_false s.alive _ s d.0)) d
  step-Dead ds ticks s n d = subst (Dead ds) (sym (if_false s.alive _ s d.0)) d
  step-Dead ds (inserts place outcome) s n d =
      insert_ends-Dead ds place outcome (drop place s.inserting) s d
  step-Dead ds (restarts cut) s n d = absurd n

  steps-Dead :
      (ds : List Text) (es : List Event) (s : State)
      → All NoRestart es
      → Dead ds s
      → Dead ds (steps parse_int parse_float entries batch_size es s)
  unfolding steps
  steps-Dead ds [] s n d = d
  steps-Dead ds (e ∷ es) s n d = steps-Dead ds es _ n.1 (step-Dead ds e s n.0 d)

  longer : (ids : List Text) (id : Text) → is_empty (ids ++ id ∷ []) ≡ false
  longer [] id = refl
  longer (i ∷ ids) id = refl

  is_full :
      (ids : List Text) (id : Text)
      → batch_size ≤ length ids + 1
      → leb batch_size (length (ids ++ id ∷ [])) ≡ true
  is_full ids id h = ground (arith, length-append ids (id ∷ []), h)

  arrival-Dead :
      (id bad : Text) (s : State)
      → s.alive ≡ true
      → batch_size ≤ length s.buffer + 1
      → row_from_payload parse_int parse_float (entries bad) ≡ none
      → In bad (s.buffer ++ id ∷ [])
      → Dead (s.delivered ++ id ∷ []) (step parse_int parse_float entries batch_size (arrives id) s)
  unfolding step flush_if_full note_arrival begin_flush begin_with received
  arrival-Dead id bad s a full e h =
      let t = note_arrival parse_int parse_float entries batch_size id s in
      let ended =
        if_true (leb batch_size (length t.buffer)) _ _ (is_full s.buffer id full)
        ∙ if_false (is_empty t.buffer) _ _ (longer s.buffer id)
        ∙ ap (λ o. begin_with parse_int parse_float entries batch_size o t)
            (rows_of-poison bad t.buffer e h) in
      subst (Dead (s.delivered ++ id ∷ []))
        (sym (if_true s.alive _ s a ∙ ap (received parse_int parse_float entries batch_size) ended))
        (refl, (refl, refl))

-- One payload that makes no row stops the consumer: if it is in the batch that an arriving message
-- fills, then the task of `run` ends, and until the process restarts no further message is
-- received, whatever happens.
pub poison_stops :
    (parse_int parse_float : Text → Option ℕ) (entries : Text → Payload) (batch_size : ℕ)
    (id bad : Text) (s : State) (es : List Event)
    → s.alive ≡ true
    → batch_size ≤ length s.buffer + 1
    → row_from_payload parse_int parse_float (entries bad) ≡ none
    → In bad (s.buffer ++ id ∷ [])
    → All NoRestart es
    → Dead parse_int parse_float entries batch_size (s.delivered ++ id ∷ []) (
        steps parse_int parse_float entries batch_size es
          (step parse_int parse_float entries batch_size (arrives id) s))
poison_stops parse_int parse_float entries batch_size id bad s es a full e h n =
    steps-Dead parse_int parse_float entries batch_size _ es _ n
      (arrival-Dead parse_int parse_float entries batch_size id bad s a full e h)
