-- ===== src/Analytics/Consumer/Flush.antt =====
-- A flush that ends well.
use docintel.Common.{
  if_false, text_eq_iff, subst, text_eq, if_true, In-append_right, Bool-cases, Option, keep, not,
  Bool, ℕ, ◌≡◌, refl, sym, ap, ◌∙◌, true, false, some, List, [], ◌∷◌, ◌++◌, Text, In, inl, inr,
  length, drop-length, is_empty,
}
use docintel.Analytics.Row.{Cell, Payload}
use docintel.Analytics.Consumer.{
  succeeds, text_eq, Option, keep, not, Bool, Batch, State, ticks, inserts, ack, ack_all, rows_of,
  begin_with, begin_flush, end_flush, insert_ends, step, steps,
}
use docintel.Analytics.Consumer.Delivery.{Stored, rows_of-Stored}

keep-In :
    (p : Text → Bool) (i : Text) (ids : List Text) → In i (keep p ids) → In i ids × (p i ≡ true)
keep-In p i [] h = absurd h.lower
keep-In p i (j ∷ ids) h = elim (Bool-cases (p j)) [
  | inl e ↦ elim (subst (In i) (if_true (p j) _ _ e) h) [
    | inl q ↦ (inl q, ap p q ∙ e)
    | inr k ↦ let (a, b) = keep-In p i ids k in (inr a, b)
  ]
  | inr e ↦ let (a, b) = keep-In p i ids (subst (In i) (if_false (p j) _ _ e) h) in (inr a, b)
]

text_eq_clash : (i j : Text) → i ≡ j → not (text_eq i j) ≡ true → ⊥
text_eq_clash i j q h = cc ((text_eq_iff i j).1 q, h)

ack_all-gone :
    (i : Text) (more ids : List Text) → In i (ack_all more ids) → In i ids × (In i more → ⊥)
unfolding ack_all ack
ack_all-gone i [] ids h = (h, λ k. absurd k.lower)
ack_all-gone i (j ∷ more) ids h =
    let (a, out) = ack_all-gone i more (keep (λ k. not (text_eq k j)) ids) h in
    let (b, e) = keep-In _ i ids a in (b, elim [ inl q ↦ text_eq_clash i j q e | inr k ↦ out k ])

module _ (parse_int parse_float : Text → Option ℕ) (entries : Text → Payload) (batch_size : ℕ) where
  -- The messages are in the table and no longer pending, and nothing is left to flush.
  pub record Flushed (ids : List Text) (s : State) : Type 0 where
    pub stored :
        (id : Text) → In id ids → Stored parse_int parse_float entries batch_size s.table id
    pub acked : (id : Text) → In id ids → In id s.unacked → ⊥
    pub emptied : s.buffer ≡ []

  inserted :
      (s : State) (rows : List (List Cell)) (more : List Batch)
      → rows_of parse_int parse_float entries batch_size s.buffer ≡ some rows
      → Flushed s.buffer (
          insert_ends parse_int parse_float entries batch_size
            (length s.inserting)
            succeeds
            ((record { msg_ids = s.buffer; rows = rows }) ∷ more)
            (record s {
              buffer = [];
              inserting = s.inserting ++ (record { msg_ids = s.buffer; rows = rows }) ∷ [];
            }))
  unfolding insert_ends end_flush
  inserted s rows more e = record {
    stored = λ id h.
        let (r, q, i) =
          rows_of-Stored parse_int parse_float entries batch_size id s.buffer rows e h in
        (r, q, In-append_right r s.table rows i);
    acked = λ id h k. (ack_all-gone id s.buffer s.unacked k).1 h;
    emptied = refl;
  }

-- If every buffered payload makes a row, then a flush whose insert and whose acknowledgements all go
-- well puts the rows of all buffered messages into the table, leaves none of them pending, and
-- empties the buffer.
pub flush-Flushed :
    (parse_int parse_float : Text → Option ℕ) (entries : Text → Payload) (batch_size : ℕ)
    (s : State) (rows : List (List Cell))
    → s.alive ≡ true
    → is_empty s.buffer ≡ false
    → rows_of parse_int parse_float entries batch_size s.buffer ≡ some rows
    → Flushed parse_int parse_float entries batch_size s.buffer (
        steps parse_int parse_float entries batch_size
          (ticks ∷ inserts (length s.inserting) succeeds ∷ [])
          s)
unfolding steps step begin_flush begin_with
flush-Flushed parse_int parse_float entries batch_size s rows a b e =
    let batch : Batch = record { msg_ids = s.buffer; rows = rows } in
    let flushed =
      if_true s.alive _ s a
      ∙ ap (λ p. p.1)
          (if_false (is_empty s.buffer) _ _ b
            ∙ ap (λ o. begin_with parse_int parse_float entries batch_size o s) e) in
    subst (Flushed parse_int parse_float entries batch_size s.buffer)
      (sym (
        ap (step parse_int parse_float entries batch_size (inserts (length s.inserting) succeeds))
          flushed
        ∙ ap
            (λ bs.
              insert_ends parse_int parse_float entries batch_size (length s.inserting) succeeds bs
                (begin_with parse_int parse_float entries batch_size (some rows) s).1)
            (drop-length s.inserting (batch ∷ []))))
      (inserted parse_int parse_float entries batch_size s rows [] e)
