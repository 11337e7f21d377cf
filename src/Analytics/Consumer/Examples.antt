-- ===== src/Analytics/Consumer/Examples.antt =====
-- The consumer at small data.
use docintel.Common.{
  if◌then◌else◌, lookup, text_eq, ℕ, ◌≡◌, refl, true, none, some, List, [], ◌∷◌, Text, codes, All,
  inl, inr, arith, Option,
}
use docintel.Analytics.Row.{
  cells, cell, get, to_number, to_str, to_bool, Cell, Payload, text, number, row_from_payload,
}
use docintel.Analytics.Consumer.{
  succeeds, ack_raises, State, arrives, ticks, inserts, restarts, new_state, steps, step, rows_of,
}
use docintel.Analytics.Consumer.Delivery.{Kept, steps-Kept}
use docintel.Analytics.Consumer.Poison.{Dead, poison_stops}
use docintel.Analytics.Consumer.Flush.{Flushed, flush-Flushed}

-- No text is a number.
abbrev no_parse : Text → Option ℕ
no_parse t = none

-- One message has a latency that is no number.
abbrev entries : Text → Payload
entries id =
    if text_eq id (codes "bad")
    then (codes "latency_ms", text (codes "fast")) ∷ []
    else (codes "latency_ms", number 12) ∷ []

abbrev waiting_two : State
waiting_two = record new_state {
  buffer = codes "a" ∷ [];
  delivered = codes "a" ∷ [];
  unacked = codes "a" ∷ [];
}

bad_row : row_from_payload no_parse no_parse (entries (codes "bad")) ≡ none
unfolding row_from_payload cells cell get to_number to_str to_bool lookup text_eq rows_of
bad_row = refl

abbrev row_a : List Cell
row_a = elim (row_from_payload no_parse no_parse (entries (codes "a"))) [ none ↦ [] | some r ↦ r ]

good_rows : rows_of no_parse no_parse entries 2 (codes "a" ∷ []) ≡ some (row_a ∷ [])
unfolding row_from_payload cells cell get to_number to_str to_bool lookup text_eq rows_of
good_rows = refl

steps-Kept_example :
    let s =
      steps no_parse no_parse entries 2
        (arrives (codes "a") ∷ ticks ∷ inserts 0 (ack_raises 0 true) ∷ restarts none ∷ [])
        new_state in
    All (Kept no_parse no_parse entries 2 s) s.delivered
steps-Kept_example =
    steps-Kept no_parse no_parse entries 2
      (arrives (codes "a") ∷ ticks ∷ inserts 0 (ack_raises 0 true) ∷ restarts none ∷ [])

poison_stops_example : Dead no_parse no_parse entries 2 (codes "a" ∷ codes "bad" ∷ []) (
    steps no_parse no_parse entries 2
      (arrives (codes "b") ∷ [])
      (step no_parse no_parse entries 2 (arrives (codes "bad")) waiting_two))
poison_stops_example =
    poison_stops no_parse no_parse entries 2 (codes "bad") (codes "bad") waiting_two
      (arrives (codes "b") ∷ []) refl (omega arith) bad_row (inr (inl refl)) (tt, tt)

flush-Flushed_example :
    Flushed no_parse no_parse entries 2
      (codes "a" ∷ [])
      (steps no_parse no_parse entries 2 (ticks ∷ inserts 0 succeeds ∷ []) waiting_two)
flush-Flushed_example =
    flush-Flushed no_parse no_parse entries 2 waiting_two (row_a ∷ []) refl refl good_rows
