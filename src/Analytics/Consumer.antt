-- ===== src/Analytics/Consumer.antt =====
-- `AnalyticsStreamConsumer` of services/analytics-service-py/src/stream_consumer.py, with what Redis
-- and ClickHouse hold. A message is its id in the stream; `entries` is the stream's content.
pub mod Delivery
pub mod Poison
pub mod Flush
mod Examples
use docintel.Common.{
  ◌>>=◌, any, ℕ, ◌+◌, suc, Bool, true, false, not, ◌&&◌, Option, none, some, List, [], ◌∷◌, ◌++◌,
  Text, length, keep, leb, is_empty, take, drop, text_eq, if◌then◌else◌,
}
use docintel.Analytics.Row.{Cell, Payload, row_from_payload}

-- A batch between its two halves of `_flush`: `msg_ids` and `rows`.
pub record Batch : Type 0 where
  pub msg_ids : List Text
  pub rows : List (List Cell)

-- The consumer (whether its task runs, its buffer, the batches being inserted, its counters), the
-- messages that `consume` has yielded so far, those pending at Redis, and the table. The messages
-- that the bus drops itself, since they are no JSON, are none of these.
pub record State : Type 0 where
  pub alive : Bool
  pub buffer : List Text
  pub inserting : List Batch
  pub batches_flushed : ℕ
  pub events_flushed : ℕ
  pub delivered : List Text
  pub unacked : List Text
  pub table : List (List Cell)

-- How the insert of a batch and the loop of acknowledgements behind it end: the insert raises; both
-- go well; or the insert goes well, that many messages are acknowledged, and the next `ack` raises,
-- in the task of `run` or in another loop.
pub data InsertEnd : Type 0 where
  insert_raises : InsertEnd
  succeeds : InsertEnd
  ack_raises : (acked : ℕ) (in_run : Bool) → InsertEnd

pub data Event : Type 0 where
  -- `consume` yields a message.
  arrives : (id : Text) → Event
  -- `claim_idle` returns messages; those that are not pending are not among them.
  claims : (ids : List Text) → Event
  -- The periodic flush begins.
  ticks : Event
  -- The insert of the batch at that place ends.
  inserts : (place : ℕ) (outcome : InsertEnd) → Event
  -- The process ends and starts again; if a batch is named, its insert went well and that many of
  -- its messages were acknowledged before.
  restarts : (cut : Option (ℕ × ℕ)) → Event

-- `ack`.
unfoldable pub ack : Text → List Text → List Text
ack id ids = keep (λ j. not (text_eq j id)) ids

unfoldable pub ack_all : List Text → List Text → List Text
ack_all [] ids = ids
ack_all (id ∷ more) ids = ack_all more (ack id ids)

-- The messages of `ids` that are in `held`.
unfoldable pub among : List Text → List Text → List Text
among held ids = keep (λ id. any (λ j. text_eq j id) held) ids

module _ (parse_int parse_float : Text → Option ℕ) (entries : Text → Payload) (batch_size : ℕ) where
  unfoldable pub rows_of : List Text → Option (List (List Cell))
  rows_of [] = some []
  rows_of (id ∷ ids) = do
    r ← row_from_payload parse_int parse_float (entries id)
    rest ← rows_of ids
    some (r ∷ rest)

  -- `_flush` up to the insert; in the first part, false is the exception that a payload raises.
  unfoldable pub begin_with : Option (List (List Cell)) → State → Bool × State
  begin_with none s = (false, record s { buffer = [] })
  begin_with (some rows) s = (
    true,
    record s {
      buffer = [];
      inserting = s.inserting ++ (record { msg_ids = s.buffer; rows = rows }) ∷ [];
    },
  )

  unfoldable pub begin_flush : State → Bool × State
  begin_flush s = if is_empty s.buffer then (true, s) else begin_with (rows_of s.buffer) s

  -- `_flush` behind the insert.
  unfoldable pub end_flush : Batch → InsertEnd → State → State
  end_flush b insert_raises s = s
  end_flush b succeeds s = record s {
    table = s.table ++ b.rows;
    unacked = ack_all b.msg_ids s.unacked;
    batches_flushed = suc s.batches_flushed;
    events_flushed = s.events_flushed + length b.rows;
  }
  end_flush b (ack_raises acked in_run) s = record s {
    alive = s.alive && not in_run;
    table = s.table ++ b.rows;
    unacked = ack_all (take acked b.msg_ids) s.unacked;
  }

  -- The insert of the first batch of a list ends.
  unfoldable pub insert_ends : ℕ → InsertEnd → List Batch → State → State
  insert_ends place outcome [] s = s
  insert_ends place outcome (b ∷ later) s =
      end_flush b outcome (record s { inserting = take place s.inserting ++ later })

  -- It ends well, and the process ends after `acked` acknowledgements.
  unfoldable pub cut_short : ℕ → List Batch → State → State
  cut_short acked [] s = s
  cut_short acked (b ∷ later) s = record s {
    table = s.table ++ b.rows;
    unacked = ack_all (take acked b.msg_ids) s.unacked;
  }

  unfoldable pub restart : State → State
  restart s = record s { alive = true; buffer = []; inserting = [] }

  -- `if full: await self._flush()`.
  unfoldable pub flush_if_full : State → Bool × State
  flush_if_full s = if leb batch_size (length s.buffer) then begin_flush s else (true, s)

  unfoldable pub note_arrival : Text → State → State
  note_arrival id s = record s {
    buffer = s.buffer ++ id ∷ [];
    delivered = s.delivered ++ id ∷ [];
    unacked = s.unacked ++ id ∷ [];
  }

  unfoldable pub received : Bool × State → State
  received (ok, s) = record s { alive = ok }

  -- An exception ends the task of `run`; the other loops log it.
  unfoldable pub step : Event → State → State
  step (arrives id) s = if s.alive then received (flush_if_full (note_arrival id s)) else s
  step (claims ids) s =
      if s.alive
      then (flush_if_full (record s { buffer = s.buffer ++ among s.unacked ids })).1
      else s
  step ticks s = if s.alive then (begin_flush s).1 else s
  step (inserts place outcome) s = insert_ends place outcome (drop place s.inserting) s
  step (restarts none) s = restart s
  step (restarts (some (place, acked))) s = restart (cut_short acked (drop place s.inserting) s)

  unfoldable pub steps : List Event → State → State
  steps [] s = s
  steps (e ∷ es) s = steps es (step e s)

abbrev pub new_state : State
new_state = record {
  alive = true;
  buffer = [];
  inserting = [];
  batches_flushed = 0;
  events_flushed = 0;
  delivered = [];
  unacked = [];
  table = [];
}
