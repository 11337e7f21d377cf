-- ===== src/Rag/Conversations/History.antt =====
-- services/rag-service/src/pipelines/query.py: the history that a question is sent with, and its
-- compression. The compression awaits the summarizer, so it is a plan and what follows it.
use docintel.Common.{
  ℕ, suc, ◌+◌, ◌-◌, ◌/◌, Option, none, some, List, [], ◌∷◌, ◌++◌, Text, codes, take, drop, length,
  ltb, leb, is_empty, if◌then◌else◌,
}
use docintel.Rag.Conversations.{
  Message, Db, get_conversation_summary_state, get_messages_slice, get_recent_messages,
  update_conversation_summary, add_message,
}

-- `conversation_summary_threshold` and `conversation_verbatim_recent`.
pub record Limits : Type 0 where
  pub threshold : ℕ
  pub verbatim : ℕ

pub record History : Type 0 where
  pub summary : Option Text
  pub recent : List Message
  pub summarized_turns : ℕ
  pub verbatim_turns : ℕ

-- A summary as Python tests it.
unfoldable pub filled_summary : Option Text → Option Text
filled_summary none = none
filled_summary (some []) = none
filled_summary (some (c ∷ s)) = some (c ∷ s)

-- `_load_conversation_history`, where the database answers.
unfoldable pub load_conversation_history : Limits → Text → Text → Db → History
load_conversation_history cfg conversation_id tenant_id db =
    let state = get_conversation_summary_state conversation_id tenant_id db in
    let recent = get_recent_messages conversation_id tenant_id cfg.verbatim db in
    record {
      summary = filled_summary state.session_summary;
      recent = recent;
      summarized_turns = state.summary_upto_count / 2;
      verbatim_turns = length recent / 2;
    }

-- What a compression has read when it calls the summarizer.
pub record Plan : Type 0 where
  pub session_summary : Option Text
  pub summary_upto : ℕ
  pub new_span : List Message

-- `_maybe_compress_history`, up to the call of the summarizer.
unfoldable pub plan : Limits → Text → Text → Db → Option Plan
plan cfg conversation_id tenant_id db =
    let state = get_conversation_summary_state conversation_id tenant_id db in
    let upto = state.summary_upto_count in
    let evictable_end = state.total_message_count - cfg.verbatim in
    let new_span = get_messages_slice conversation_id tenant_id upto (evictable_end - upto) db in
    if leb state.total_message_count cfg.threshold
    then none
    else if leb evictable_end upto
    then none
    else if ltb (evictable_end - upto) 2
    then none
    else if is_empty new_span
    then none
    else some (record {
      session_summary = state.session_summary;
      summary_upto = upto;
      new_span = new_span;
    })

-- `add_message` of a caller that catches its error.
unfoldable pub or_same : Option Db → Db → Db
or_same none db = db
or_same (some d) db = d

-- What follows the summarizer's reply.
unfoldable pub absorb : Text → Text → ℕ → Plan → Text → Db → Db
absorb conversation_id tenant_id now p new_summary db =
    let updated =
      update_conversation_summary conversation_id tenant_id new_summary
        (p.summary_upto + length p.new_span) db in
    or_same
      (add_message conversation_id (codes "context_summary") new_summary tenant_id now updated)
      updated

-- `_persist_conversation`, without the start of the compression.
unfoldable pub persist_conversation : Text → Text → Text → Text → ℕ → Db → Db
persist_conversation conversation_id tenant_id question answer now db =
    elim (add_message conversation_id (codes "user") question tenant_id now db) [
      | none ↦ db
      | some asked ↦
          or_same (add_message conversation_id (codes "assistant") answer tenant_id now asked) asked
    ]

-- A conversation under way: the store, and the compressions that wait for the summarizer.
pub record Store : Type 0 where
  pub db : Db
  pub waiting : List Plan

-- A message of any conversation is added, a compression of this one begins, or the summarizer
-- replies to the `n`-th of those that wait.
pub data Event : Type 0 where
  message : Text → Text → Text → Text → ℕ → Event
  begin_compression : Event
  reply : ℕ → ℕ → Event

-- `compress` is what the summarizer makes of a summary and some messages, at a time; `none` is its
-- error.
module _ (compress : Option Text → List Message → ℕ → Option Text) (cfg : Limits)
    (conversation_id tenant_id : Text) where
  unfoldable pub begin : Store → Store
  begin s = elim (plan cfg conversation_id tenant_id s.db) [
    | none ↦ s
    | some p ↦ record s { waiting = s.waiting ++ p ∷ [] }
  ]

  -- The rest of a compression, after the reply.
  unfoldable pub replied : ℕ → Plan → Db → Db
  replied now p db = elim (compress p.session_summary p.new_span now) [
    | none ↦ db
    | some summary ↦ absorb conversation_id tenant_id now p summary db
  ]

  unfoldable pub replied_first : ℕ → List Plan → Db → Db
  replied_first now [] db = db
  replied_first now (p ∷ ps) db = replied now p db

  unfoldable pub step : Store → Event → Store
  step s (message id role content tenant now) = record s {
    db = or_same (add_message id role content tenant now s.db) s.db;
  }
  step s begin_compression = begin s
  step s (reply n now) = record {
    db = replied_first now (drop n s.waiting) s.db;
    waiting = take n s.waiting ++ drop (suc n) s.waiting;
  }

  unfoldable pub steps : Store → List Event → Store
  steps s [] = s
  steps s (e ∷ es) = steps (step s e) es
