-- ===== src/Rag/Llm.antt =====
-- Step 12 of `RAGService.stream`: the callback that sorts the engine's chunks into the queue, and
-- the loop that turns the queue into events. The queue is a list here: one task fills it, in
-- order, and one empties it.
pub mod Order
use docintel.Common.{
  ℕ, Bool, not, ◌&&◌, Option, none, some, List, [], ◌∷◌, ◌++◌, Text, codes, is_empty, text_eq,
  if◌then◌else◌,
}
use docintel.Rag.Types.{PipelineEvent, thinking_token_event, token_event, status_event}
use docintel.Rag.Guard.{Guard, feed, finish}

-- What the stream reads of a `StreamingChunk`; an empty text is an absent or empty value.
pub record Chunk : Type 0 where
  pub content : Text
  pub reasoning : Text
  pub lmforge_status : Text
  pub usage : Option (ℕ × ℕ)

pub data Item : Type 0 where
  thinking status answer : Text → Item

-- `streaming_callback`: what it puts into the queue.
pub enqueue : Bool → Chunk → List Item
enqueue effective_thinking chunk =
    let has_reasoning = effective_thinking && not (is_empty chunk.reasoning) in
    let has_content = not (is_empty chunk.content) in
    if not (is_empty chunk.lmforge_status) && not has_content && not has_reasoning
    then status chunk.lmforge_status ∷ []
    else if has_reasoning
    then thinking chunk.reasoning ∷ []
    else if has_content
    then answer chunk.content ∷ []
    else []

pub enqueue_all : Bool → List Chunk → List Item
enqueue_all effective_thinking [] = []
enqueue_all effective_thinking (c ∷ cs) =
    enqueue effective_thinking c ++ enqueue_all effective_thinking cs

-- The last usage that a chunk carried.
pub last_usage : List Chunk → Option (ℕ × ℕ)
last_usage [] = none
last_usage (c ∷ cs) = elim (last_usage cs) [ some u ↦ some u | none ↦ c.usage ]

-- `stage="generating_answer" if text == "call2_prefill" else text`.
pub stage_name : Text → Text
stage_name t = if text_eq t (codes "call2_prefill") then codes "generating_answer" else t

-- The events of a released text: none if it is empty.
abbrev pub token_events : Text → List PipelineEvent
token_events [] = []
token_events (c ∷ s) = token_event (c ∷ s) ∷ []

-- What the loop has done when the queue is empty: its events, the parts of the thinking and of the
-- answer, and the guard.
pub record Drained : Type 0 where
  pub events : List PipelineEvent
  pub thinking_parts : List Text
  pub answer : Text
  pub guard : Guard

pub drain : Guard → List Item → Drained
drain g [] = record { events = []; thinking_parts = []; answer = []; guard = g }
drain g (thinking t ∷ items) =
    let rest = drain g items in
    record rest {
      events = thinking_token_event t ∷ rest.events;
      thinking_parts = t ∷ rest.thinking_parts;
    }
drain g (status t ∷ items) =
    let rest = drain g items in record rest { events = status_event (stage_name t) ∷ rest.events }
drain g (answer t ∷ items) =
    let (released, g') = feed g t in
    let rest = drain g' items in
    record rest { events = token_events released ++ rest.events; answer = released ++ rest.answer }

-- The loop and the call of `finish` behind it.
pub run_queue : Guard → List Item → Drained
run_queue g items =
    let d = drain g items in
    let (tail, g') = finish d.guard in
    record d { events = d.events ++ token_events tail; answer = d.answer ++ tail; guard = g' }
