-- ===== src/Rag/Query/Drain.antt =====
-- What `query` makes of the events of a stream.
use docintel.Common.{◌≡◌, List, [], ◌∷◌, ◌++◌, Text, All, strip, In}
use docintel.Rag.Types.{Failure, PipelineEvent, token_event, sources_event, error_event}
use docintel.Rag.Gate.{Settings}
use docintel.Rag.Engine.{Engine, Request}
use docintel.Rag.Stream.{stream}
use docintel.Rag.Stream.Access.{Cites}
use docintel.Rag.Query.{Gathered, Response}

-- The text of the tokens of an answer.
abbrev pub answer_text : List PipelineEvent → Text
answer_text [] = []
answer_text (token_event t ∷ evs) = t ++ answer_text evs
answer_text (_ ∷ evs) = answer_text evs

abbrev pub HasError : List PipelineEvent → Type 0
HasError evs = (m : Failure) × In (error_event m) evs

module _ {V S : Type 0} (cfg : Settings) (e : Engine V S) (req : Request) where
  -- What is gathered of some events.
  record Drains (g : Gathered) (evs : List PipelineEvent) (h : Gathered) : Type 0 where
    answer : h.full_answer ≡ g.full_answer ++ answer_text evs
    cites :
        Cites cfg e req (sources_event g.sources)
        → All (Cites cfg e req) evs
        → Cites cfg e req (sources_event h.sources)

  -- A response whose answer is the text of the tokens, and whose sources the caller may read.
  pub record Answers (r : Response) : Type 0 where
    pub answer : r.answer ≡ strip (answer_text (stream cfg e req).events)
    pub cites : Cites cfg e req (sources_event r.sources)
