-- ===== src/Rag/Stream/Access.antt =====
-- What a stream cites: retrieved chunks that the policy let through, or a cache entry that the
-- caller may read.
use docintel.Rag.Stream.Retrieved.{Found}
use docintel.Common.{◌≡◌, ◌⊎◌, some, All}
use docintel.Rag.Types.{Document, PipelineEvent, sources_event}
use docintel.Rag.Opa.Closed.{IsAllowed}
use docintel.Rag.Gate.{Settings}
use docintel.Rag.Cache.{CachePoint}
use docintel.Rag.Cache.Access.{Readable}
use docintel.Rag.Sources.Cited.{Cited}
use docintel.Rag.Engine.{Engine, Request, Outcome}

module _ {V S : Type 0} (cfg : Settings) (e : Engine V S) (req : Request) where
  -- A chunk that the retriever returned for this request, and that the policy lets this caller
  -- read.
  abbrev Permitted : Document → Type 0
  Permitted d = IsAllowed e.policy req.user_context d × Found cfg e req d

  -- The sources of an event show permitted chunks, or are those of a readable cache entry.
  abbrev pub Cites : PipelineEvent → Type 0
  Cites (sources_event ss) =
      All (Cited Permitted) ss
      ⊎ ((p : CachePoint) × Readable req.tenant_id (some req.user_context) p × (ss ≡ p.sources))
  Cites _ = Unit

  abbrev AllCite : Outcome → Type 0
  AllCite o = All Cites o.events
