-- ===== src/Ingestion/Worker.antt =====
-- services/ingestion-service/src/stream_worker.py: the queues of `run_stream_worker`, which wait for
-- their dispatch, one for each tenant.
pub mod Handler
pub mod Fairness
mod Examples
use docintel.Common.{
  ℕ, suc, ◌+◌, Option, none, some, List, [], ◌∷◌, ◌++◌, Text, codes, length, Dict, lookup, insert,
  is_empty, if◌then◌else◌,
}

-- `payload.get(a) or payload.get(b, default)`; a missing or empty value counts as missing, but a
-- second value that is there is taken as it is.
unfoldable pub get_either : Dict Text → Text → Text → Text → Text
get_either payload a b default = elim (lookup a payload) [
  | none ↦ elim (lookup b payload) [ none ↦ default | some v ↦ v ]
  | some v ↦ if is_empty v then elim (lookup b payload) [ none ↦ default | some w ↦ w ] else v
]

-- A message: its id, and its payload.
abbrev pub Message : Type 0
Message = Text × Dict Text

abbrev pub Queues : Type 0
Queues = Dict (List Message)

unfoldable pub tenant_of : Message → Text
tenant_of (id, payload) =
    get_either payload (codes "tenantId") (codes "tenant_id") (codes "default")

-- `tenant_queues[tenant].append(...)`, at the tenant's list, which is created if there is none.
unfoldable pub append_to : Text → Message → Queues → Option (List Message) → Queues
append_to t msg queues none = insert t (msg ∷ []) queues
append_to t msg queues (some waiting) = insert t (waiting ++ msg ∷ []) queues

unfoldable pub enqueue : Message → Queues → Queues
enqueue msg queues = append_to (tenant_of msg) msg queues (lookup (tenant_of msg) queues)

-- `_dispatch_queued`: the messages for which tasks are created, and the queues after it. A queue
-- that is empty afterwards is deleted, and so none is empty before.
unfoldable pub dispatch_queued : Queues → List Message × Queues
dispatch_queued [] = ([], [])
dispatch_queued ((t, []) ∷ queues) =
    let (started, rest) = dispatch_queued queues in (started, (t, []) ∷ rest)
dispatch_queued ((t, m ∷ []) ∷ queues) =
    let (started, rest) = dispatch_queued queues in (m ∷ started, rest)
dispatch_queued ((t, m ∷ m' ∷ ms) ∷ queues) =
    let (started, rest) = dispatch_queued queues in (m ∷ started, (t, m' ∷ ms) ∷ rest)

-- The body of the `async for`.
unfoldable pub receive : Message → Queues → List Message × Queues
receive msg queues = dispatch_queued (enqueue msg queues)

-- `_claim_and_requeue`, with what `claim_idle` returned.
unfoldable pub enqueue_all : List Message → Queues → Queues
enqueue_all [] queues = queues
enqueue_all (m ∷ ms) queues = enqueue_all ms (enqueue m queues)

unfoldable pub claim : List Message → Queues → List Message × Queues
claim claimed queues =
    let waiting = enqueue_all claimed queues in
    if is_empty claimed then ([], waiting) else dispatch_queued waiting

pub data Event : Type 0 where
  receives : (msg : Message) → Event
  claims : (claimed : List Message) → Event

unfoldable pub step : Event → Queues → List Message × Queues
step (receives msg) queues = receive msg queues
step (claims claimed) queues = claim claimed queues

-- The tasks that are created, in order, and the queues after the events.
unfoldable pub run : List Event → Queues → List Message × Queues
run [] queues = ([], queues)
run (e ∷ es) queues =
    let (started, queues') = step e queues in
    let (more, queues'') = run es queues' in (started ++ more, queues'')
