-- ===== src/Ingestion/Jobs/Stream.antt =====
-- `JobRegistry.stream` of services/ingestion-service/src/job_registry.py as a machine: the code
-- between two yields or awaits is one step, and writers come in between.
pub mod Delivery
pub mod Progress
pub mod Wakeup
use docintel.Common.{
  ℕ, Bool, true, false, ◌&&◌, Option, none, some, List, [], ◌∷◌, ◌++◌, Text, length, drop, is_empty,
  if◌then◌else◌,
}
use docintel.Ingestion.Jobs.{
  JobEvent, Job, JobOp, Registry, apply_op, get_validated, snapshot_from, add_waiter, remove_waiter,
  clear_waiter, waiter_is_set,
}

-- Where the generator stands: at the head of its loop; at the yield of an event, with those still to
-- be sent; at `waiter.wait()`; or it has returned.
pub data Stage : Type 0 where
  looping waiting ended : Stage
  sending : (rest : List JobEvent) → Stage

-- The generator's variables, and the events that it has yielded. Keepalive comments are left out.
pub record Subscriber : Type 0 where
  pub waiter : ℕ
  pub pos : ℕ
  pub stage : Stage
  pub sent : List JobEvent

-- What follows the `for` loop: return, or clear the waiter and wait.
unfoldable pub after_replay : Job → Subscriber → Job × Subscriber
after_replay job s =
    if job.done && is_empty (drop s.pos job.events)
    then (remove_waiter s.waiter job, record s { stage = ended })
    else (clear_waiter s.waiter job, record s { stage = waiting })

-- The `for` loop, up to the next yield.
unfoldable pub send : Job → List JobEvent → Subscriber → Job × Subscriber
send job [] s = after_replay job s
send job (e ∷ es) s = (job, record s { stage = sending es; sent = s.sent ++ e ∷ [] })

unfoldable pub loop_head : Job → Subscriber → Job × Subscriber
unfolding snapshot_from
loop_head job s =
    let (events, pos) = snapshot_from job s.pos in send job events (record s { pos = pos })

-- The generator runs on; at `wait` it does so only when its waiter is set.
unfoldable pub resume_at : Stage → Job → Subscriber → Job × Subscriber
resume_at looping job s = loop_head job s
resume_at waiting job s = if waiter_is_set s.waiter job then loop_head job s else (job, s)
resume_at ended job s = (job, s)
resume_at (sending rest) job s = send job rest s

abbrev pub resume : Job → Subscriber → Job × Subscriber
resume job s = resume_at s.stage job s

-- 25 seconds without a wake-up: a keepalive, and the head of the loop.
unfoldable pub stage_after : Stage → Stage
stage_after looping = looping
stage_after waiting = looping
stage_after ended = ended
stage_after (sending rest) = sending rest

unfoldable pub time_out : Job → Subscriber → Job × Subscriber
time_out job s = (job, record s { stage = stage_after s.stage })

pub data Action : Type 0 where
  writes : (op : JobOp) → Action
  resumes times_out : Action

unfoldable pub act : Action → Job × Subscriber → Job × Subscriber
act (writes op) (job, s) = (apply_op op job, s)
act resumes (job, s) = resume job s
act times_out (job, s) = time_out job s

unfoldable pub run : List Action → Job × Subscriber → Job × Subscriber
run [] st = st
run (a ∷ more) st = run more (act a st)

-- The generator's start: the validated job and a new waiter; `none` is the refusal.
unfoldable pub start : ℕ → Job → Job × Subscriber
start waiter job =
    (add_waiter waiter job, record { waiter = waiter; pos = 0; stage = looping; sent = [] })

unfoldable pub subscribe : Text → Text → ℕ → Registry → Option (Job × Subscriber)
subscribe job_id tenant_id waiter jobs = elim (get_validated job_id tenant_id jobs) [
  | none ↦ none
  | some job ↦ some (start waiter job)
]
