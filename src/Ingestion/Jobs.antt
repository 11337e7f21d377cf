-- ===== src/Ingestion/Jobs.antt =====
-- services/ingestion-service/src/job_registry.py: the jobs in memory, and the generator that
-- streams a job's events to a subscriber. Times are in whole seconds.
pub mod Stream
pub mod Registry
mod Examples
use docintel.Common.{
  ◌+◌, ◌==◌, ℕ, ◌<◌, suc, Bool, true, false, ◌&&◌, Option, none, some, List, [], ◌∷◌, ◌++◌, Text,
  map, length, drop, keep, is_empty, any, not, ltb, if◌then◌else◌, Dict, lookup, insert, text_eq,
}

pub data JobEvent : Type 0 where
  total_event : (total : ℕ) → JobEvent
  progress_event : (processed total : ℕ) (filename domain : Text) (chunk_count : ℕ) → JobEvent
  done_event : (total_chunks processed : ℕ) → JobEvent
  error_event : (reason : Text) → JobEvent

-- A subscriber's `asyncio.Event`, by its identity, and whether it is set.
pub record Waiter : Type 0 where
  pub id : ℕ
  pub is_set : Bool

-- `_Job`.
pub record Job : Type 0 where
  pub tenant_id : Text
  pub datasets : List Text
  pub total_files : ℕ
  pub processed_files : ℕ
  pub done : Bool
  pub error : Option Text
  pub finished_at : Option ℕ
  pub events : List JobEvent
  pub waiters : List Waiter

-- `_MAX_EVENTS_KEPT` and `_TTL_AFTER_DONE`.
abbrev pub max_events_kept : ℕ
max_events_kept = 2000

abbrev pub ttl_after_done : ℕ
ttl_after_done = 300

pub new_job : Text → List Text → Job
new_job tenant_id datasets = record {
  tenant_id = tenant_id;
  datasets = datasets;
  total_files = 0;
  processed_files = 0;
  done = false;
  error = none;
  finished_at = none;
  events = [];
  waiters = [];
}

-- `push`: the event is kept while there is room, and every waiter is set.
pub push : JobEvent → Job → Job
push e job = record job {
  events = if ltb (length job.events) max_events_kept then job.events ++ e ∷ [] else job.events;
  waiters = map {A = Waiter} {B = Waiter} (λ w. record w { is_set = true }) job.waiters;
}

pub snapshot_from : Job → ℕ → List JobEvent × ℕ
snapshot_from job pos = (drop pos job.events, length job.events)

pub add_waiter : ℕ → Job → Job
add_waiter id job = record job {
  waiters = job.waiters ++ (record { id = id; is_set = false }) ∷ [];
}

pub remove_waiter : ℕ → Job → Job
remove_waiter id job = record job { waiters = keep (λ w. not (w.id == id)) job.waiters }

-- `waiter.clear()`.
pub clear_waiter : ℕ → Job → Job
clear_waiter id job = record job {
  waiters =
      map {A = Waiter} {B = Waiter} (λ w. if w.id == id then record w { is_set = false } else w)
        job.waiters;
}

pub waiter_is_set : ℕ → Job → Bool
waiter_is_set id job = any (λ w. w.id == id && w.is_set) job.waiters

-- What the writers do to a job: the bodies of `set_total`, `file_done`, `finish` and `fail`, the
-- last two at the time `now`.
pub data JobOp : Type 0 where
  op_total : (total : ℕ) → JobOp
  op_file : (filename domain : Text) (chunk_count : ℕ) → JobOp
  op_finish : (now total_chunks : ℕ) → JobOp
  op_fail : (now : ℕ) (reason : Text) → JobOp

unfoldable pub apply_op : JobOp → Job → Job
apply_op (op_total total) job = push (total_event total) (record job { total_files = total })
apply_op (op_file filename domain chunk_count) job =
    let processed = suc job.processed_files in
    push (progress_event processed job.total_files filename domain chunk_count)
      (record job { processed_files = processed })
apply_op (op_finish now total_chunks) job =
    push (done_event total_chunks job.processed_files)
      (record job { done = true; finished_at = some now })
apply_op (op_fail now reason) job =
    push (error_event reason)
      (record job { done = true; error = some reason; finished_at = some now })

-- The jobs of a `JobRegistry` by their ids.
abbrev pub Registry : Type 0
Registry = Dict Job

-- `create`; the UUID is an argument.
unfoldable pub create : Text → Text → List Text → Registry → Registry
create job_id tenant_id datasets jobs = insert job_id (new_job tenant_id datasets) jobs

-- A writer call: it does nothing to an unknown job.
unfoldable pub write : Text → JobOp → Registry → Registry
write job_id op jobs = elim (lookup job_id jobs) [
  | none ↦ jobs
  | some job ↦ insert job_id (apply_op op job) jobs
]

unfoldable pub get_validated : Text → Text → Registry → Option Job
get_validated job_id tenant_id jobs = elim (lookup job_id jobs) [
  | none ↦ none
  | some job ↦ if text_eq job.tenant_id tenant_id then some job else none
]

-- `now - j.finished_at > _TTL_AFTER_DONE` for a job that is done.
unfoldable pub is_expired : ℕ → Job → Bool
is_expired now job = elim job.finished_at [
  | none ↦ false
  | some t ↦ job.done && ltb (t + ttl_after_done) now
]

unfoldable pub evict_expired : ℕ → Registry → Registry
evict_expired now jobs = keep (λ (_, job). not (is_expired now job)) jobs
