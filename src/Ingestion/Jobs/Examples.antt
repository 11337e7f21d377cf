-- ===== src/Ingestion/Jobs/Examples.antt =====
-- The theorems about jobs, each at a small history.
use docintel.Common.{text_eq, insert, ◌≡◌, refl, some, List, [], ◌∷◌, Text, codes, arith, lookup}
use docintel.Ingestion.Jobs.{
  add_waiter, clear_waiter, snapshot_from, waiter_is_set, Job, op_file, op_finish, Registry,
  new_job, apply_op, push, create, get_validated, done_event, progress_event,
}
use docintel.Ingestion.Jobs.Registry.{calls, get_validated-tenant}
use docintel.Ingestion.Jobs.Stream.{
  times_out, resume_at, time_out, stage_after, loop_head, send, after_replay, Subscriber, Action,
  resumes, act, run, start, subscribe, sending, waiting, ended,
}
use docintel.Ingestion.Jobs.Stream.Delivery.{Delivers, subscribe-Delivers}
use docintel.Ingestion.Jobs.Stream.Progress.{subscribe-delivers_all}
use docintel.Ingestion.Jobs.Stream.Wakeup.{woken, wakeup_lost}

abbrev id : Text
id = codes "j1"

abbrev tenant : Text
tenant = codes "t1"

abbrev jobs : Registry
jobs = create id tenant [] []

abbrev calm : Job
calm = new_job tenant []

abbrev subscribed : Job × Subscriber
subscribed = start 7 calm

jobs_found : subscribe id tenant 7 jobs ≡ some subscribed
unfolding create subscribe get_validated lookup insert text_eq new_job
jobs_found = refl

jobs_validated : get_validated id tenant (calls [] jobs) ≡ some calm
unfolding create get_validated calls lookup insert text_eq new_job
jobs_validated = refl

job_there : lookup id jobs ≡ some calm
unfolding create lookup insert text_eq new_job
job_there = refl

-- One file, then the end; the subscriber runs on in between.
abbrev history : List Action
history =
    Action.writes (op_file (codes "a.txt") (codes "general") 3)
    ∷ resumes
    ∷ Action.writes (op_finish 10 3)
    ∷ []

-- Six rounds, with a step at a waiter that is not set.
abbrev rounds_of_six : List Action
rounds_of_six =
    resumes ∷ times_out ∷ resumes ∷ times_out ∷ resumes ∷ times_out ∷ resumes ∷ times_out ∷ resumes
    ∷ times_out ∷ resumes ∷ times_out ∷ resumes ∷ []

-- The subscriber gets both events and the generator returns.
history_delivered :
    (run rounds_of_six (run history subscribed)).1.sent
    ≡ progress_event 1 0 (codes "a.txt") (codes "general") 3 ∷ done_event 3 1 ∷ []
unfolding start run act resume_at time_out stage_after loop_head send apply_op push add_waiter
    new_job after_replay clear_waiter snapshot_from waiter_is_set
history_delivered = refl

subscribe-Delivers_example : Delivers (run history subscribed)
subscribe-Delivers_example = subscribe-Delivers id tenant 7 jobs subscribed jobs_found history

subscribe-delivers_all_example :
    ((run rounds_of_six (run history subscribed)).1.stage ≡ ended)
    × ((run rounds_of_six (run history subscribed)).1.sent ≡ (run history subscribed).0.events)
unfolding start run act resume_at time_out stage_after loop_head send apply_op push add_waiter
    new_job after_replay clear_waiter snapshot_from waiter_is_set
subscribe-delivers_all_example =
    subscribe-delivers_all id tenant 7 jobs subscribed jobs_found history refl (λ e. cc e)
      rounds_of_six
      ((tt, (tt, (tt, (tt, (tt, (tt, (tt, (tt, (tt, (tt, (tt, (tt, (tt, tt))))))))))))))
      (omega arith)

-- A job whose end was written while the subscriber was sending its only event.
abbrev late : Job
late = apply_op (op_finish 10 3) (apply_op (op_file (codes "a.txt") (codes "general") 3) calm)

abbrev sent_one : Subscriber
sent_one = record {
  waiter = 7;
  pos = 1;
  stage = sending [];
  sent = progress_event 1 0 (codes "a.txt") (codes "general") 3 ∷ [];
}

wakeup_lost_example :
    ((run (woken 4) (late, sent_one)).1.stage ≡ waiting)
    × ((run (woken 4) (late, sent_one)).1.sent ≡ sent_one.sent)
unfolding start run act resume_at time_out stage_after loop_head send apply_op push add_waiter
    new_job after_replay clear_waiter snapshot_from waiter_is_set
wakeup_lost_example = wakeup_lost late sent_one 3 refl (omega arith)

get_validated-tenant_example : tenant ≡ tenant
get_validated-tenant_example =
    get_validated-tenant id tenant tenant [] [] [] calm tt tt jobs_validated
