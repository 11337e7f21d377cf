-- ===== src/Ingestion/Jobs/Stream/Delivery.antt =====
-- What a subscriber gets: the events of the job, each once and in order.
use docintel.Common.{
  some_eq, subst, none, some, Option, some, Text, and_parts, is_empty, ◌&&◌, zero, length-append,
  ltb, suc, ℕ, ◌≤◌, ◌≡◌, refl, sym, ap, ◌∙◌, true, List, [], ◌∷◌, ◌++◌, length, drop, take,
  take-append-drop, take-all, arith, Bool-cases, inl, inr,
}
use mathlib.Core.List.{append_assoc, append-nil}
use docintel.Ingestion.Jobs.{
  add_waiter, get_validated, Registry, waiter_is_set, op_fail, op_finish, clear_waiter, op_file,
  max_events_kept, snapshot_from, remove_waiter, op_total, JobEvent, Job, JobOp, apply_op, push,
}
use docintel.Ingestion.Jobs.Stream.{
  start, subscribe, stage_after, resume_at, Stage, looping, waiting, ended, sending, Subscriber,
  after_replay, send, loop_head, time_out, Action, writes, resumes, times_out, act, run,
}

-- The events of the last snapshot that are still to be sent.
abbrev pub pending : Stage → List JobEvent
pending looping = []
pending waiting = []
pending ended = []
pending (sending rest) = rest

-- What was sent and what is pending are the first `pos` events; and only a job that is done lets
-- the generator return.
pub record Delivers (st : Job × Subscriber) : Type 0 where
  pub in_order : st.1.sent ++ pending st.1.stage ≡ take st.1.pos st.0.events
  pub in_range : st.1.pos ≤ length st.0.events
  pub is_over : st.1.stage ≡ ended → st.0.done ≡ true

take-longer : (n : ℕ) (xs ys : List JobEvent) → n ≤ length xs → take n (xs ++ ys) ≡ take n xs
take-longer zero xs ys h = refl
take-longer (suc n) [] ys h = absurd (omega arith)
take-longer (suc n) (x ∷ xs) ys h = ap (λ r. x ∷ r) (take-longer n xs ys (omega arith))

push-extends :
    (e : JobEvent) (job : Job) → (ys : List JobEvent) × ((push e job).events ≡ job.events ++ ys)
unfolding push
push-extends e job = elim (Bool-cases (ltb (length job.events) max_events_kept)) [
  | inl h ↦ (e ∷ [], rw h refl)
  | inr h ↦ ([], rw h (sym (append-nil job.events)))
]

-- A writer only appends events.
pub apply_op-extends :
    (op : JobOp) (job : Job) → (ys : List JobEvent) × ((apply_op op job).events ≡ job.events ++ ys)
unfolding apply_op
apply_op-extends (op_total total) job = push-extends _ _
apply_op-extends (op_file filename domain chunk_count) job = push-extends _ _
apply_op-extends (op_finish now total_chunks) job = push-extends _ _
apply_op-extends (op_fail now reason) job = push-extends _ _

pub apply_op-done : (op : JobOp) (job : Job) → job.done ≡ true → (apply_op op job).done ≡ true
unfolding apply_op push
apply_op-done (op_total total) job h = h
apply_op-done (op_file filename domain chunk_count) job h = h
apply_op-done (op_finish now total_chunks) job h = refl
apply_op-done (op_fail now reason) job h = refl

apply_op-Delivers :
    (op : JobOp) (job : Job) (s : Subscriber) → Delivers (job, s) → Delivers (apply_op op job, s)
apply_op-Delivers op job s d =
    let (ys, e) = apply_op-extends op job in
    record {
      in_order =
          d.in_order ∙ sym (take-longer s.pos job.events ys d.in_range) ∙ ap (take s.pos) (sym e);
      in_range = omega (arith, ap length e, length-append job.events ys, d.in_range);
      is_over = λ h. apply_op-done op job (d.is_over h);
    }

after_replay-Delivers :
    (job : Job) (s : Subscriber)
    → s.sent ++ [] ≡ take s.pos job.events
    → s.pos ≤ length job.events
    → Delivers (after_replay job s)
unfolding after_replay remove_waiter clear_waiter
after_replay-Delivers job s h k = elim (Bool-cases (job.done && is_empty (drop s.pos job.events))) [
  | inl e ↦ rw e (record {
    in_order = h;
    in_range = k;
    is_over = λ o. (and_parts job.done (is_empty (drop s.pos job.events)) e).0;
  })
  | inr e ↦ rw e (record { in_order = h; in_range = k; is_over = λ o. cc o })
]

send-Delivers :
    (job : Job) (rest : List JobEvent) (s : Subscriber)
    → s.sent ++ rest ≡ take s.pos job.events
    → s.pos ≤ length job.events
    → Delivers (send job rest s)
unfolding send
send-Delivers job [] s h k = after_replay-Delivers job s h k
send-Delivers job (e ∷ es) s h k = record {
  in_order = append_assoc s.sent (e ∷ []) es ∙ h;
  in_range = k;
  is_over = λ o. cc o;
}

loop_head-Delivers :
    (job : Job) (s : Subscriber) → s.sent ++ [] ≡ take s.pos job.events → Delivers (loop_head job s)
unfolding loop_head snapshot_from
loop_head-Delivers job s h =
    send-Delivers job (drop s.pos job.events) (record s { pos = length job.events })
      (ap (λ r. r ++ drop s.pos job.events) (sym (append-nil s.sent) ∙ h)
        ∙ take-append-drop s.pos job.events
        ∙ sym (take-all (length job.events) job.events (omega arith)))
      (omega arith)

resume_at-Delivers :
    (g : Stage) (job : Job) (s : Subscriber)
    → s.stage ≡ g
    → Delivers (job, s)
    → Delivers (resume_at g job s)
unfolding resume_at
resume_at-Delivers looping job s e d =
    loop_head-Delivers job s (ap (λ g. s.sent ++ pending g) (sym e) ∙ d.in_order)
resume_at-Delivers waiting job s e d =
    let woken = loop_head-Delivers job s (ap (λ g. s.sent ++ pending g) (sym e) ∙ d.in_order) in
    elim (Bool-cases (waiter_is_set s.waiter job)) [ inl h ↦ rw h woken | inr h ↦ rw h d ]
resume_at-Delivers ended job s e d = d
resume_at-Delivers (sending rest) job s e d =
    send-Delivers job rest s (ap (λ g. s.sent ++ pending g) (sym e) ∙ d.in_order) d.in_range

stage_after-pending : (g : Stage) → pending (stage_after g) ≡ pending g
unfolding stage_after
stage_after-pending looping = refl
stage_after-pending waiting = refl
stage_after-pending ended = refl
stage_after-pending (sending rest) = refl

stage_after-ended : (g : Stage) → stage_after g ≡ ended → g ≡ ended
unfolding stage_after
stage_after-ended looping e = cc e
stage_after-ended waiting e = cc e
stage_after-ended ended e = refl
stage_after-ended (sending rest) e = cc e

act-Delivers : (a : Action) (st : Job × Subscriber) → Delivers st → Delivers (act a st)
unfolding act time_out
act-Delivers (writes op) (job, s) d = apply_op-Delivers op job s d
act-Delivers resumes (job, s) d = resume_at-Delivers s.stage job s refl d
act-Delivers times_out (job, s) d = record {
  in_order = ap (λ r. s.sent ++ r) (stage_after-pending s.stage) ∙ d.in_order;
  in_range = d.in_range;
  is_over = λ h. d.is_over (stage_after-ended s.stage h);
}

pub run-Delivers :
    (more : List Action) (st : Job × Subscriber) → Delivers st → Delivers (run more st)
unfolding run
run-Delivers [] st d = d
run-Delivers (a ∷ more) st d = run-Delivers more (act a st) (act-Delivers a st d)

start-Delivers : (waiter : ℕ) (job : Job) → Delivers (start waiter job)
unfolding start add_waiter
start-Delivers waiter job = record { in_order = refl; in_range = omega arith; is_over = λ h. cc h }

started :
    (waiter : ℕ) (o : Option Job) (st : Job × Subscriber)
    → elim o [ none ↦ none | some job ↦ some (start waiter job) ] ≡ some st
    → Delivers st
started waiter none st e = cc e
started waiter (some job) st e = subst Delivers (some_eq e) (start-Delivers waiter job)

-- However the writers, the generator and its time-outs interleave, a subscriber to a job has been
-- sent, together with what it is still sending, exactly the first `pos` events of the job's buffer,
-- each once and in order, those from before the subscription included; and it returns only when
-- the job is done.
pub subscribe-Delivers :
    (job_id tenant_id : Text) (waiter : ℕ) (jobs : Registry) (st : Job × Subscriber)
    → subscribe job_id tenant_id waiter jobs ≡ some st
    → (more : List Action) → Delivers (run more st)
unfolding subscribe
subscribe-Delivers job_id tenant_id waiter jobs st e more =
    run-Delivers more st (started waiter (get_validated job_id tenant_id jobs) st e)
