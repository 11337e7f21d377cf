-- ===== src/Ingestion/Jobs/Stream/Progress.antt =====
-- A subscriber to a finished job gets all of its events, and the generator returns.
use mathlib.Core.List.{append-nil}
use docintel.Common.{
  All, if_true, if_false, and_not, and_both, take-append-drop, take, sym, ◌∙◌, ◌≢◌, ap, inr, some,
  subst, inl, length-drop, Bool-cases, ◌+◌, false, ◌<◌, Text, is_empty, ◌-◌, suc, ℕ, ◌≤◌, ◌≡◌, refl,
  true, List, [], ◌∷◌, ◌++◌, length, drop, arith,
}
use docintel.Ingestion.Jobs.{
  waiter_is_set, Registry, clear_waiter, snapshot_from, remove_waiter, JobEvent, Job,
}
use docintel.Ingestion.Jobs.Stream.{
  writes, subscribe, resumes, time_out, times_out, act, stage_after, resume_at, Stage, looping,
  waiting, ended, sending, Subscriber, after_replay, send, loop_head, Action, run,
}
use docintel.Ingestion.Jobs.Stream.Delivery.{pending, run-Delivers, subscribe-Delivers}

-- Nobody writes.
abbrev pub IsQuiet : Action → Type 0
IsQuiet (writes op) = ⊥
IsQuiet resumes = Unit {0}
IsQuiet times_out = Unit {0}

-- How often the generator runs on behind a time-out.
abbrev pub turns : List Action → ℕ
turns [] = 0
turns (writes op ∷ more) = turns more
turns (resumes ∷ more) = turns more
turns (times_out ∷ []) = 0
turns (times_out ∷ resumes ∷ more) = suc (turns more)
turns (times_out ∷ times_out ∷ more) = turns (times_out ∷ more)
turns (times_out ∷ writes op ∷ more) = turns more

-- How often the generator still has to run on while nobody writes; `left` events are not in its
-- snapshot.
abbrev pub rounds_at : Stage → ℕ → ℕ
rounds_at looping left = suc (left + left)
rounds_at waiting left = suc (left + left)
rounds_at ended left = 0
rounds_at (sending rest) left = length rest + (left + left) + 2

abbrev pub rounds : Job × Subscriber → ℕ
rounds (job, s) = rounds_at s.stage (length job.events - s.pos)

-- The job is done and has the events `es`; `n` rounds are enough; an end leaves nothing unsent.
record Settles (es : List JobEvent) (n : ℕ) (st : Job × Subscriber) : Type 0 where
  is_done : st.0.done ≡ true
  same : st.0.events ≡ es
  enough : rounds st ≤ n
  complete : st.1.stage ≡ ended → drop st.1.pos es ≡ []

is_empty-true : (xs : List JobEvent) → is_empty xs ≡ true → xs ≡ []
is_empty-true [] h = refl
is_empty-true (x ∷ xs) h = cc h

is_empty-false : (xs : List JobEvent) → is_empty xs ≡ false → 0 < length xs
is_empty-false [] h = cc h
is_empty-false (x ∷ xs) h = omega arith

module _ (job : Job) (n : ℕ) (d : job.done ≡ true) where
  after_replay-Settles :
      (s : Subscriber)
      → (0 < length job.events - s.pos
          → suc ((length job.events - s.pos) + (length job.events - s.pos)) ≤ n)
      → Settles job.events n (after_replay job s)
  unfolding after_replay remove_waiter clear_waiter
  after_replay-Settles s h = elim (Bool-cases (is_empty (drop s.pos job.events))) [
    | inl e ↦
        let over = and_both job.done (is_empty (drop s.pos job.events)) d e in
        rw over (record {
          is_done = d;
          same = refl;
          enough = omega arith;
          complete = λ o. is_empty-true _ e;
        })
    | inr e ↦
        let on = and_not job.done (is_empty (drop s.pos job.events)) e in
        rw on (record {
          is_done = d;
          same = refl;
          enough = h (omega (arith, is_empty-false _ e, length-drop s.pos job.events));
          complete = λ o. cc o;
        })
  ]

  send-Settles :
      (rest : List JobEvent) (s : Subscriber)
      → (0 < length rest + (length job.events - s.pos)
          → suc (length rest + ((length job.events - s.pos) + (length job.events - s.pos))) ≤ n)
      → Settles job.events n (send job rest s)
  unfolding send
  send-Settles [] s h = after_replay-Settles s (λ k. omega (arith, h (omega (arith, k))))
  send-Settles (e ∷ es) s h = record {
    is_done = d;
    same = refl;
    enough = omega (arith, h (omega arith));
    complete = λ o. cc o;
  }

  loop_head-Settles :
      (s : Subscriber)
      → (length job.events - s.pos) + (length job.events - s.pos) ≤ n
      → Settles job.events n (loop_head job s)
  unfolding loop_head snapshot_from
  loop_head-Settles s h =
      send-Settles (drop s.pos job.events) (record s { pos = length job.events })
        (λ k. omega (arith, k, h, length-drop s.pos job.events))

  resume_at-Settles :
      (g : Stage) (s : Subscriber)
      → s.stage ≡ stage_after g
      → rounds_at g (length job.events - s.pos) ≤ suc n
      → (s.stage ≡ ended → drop s.pos job.events ≡ [])
      → Settles job.events n (resume_at (stage_after g) job s)
  unfolding resume_at stage_after
  resume_at-Settles looping s e h c = loop_head-Settles s (omega (arith, h))
  resume_at-Settles waiting s e h c = loop_head-Settles s (omega (arith, h))
  resume_at-Settles ended s e h c = record {
    is_done = d;
    same = refl;
    enough = rw e (omega arith);
    complete = c;
  }
  resume_at-Settles (sending rest) s e h c = send-Settles rest s (λ k. omega (arith, h, k))

  -- A step without a time-out before it, perhaps at a waiter that is set, loses nothing.
  resume_at-kept :
      (g : Stage) (s : Subscriber)
      → s.stage ≡ g
      → rounds_at g (length job.events - s.pos) ≤ n
      → (s.stage ≡ ended → drop s.pos job.events ≡ [])
      → Settles job.events n (resume_at g job s)
  unfolding resume_at
  resume_at-kept looping s e h c = loop_head-Settles s (omega (arith, h))
  resume_at-kept waiting s e h c = elim (Bool-cases (waiter_is_set s.waiter job)) [
    | inl set ↦
        subst (Settles job.events n) (sym (if_true (waiter_is_set s.waiter job) _ _ set))
          (loop_head-Settles s (omega (arith, h)))
    | inr unset ↦
        subst (Settles job.events n) (sym (if_false (waiter_is_set s.waiter job) _ _ unset))
          (record { is_done = d; same = refl; enough = rw e h; complete = c })
  ]
  resume_at-kept ended s e h c = record {
    is_done = d;
    same = refl;
    enough = rw e (omega arith);
    complete = c;
  }
  resume_at-kept (sending rest) s e h c = send-Settles rest s (λ k. omega (arith, h, k))

stage_after-ended : (g : Stage) → stage_after g ≡ ended → g ≡ ended
unfolding stage_after
stage_after-ended looping e = cc e
stage_after-ended waiting e = cc e
stage_after-ended ended e = refl
stage_after-ended (sending rest) e = cc e

round-Settles :
    (es : List JobEvent) (n : ℕ) (st : Job × Subscriber)
    → Settles es (suc n) st
    → Settles es n (act resumes (act times_out st))
unfolding act time_out
round-Settles es n (job, s) p =
    subst
      (λ es.
        Settles es n
          (resume_at (stage_after s.stage) job (record s { stage = stage_after s.stage })))
      p.same
      (resume_at-Settles job n p.is_done s.stage (record s { stage = stage_after s.stage }) refl
        p.enough (λ o. ap (drop s.pos) p.same ∙ p.complete (stage_after-ended s.stage o)))

resume-Settles :
    (es : List JobEvent) (n : ℕ) (st : Job × Subscriber)
    → Settles es n st
    → Settles es n (act resumes st)
unfolding act
resume-Settles es n (job, s) p =
    subst (λ es. Settles es n (resume_at s.stage job s)) p.same
      (resume_at-kept job n p.is_done s.stage s refl p.enough
        (λ o. ap (drop s.pos) p.same ∙ p.complete o))

rounds-stage_after : (g : Stage) (left : ℕ) → rounds_at (stage_after g) left ≡ rounds_at g left
unfolding stage_after
rounds-stage_after looping left = refl
rounds-stage_after waiting left = refl
rounds-stage_after ended left = refl
rounds-stage_after (sending rest) left = refl

time_out-Settles :
    (es : List JobEvent) (n : ℕ) (st : Job × Subscriber)
    → Settles es n st
    → Settles es n (act times_out st)
unfolding act time_out
time_out-Settles es n (job, s) p = record {
  is_done = p.is_done;
  same = p.same;
  enough = rw (rounds-stage_after s.stage (length job.events - s.pos)) p.enough;
  complete = λ o. p.complete (stage_after-ended s.stage o);
}

quiet-Settles :
    (es : List JobEvent) (more : List Action) (st : Job × Subscriber)
    → All IsQuiet more
    → Settles es (turns more) st
    → Settles es 0 (run more st)
unfolding run
quiet-Settles es [] st q p = p
quiet-Settles es (writes op ∷ more) st q p = absurd q.0
quiet-Settles es (resumes ∷ more) st q p = quiet-Settles es more _ q.1 (resume-Settles es _ st p)
quiet-Settles es (times_out ∷ []) st q p = time_out-Settles es 0 st p
quiet-Settles es (times_out ∷ resumes ∷ more) st q p =
    quiet-Settles es more _ q.1.1 (round-Settles es _ st p)
quiet-Settles es (times_out ∷ times_out ∷ more) st q p =
    quiet-Settles es (times_out ∷ more) _ q.1 (time_out-Settles es _ st p)
quiet-Settles es (times_out ∷ writes op ∷ more) st q p = absurd q.1.0

rounds_at-ended : (g : Stage) (left : ℕ) → rounds_at g left ≤ 0 → g ≡ ended
rounds_at-ended looping left h = absurd (omega (arith, h))
rounds_at-ended waiting left h = absurd (omega (arith, h))
rounds_at-ended ended left h = refl
rounds_at-ended (sending rest) left h = absurd (omega (arith, h))

-- Whatever came before, once a job is done and nobody writes any more, a generator that has not
-- returned yet returns, under every schedule of time-outs and of steps of its own in which it runs
-- on behind a time-out `rounds` times at least; and by then it has sent all events in the job's
-- buffer, each once and in order. The buffer holds the first 2000 events that were emitted.
pub subscribe-delivers_all :
    (job_id tenant_id : Text) (waiter : ℕ) (jobs : Registry) (st : Job × Subscriber)
    → subscribe job_id tenant_id waiter jobs ≡ some st
    → (more : List Action) → (run more st).0.done ≡ true
    → (run more st).1.stage ≢ ended
    → (later : List Action) → All IsQuiet later
    → rounds (run more st) ≤ turns later
    → ((run later (run more st)).1.stage ≡ ended)
      × ((run later (run more st)).1.sent ≡ (run more st).0.events)
subscribe-delivers_all job_id tenant_id waiter jobs st e more d live later q_all h =
    let before = run more st in
    let p =
      quiet-Settles before.0.events later before q_all
        (record { is_done = d; same = refl; enough = h; complete = λ o. absurd (live o) }) in
    let q = run-Delivers later before (subscribe-Delivers job_id tenant_id waiter jobs st e more) in
    let over = rounds_at-ended _ _ p.enough in
    let sub = (run later before).1 in
    let es = before.0.events in
    (
      over,
      sym (append-nil sub.sent)
          ∙ ap (λ g. sub.sent ++ pending g) (sym over)
          ∙ q.in_order
          ∙ ap (take sub.pos) p.same
          ∙ sym (append-nil (take sub.pos es))
          ∙ ap (λ r. take sub.pos es ++ r) (sym (p.complete over))
          ∙ take-append-drop sub.pos es,
    )
