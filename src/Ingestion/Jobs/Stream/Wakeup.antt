-- ===== src/Ingestion/Jobs/Stream/Wakeup.antt =====
-- A wake-up that comes between the snapshot and `waiter.clear()` is lost.
use docintel.Common.{
  and_not, inr, ◌∙◌, inl, if_false, ap, Bool-cases, if◌then◌else◌, ◌&&◌, zero, is_empty, ◌==◌, ◌-◌,
  suc, ℕ, ◌≡◌, ◌<◌, refl, false, List, [], ◌∷◌, length, drop, any, map, arith,
}
use docintel.Ingestion.Jobs.{Job, Waiter, clear_waiter, waiter_is_set}
use docintel.Ingestion.Jobs.Stream.{
  loop_head, waiting, sending, Subscriber, after_replay, send, resume_at, Action, resumes, act, run,
}

-- The event loop lets the generator run on `n` times.
abbrev pub woken : ℕ → List Action
woken zero = []
woken (suc n) = resumes ∷ woken n

clear-any :
    (id : ℕ) (ws : List Waiter)
    → any
        (λ w. w.id == id && w.is_set)
        (map (λ w. if w.id == id then record w { is_set = false } else w) ws)
      ≡ false
clear-any id [] = refl
clear-any id (w ∷ ws) = elim (Bool-cases (w.id == id)) [
  | inl e ↦ ground (arith, clear-any id ws)
  | inr e ↦ ground (arith, clear-any id ws)
]

clear_waiter-clears : (id : ℕ) (job : Job) → waiter_is_set id (clear_waiter id job) ≡ false
unfolding waiter_is_set clear_waiter
clear_waiter-clears id job = clear-any id job.waiters

asleep :
    (n : ℕ) (job : Job) (s : Subscriber)
    → s.stage ≡ waiting
    → waiter_is_set s.waiter job ≡ false
    → run (woken n) (job, s) ≡ (job, s)
unfolding run act resume_at
asleep zero job s e h = refl
asleep (suc n) job s e h =
    ap (run (woken n)) (
      ap (λ g. resume_at g job s) e
      ∙ if_false (waiter_is_set s.waiter job) (loop_head job s) (job, s) h)
    ∙ asleep n job s e h

drop-nonempty :
    (n : ℕ) {A : Type 0} (xs : List A) → 0 < length xs - n → is_empty (drop n xs) ≡ false
drop-nonempty zero [] h = absurd (omega arith)
drop-nonempty zero (x ∷ xs) h = refl
drop-nonempty (suc n) [] h = absurd (omega arith)
drop-nonempty (suc n) (x ∷ xs) h = drop-nonempty n xs (omega arith)

to_sleep :
    (job : Job) (s : Subscriber)
    → 0 < length job.events - s.pos
    → after_replay job s ≡ (clear_waiter s.waiter job, record s { stage = waiting })
unfolding after_replay
to_sleep job s h =
    if_false _ _ _
      (and_not job.done (is_empty (drop s.pos job.events)) (drop-nonempty s.pos job.events h))

-- If events were pushed while the last event of a snapshot was being sent, the generator clears its
-- waiter and waits: without a time-out or another push it sends none of them, however often it is
-- let run, even when the job is done.
pub wakeup_lost :
    (job : Job) (s : Subscriber) (n : ℕ)
    → s.stage ≡ sending []
    → 0 < length job.events - s.pos
    → ((run (woken (suc n)) (job, s)).1.stage ≡ waiting)
      × ((run (woken (suc n)) (job, s)).1.sent ≡ s.sent)
unfolding run act resume_at send
wakeup_lost job s n e h =
    let cleared = clear_waiter s.waiter job in
    let same =
      ap (run (woken n)) (ap (λ g. resume_at g job s) e ∙ to_sleep job s h)
      ∙ asleep n cleared (record s { stage = waiting }) refl (clear_waiter-clears s.waiter job) in
    (ap (λ st. st.1.stage) same, ap (λ st. st.1.sent) same)
