-- ===== src/Ingestion/Jobs/Registry/Eviction.antt =====
-- How large a job gets, and how long it stays.
use docintel.Common.{
  if_false, ap, if_true, All-keep, sym, keep_holds, some_eq, text_eq, inr, keep, ltb_iff, ◌∙◌, ◌&&◌,
  length-append, not, inl, ◌⊎◌, Bool, ltb, ◌+◌, lookup, Option, Bool-cases, ℕ, ◌≤◌, ◌≡◌, refl, true,
  false, none, some, List, [], ◌∷◌, length, Text, All, is_some, arith,
}
use docintel.Ingestion.Jobs.{
  op_fail, op_finish, op_file, op_total, Job, JobEvent, JobOp, Registry, new_job, apply_op, push,
  create, is_expired, evict_expired, max_events_kept, ttl_after_done,
}
use docintel.Ingestion.Jobs.Registry.{
  Call, creates, writes, evicts, call, calls, Entry, insert-All, write-All, evict_expired-All,
}

-- A job keeps at most `max_events_kept` events; it has a finishing time exactly when it is done; and
-- it has an error only then.
pub record Sound (job : Job) : Type 0 where
  pub bounded : length job.events ≤ max_events_kept
  pub timed : is_some job.finished_at ≡ job.done
  pub blamed : is_some job.error ≡ true → job.done ≡ true

push-Sound : (e : JobEvent) (job : Job) → Sound job → Sound (push e job)
unfolding push
push-Sound e job s = record {
  bounded = elim (Bool-cases (ltb (length job.events) max_events_kept)) [
    | inl h ↦ rw h (
        omega (
          arith,
          length-append job.events (e ∷ []),
          (ltb_iff (length job.events) max_events_kept).0 h,
        ))
    | inr h ↦ rw h s.bounded
  ];
  timed = s.timed;
  blamed = s.blamed;
}

apply_op-Sound : (op : JobOp) (job : Job) → Sound job → Sound (apply_op op job)
unfolding apply_op
apply_op-Sound (op_total total) job s =
    push-Sound _ _ (record { bounded = s.bounded; timed = s.timed; blamed = s.blamed })
apply_op-Sound (op_file filename domain chunk_count) job s =
    push-Sound _ _ (record { bounded = s.bounded; timed = s.timed; blamed = s.blamed })
apply_op-Sound (op_finish now total_chunks) job s =
    push-Sound _ _ (record { bounded = s.bounded; timed = refl; blamed = λ e. refl })
apply_op-Sound (op_fail now reason) job s =
    push-Sound _ _ (record { bounded = s.bounded; timed = refl; blamed = λ e. refl })

new_job-Sound : (tenant : Text) (datasets : List Text) → Sound (new_job tenant datasets)
unfolding new_job
new_job-Sound tenant datasets = record { bounded = omega arith; timed = refl; blamed = λ e. cc e }

call-Sound :
    (c : Call) (jobs : Registry)
    → All (Entry (λ k. Sound)) jobs
    → All (Entry (λ k. Sound)) (call c jobs)
unfolding call create
call-Sound (creates k tenant datasets) jobs h =
    insert-All (λ k. Sound) k _ jobs (new_job-Sound tenant datasets) h
call-Sound (writes k op) jobs h = write-All (λ k. Sound) k op jobs (λ job. apply_op-Sound op job) h
call-Sound (evicts now) jobs h = evict_expired-All (λ k. Sound) now jobs h

-- Under every history of calls, every job of the registry keeps at most `max_events_kept` events, has
-- a finishing time exactly when it is done, and has an error only then.
pub calls-Sound :
    (cs : List Call) (jobs : Registry)
    → All (Entry (λ k. Sound)) jobs
    → All (Entry (λ k. Sound)) (calls cs jobs)
unfolding calls
calls-Sound [] jobs h = h
calls-Sound (c ∷ cs) jobs h = calls-Sound cs (call c jobs) (call-Sound c jobs h)

-- The job finished no longer ago than the time to live.
abbrev pub Recent : ℕ → Job → Type 0
Recent now job = (t : ℕ) × (job.finished_at ≡ some t) × (now ≤ t + ttl_after_done)

expired_at :
    (o : Option ℕ) (d : Bool) (now : ℕ)
    → is_some o ≡ d
    → d ≡ true
    → not (elim o [ none ↦ false | some t ↦ d && ltb (t + ttl_after_done) now ]) ≡ true
    → (t : ℕ) × (o ≡ some t) × (now ≤ t + ttl_after_done)
expired_at none d now e h k = cc (e ∙ h)
expired_at (some t) d now e h k = (t, refl, ground arith)

recent :
    (now : ℕ) (jobs : Registry)
    → All (λ (k, job). not (is_expired now job) ≡ true) jobs
    → All (Entry (λ k. Sound)) jobs
    → All (λ (k, job). job.done ≡ true → Recent now job) jobs
unfolding is_expired
recent now [] h k = tt
recent now ((j, job) ∷ jobs) h k =
    (λ d. expired_at job.finished_at job.done now k.0.timed d h.0, recent now jobs h.1 k.1)

lookup-keep :
    (p : Job → Bool) (k : Text) (job : Job) (jobs : Registry)
    → p job ≡ true
    → lookup k jobs ≡ some job
    → lookup k (keep (λ (_, j). p j) jobs) ≡ some job
unfolding lookup
lookup-keep p k job [] h e = cc e
lookup-keep p k job ((j, w) ∷ jobs) h e = elim (Bool-cases (text_eq j k)) [
  | inl t ↦
      let found = some_eq (sym (if_true (text_eq j k) (some w) (lookup k jobs) t) ∙ e) in
      ap (lookup k) (if_true (p w) _ _ (ap p found ∙ h))
      ∙ if_true (text_eq j k) _ _ t
      ∙ ap some found
  | inr t ↦
      let rest =
        lookup-keep p k job jobs h (sym (if_false (text_eq j k) (some w) (lookup k jobs) t) ∙ e) in
      elim (Bool-cases (p w)) [
        | inl b ↦ ap (lookup k) (if_true (p w) _ _ b) ∙ if_false (text_eq j k) _ _ t ∙ rest
        | inr b ↦ ap (lookup k) (if_false (p w) _ _ b) ∙ rest
      ]
]

unexpired :
    (o : Option ℕ) (d : Bool) (now : ℕ)
    → (d ≡ false) ⊎ ((t : ℕ) × (o ≡ some t) × (now ≤ t + ttl_after_done))
    → not (elim o [ none ↦ false | some t ↦ d && ltb (t + ttl_after_done) now ]) ≡ true
unexpired none d now h = refl
unexpired (some t) d now (inl h) = ground arith
unexpired (some t) d now (inr (t', e, h)) = let same = some_eq e in ground (arith, same, h)

-- After an eviction under any history from the empty registry, every job that is done finished no
-- longer than the time to live ago.
pub evict_expired-Recent :
    (cs : List Call) (now : ℕ)
    → All (λ (k, job). job.done ≡ true → Recent now job) (evict_expired now (calls cs []))
unfolding evict_expired is_expired
evict_expired-Recent cs now =
    let jobs = calls cs [] in
    recent now (keep (λ (_, job). not (is_expired now job)) jobs)
      (keep_holds (λ (_, job). not (is_expired now job)) jobs)
      (All-keep (Entry (λ k. Sound)) _ jobs (calls-Sound cs [] tt))

-- An eviction takes no job that is not done, and none that finished no longer than the time to live
-- ago.
pub evict_expired-keeps :
    (job_id : Text) (job : Job) (jobs : Registry) (now : ℕ)
    → lookup job_id jobs ≡ some job
    → (job.done ≡ false) ⊎ Recent now job
    → lookup job_id (evict_expired now jobs) ≡ some job
unfolding evict_expired is_expired
evict_expired-keeps job_id job jobs now e h =
    lookup-keep (λ j. not (is_expired now j)) job_id job jobs
      (unexpired job.finished_at job.done now h) e
