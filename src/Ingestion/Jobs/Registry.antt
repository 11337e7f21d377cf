-- ===== src/Ingestion/Jobs/Registry.antt =====
-- The jobs of a registry under any history of calls: tenants, the state of a job, and eviction.
pub mod Eviction
use docintel.Common.{
  ap, if◌then◌else◌, if_false, subst, if_true, sym, ◌∙◌, some_eq, inr, inl, Bool-cases, ℕ, ◌≡◌, ◌≢◌,
  refl, none, some, Option, List, [], ◌∷◌, Text, text_eq, text_eq_iff, All, All-map, All-keep,
  lookup, insert,
}
use docintel.Ingestion.Jobs.{
  op_fail, op_finish, op_file, op_total, Job, JobOp, Registry, new_job, apply_op, push, create,
  write, get_validated, evict_expired,
}

-- The calls that change the registry.
pub data Call : Type 0 where
  creates : (job_id tenant_id : Text) (datasets : List Text) → Call
  writes : (job_id : Text) (op : JobOp) → Call
  evicts : (now : ℕ) → Call

unfoldable pub call : Call → Registry → Registry
call (creates job_id tenant_id datasets) jobs = create job_id tenant_id datasets jobs
call (writes job_id op) jobs = write job_id op jobs
call (evicts now) jobs = evict_expired now jobs

unfoldable pub calls : List Call → Registry → Registry
calls [] jobs = jobs
calls (c ∷ cs) jobs = calls cs (call c jobs)

module _ (P : Text → Job → Type 0) where
  abbrev pub Entry : Text × Job → Type 0
  Entry (k, job) = P k job

  pub insert-All :
      (k : Text) (job : Job) (jobs : Registry)
      → P k job
      → All Entry jobs
      → All Entry (insert k job jobs)
  unfolding insert
  insert-All k job [] p h = (p, tt)
  insert-All k job ((j, w) ∷ jobs) p h = elim (Bool-cases (text_eq j k)) [
    | inl e ↦ rw e (p, h.1)
    | inr e ↦ rw e (h.0, insert-All k job jobs p h.1)
  ]

  lookup-All :
      (k : Text) (jobs : Registry) (job : Job) → lookup k jobs ≡ some job → All Entry jobs → P k job
  unfolding lookup
  lookup-All k [] job e h = cc e
  lookup-All k ((j, w) ∷ jobs) job e h = elim (Bool-cases (text_eq j k)) [
    | inl t ↦
        let found = some_eq (sym (if_true (text_eq j k) (some w) (lookup k jobs) t) ∙ e) in
        subst (λ i. P i job) ((text_eq_iff j k).0 t) (subst (P j) found h.0)
    | inr t ↦
        lookup-All k jobs job (sym (if_false (text_eq j k) (some w) (lookup k jobs) t) ∙ e) h.1
  ]

  module _ (k : Text) (op : JobOp) (jobs : Registry)
      (f : (job : Job) → P k job → P k (apply_op op job)) where
    written :
        (o : Option Job)
        → lookup k jobs ≡ o
        → All Entry jobs
        → All Entry (elim o [ none ↦ jobs | some job ↦ insert k (apply_op op job) jobs ])
    written none e h = h
    written (some job) e h =
        insert-All k (apply_op op job) jobs (f job (lookup-All k jobs job e h)) h

    pub write-All : All Entry jobs → All Entry (write k op jobs)
    unfolding write
    write-All h = written (lookup k jobs) refl h

  pub evict_expired-All :
      (now : ℕ) (jobs : Registry) → All Entry jobs → All Entry (evict_expired now jobs)
  unfolding evict_expired
  evict_expired-All now jobs h = All-keep Entry _ jobs h

-- `tenant_id` of a job never changes.
apply_op-tenant_id : (op : JobOp) (job : Job) → (apply_op op job).tenant_id ≡ job.tenant_id
unfolding apply_op push
apply_op-tenant_id (op_total total) job = refl
apply_op-tenant_id (op_file filename domain chunk_count) job = refl
apply_op-tenant_id (op_finish now total_chunks) job = refl
apply_op-tenant_id (op_fail now reason) job = refl

-- The job of that id belongs to the tenant.
abbrev Owned : Text → Text → Text → Job → Type 0
Owned job_id tenant k job = k ≡ job_id → job.tenant_id ≡ tenant

-- The call does not create the id again.
abbrev pub Leaves : Text → Call → Type 0
Leaves job_id (creates k tenant datasets) = k ≢ job_id
Leaves job_id (writes k op) = Unit {0}
Leaves job_id (evicts now) = Unit {0}

calls-Owned :
    (job_id tenant : Text) (cs : List Call) (jobs : Registry)
    → All (Leaves job_id) cs
    → All (Entry (Owned job_id tenant)) jobs
    → All (Entry (Owned job_id tenant)) (calls cs jobs)
unfolding calls call create new_job
calls-Owned job_id tenant [] jobs ls h = h
calls-Owned job_id tenant (creates k t datasets ∷ cs) jobs ls h =
    calls-Owned job_id tenant cs _ ls.1
      (insert-All (Owned job_id tenant) k _ jobs (λ e. absurd (ls.0 e)) h)
calls-Owned job_id tenant (writes k op ∷ cs) jobs ls h =
    calls-Owned job_id tenant cs _ ls.1
      (write-All (Owned job_id tenant) k op jobs (λ job o e. apply_op-tenant_id op job ∙ o e) h)
calls-Owned job_id tenant (evicts now ∷ cs) jobs ls h =
    calls-Owned job_id tenant cs _ ls.1 (evict_expired-All (Owned job_id tenant) now jobs h)

validated :
    (o : Option Job) (t : Text) (job : Job)
    → elim o [ none ↦ none | some j ↦ if text_eq j.tenant_id t then some j else none ] ≡ some job
    → (o ≡ some job) × (job.tenant_id ≡ t)
validated none t job e = cc e
validated (some j) t job e = elim (Bool-cases (text_eq j.tenant_id t)) [
  | inl h ↦
      let found = some_eq (sym (if_true _ (some j) none h) ∙ e) in
      (ap some found, sym (ap (λ j. j.tenant_id) found) ∙ (text_eq_iff j.tenant_id t).0 h)
  | inr h ↦ absurd (cc (sym (if_false _ (some j) none h) ∙ e))
]

-- Whatever calls follow the creation of a job in a registry without its id, as long as no other job
-- gets that id, only the tenant that the job was created for is given it.
pub get_validated-tenant :
    (job_id tenant other : Text) (datasets : List Text) (jobs : Registry) (cs : List Call)
    (job : Job)
    → All (λ (k, j). k ≢ job_id) jobs
    → All (Leaves job_id) cs
    → get_validated job_id other (calls cs (create job_id tenant datasets jobs)) ≡ some job
    → other ≡ tenant
unfolding get_validated create new_job
get_validated-tenant job_id tenant other datasets jobs cs job new ls e =
    let owned = calls-Owned job_id tenant cs _ ls (
      insert-All (Owned job_id tenant) job_id _ jobs (λ e. refl)
        (All-map (λ (k, j) ne e. absurd (ne e)) jobs new)) in
    let (found, mine) = validated (lookup job_id (calls cs _)) other job e in
    sym mine ∙ lookup-All (Owned job_id tenant) job_id _ job found owned refl
