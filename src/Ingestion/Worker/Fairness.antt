-- ===== src/Ingestion/Worker/Fairness.antt =====
-- Which messages are dispatched, and in which order.
use mathlib.Core.List.{append-nil, append_assoc}
use docintel.Common.{
  Bool, if◌then◌else◌, subst, some_eq, inr, inl, Option, Bool-cases, ℕ, ◌+◌, ◌≡◌, refl, sym, ap,
  ◌∙◌, none, some, List, [], ◌∷◌, ◌++◌, Text, All, map, text_eq, text_eq_refl, lookup, insert,
  arith, if_true, if_false,
}
use docintel.Ingestion.Worker.{
  append_to, Message, Queues, tenant_of, enqueue, dispatch_queued, receive, enqueue_all, claim,
  Event, receives, claims, step, run,
}

clash : {A : Type 0} {a : A} → some a ≡ none → ⊥
clash e = cc e

module _ (p : Message → Bool) where
  -- The messages that pass the test.
  unfoldable pub once : Message → ℕ
  once m = if p m then 1 else 0

  abbrev pub count : List Message → ℕ
  count [] = 0
  count (m ∷ ms) = once m + count ms

  -- Those among the messages that wait.
  abbrev pub waiting : Queues → ℕ
  waiting [] = 0
  waiting ((t, ms) ∷ queues) = count ms + waiting queues

  -- Those among the messages that come in.
  abbrev pub incoming : List Event → ℕ
  incoming [] = 0
  incoming (receives m ∷ es) = once m + incoming es
  incoming (claims ms ∷ es) = count ms + incoming es

  count-append : (xs ys : List Message) → count (xs ++ ys) ≡ count xs + count ys
  count-append [] ys = omega arith
  count-append (x ∷ xs) ys = omega (arith, count-append xs ys)

  dispatch_queued-waiting :
      (q : Queues) → count (dispatch_queued q).0 + waiting (dispatch_queued q).1 ≡ waiting q
  unfolding dispatch_queued
  dispatch_queued-waiting [] = omega arith
  dispatch_queued-waiting ((t, []) ∷ q) = omega (arith, dispatch_queued-waiting q)
  dispatch_queued-waiting ((t, m ∷ []) ∷ q) = omega (arith, dispatch_queued-waiting q)
  dispatch_queued-waiting ((t, m ∷ m' ∷ ms) ∷ q) = omega (arith, dispatch_queued-waiting q)

  insert-waiting_new :
      (t : Text) (ms : List Message) (q : Queues)
      → lookup t q ≡ none
      → waiting (insert t ms q) ≡ count ms + waiting q
  unfolding lookup insert
  insert-waiting_new t ms [] e = omega arith
  insert-waiting_new t ms ((j, w) ∷ q) e = elim (Bool-cases (text_eq j t)) [
    | inl h ↦ absurd (clash (sym (if_true (text_eq j t) (some w) (lookup t q) h) ∙ e))
    | inr h ↦
        let rest =
          insert-waiting_new t ms q (sym (if_false (text_eq j t) (some w) (lookup t q) h) ∙ e) in
        ap waiting (if_false (text_eq j t) _ _ h) ∙ omega (arith, rest)
  ]

  insert-waiting :
      (t : Text) (ms old : List Message) (q : Queues)
      → lookup t q ≡ some old
      → waiting (insert t ms q) + count old ≡ count ms + waiting q
  unfolding lookup insert
  insert-waiting t ms old [] e = cc e
  insert-waiting t ms old ((j, w) ∷ q) e = elim (Bool-cases (text_eq j t)) [
    | inl h ↦
        let same = some_eq (sym (if_true (text_eq j t) (some w) (lookup t q) h) ∙ e) in
        let eq = ap waiting (if_true (text_eq j t) ((t, ms) ∷ q) ((j, w) ∷ insert t ms q) h) in
        omega (arith, eq, ap count same)
    | inr h ↦
        let rest =
          insert-waiting t ms old q (sym (if_false (text_eq j t) (some w) (lookup t q) h) ∙ e) in
        let eq = ap waiting (if_false (text_eq j t) ((t, ms) ∷ q) ((j, w) ∷ insert t ms q) h) in
        omega (arith, eq, rest)
  ]

  enqueued :
      (m : Message) (q : Queues) (o : Option (List Message))
      → lookup (tenant_of m) q ≡ o
      → waiting (append_to (tenant_of m) m q o) ≡ once m + waiting q
  unfolding append_to
  enqueued m q none e = omega (arith, insert-waiting_new (tenant_of m) (m ∷ []) q e)
  enqueued m q (some old) e =
      omega (arith, insert-waiting (tenant_of m) (old ++ m ∷ []) old q e, count-append old (m ∷ []))

  enqueue-waiting : (m : Message) (q : Queues) → waiting (enqueue m q) ≡ once m + waiting q
  unfolding enqueue
  enqueue-waiting m q = enqueued m q (lookup (tenant_of m) q) refl

  enqueue_all-waiting :
      (ms : List Message) (q : Queues) → waiting (enqueue_all ms q) ≡ count ms + waiting q
  unfolding enqueue_all
  enqueue_all-waiting [] q = omega arith
  enqueue_all-waiting (m ∷ ms) q =
      omega (arith, enqueue_all-waiting ms (enqueue m q), enqueue-waiting m q)

  step-waiting :
      (e : Event) (q : Queues)
      → count (step e q).0 + waiting (step e q).1 ≡ incoming (e ∷ []) + waiting q
  unfolding step receive claim
  step-waiting (receives m) q =
      omega (arith, dispatch_queued-waiting (enqueue m q), enqueue-waiting m q)
  step-waiting (claims []) q = omega (arith, enqueue_all-waiting [] q)
  step-waiting (claims (m ∷ ms)) q =
      omega
        (arith, dispatch_queued-waiting (enqueue_all (m ∷ ms) q), enqueue_all-waiting (m ∷ ms) q)

  incoming_first :
      (e : Event) (es : List Event) → incoming (e ∷ es) ≡ incoming (e ∷ []) + incoming es
  incoming_first (receives m) es = omega arith
  incoming_first (claims ms) es = omega arith

  -- No message gets lost or is started twice by the queues: over any sequence of arrivals and claims
  -- and for every test on messages, the tasks that were started and the messages that wait hold as
  -- many that pass the test as the messages that waited before and those that came in.
  pub run-waiting :
      (es : List Event) (q : Queues)
      → count (run es q).0 + waiting (run es q).1 ≡ incoming es + waiting q
  unfolding run
  run-waiting [] q = omega arith
  run-waiting (e ∷ es) q = omega (
    arith,
    step-waiting e q,
    run-waiting es (step e q).1,
    count-append (step e q).0 (run es (step e q).1).0,
    incoming_first e es,
  )

-- Without claims there is no round robin: from empty queues, each message that is received is started at
-- once, so that tasks are started in the order of arrival, whatever tenants they belong to.
pub run_arrival_order : (ms : List Message) → run (map receives ms) [] ≡ (ms, [])
unfolding run step receive enqueue append_to dispatch_queued lookup insert
run_arrival_order [] = refl
run_arrival_order (m ∷ ms) = ap (λ p. (m ∷ p.0, p.1)) (run_arrival_order ms)

enqueue_one :
    (m : Message) (t : Text) (w : List Message)
    → tenant_of m ≡ t
    → enqueue m ((t, w) ∷ []) ≡ (t, w ++ m ∷ []) ∷ []
unfolding enqueue append_to lookup insert
enqueue_one m t w e =
    subst (λ k. append_to k m ((t, w) ∷ []) (lookup k ((t, w) ∷ [])) ≡ (t, w ++ m ∷ []) ∷ [])
      (sym e)
      (ap (append_to t m ((t, w) ∷ [])) (if_true (text_eq t t) _ _ (text_eq_refl t))
        ∙ if_true (text_eq t t) _ _ (text_eq_refl t))

collect :
    (t : Text) (w ms : List Message)
    → All (λ m. tenant_of m ≡ t) ms
    → enqueue_all ms ((t, w) ∷ []) ≡ (t, w ++ ms) ∷ []
unfolding enqueue_all
collect t w [] h = ap (λ r. (t, r) ∷ []) (sym (append-nil w))
collect t w (m ∷ ms) h =
    ap (enqueue_all ms) (enqueue_one m t w h.0)
    ∙ collect t (w ++ m ∷ []) ms h.1
    ∙ ap (λ r. (t, r) ∷ []) (append_assoc w (m ∷ []) ms)

-- The queues of a tenant's messages; no queue is kept empty.
abbrev pub queue_of : Text → List Message → Queues
queue_of t [] = []
queue_of t (m ∷ ms) = (t, m ∷ ms) ∷ []

start_head :
    (t : Text) (m : Message) (ms : List Message)
    → dispatch_queued ((t, m ∷ ms) ∷ []) ≡ (m ∷ [], queue_of t ms)
unfolding dispatch_queued
start_head t m [] = refl
start_head t m (m' ∷ ms) = refl

-- If messages of one tenant are claimed while no message waits, then only the first of them is
-- started, and all others wait for another event, in their order.
pub claim_starts_one :
    (m : Message) (ms : List Message)
    → All (λ m'. tenant_of m' ≡ tenant_of m) ms
    → claim (m ∷ ms) [] ≡ (m ∷ [], queue_of (tenant_of m) ms)
unfolding claim enqueue_all enqueue append_to lookup insert
claim_starts_one m ms h =
    ap dispatch_queued (collect (tenant_of m) (m ∷ []) ms h) ∙ start_head (tenant_of m) m ms
