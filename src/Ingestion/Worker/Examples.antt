-- ===== src/Ingestion/Worker/Examples.antt =====
-- The worker at small data.
use docintel.Common.{lookup, text_eq, Bool, ℕ, ◌+◌, ◌≡◌, refl, true, some, [], ◌∷◌, codes}
use docintel.Ingestion.Worker.{get_either, Message, tenant_of, receives, claims, run, claim}
use docintel.Ingestion.Worker.Fairness.{
  queue_of, count, waiting, incoming, run-waiting, run_arrival_order, claim_starts_one,
}
use docintel.Ingestion.Worker.Handler.{
  files, Ingested, Answers, handle_message, process, process_ingested, store, publish_and_ack,
}
use docintel.Ingestion.Worker.Handler.Outcomes.{Acknowledged, handle_message-Acknowledged}

abbrev first : Message
first = (codes "1-0", (codes "tenantId", codes "a") ∷ (codes "documentId", codes "d1") ∷ [])

abbrev second : Message
second = (codes "2-0", (codes "tenantId", codes "a") ∷ (codes "documentId", codes "d2") ∷ [])

same_tenant : tenant_of second ≡ tenant_of first
unfolding tenant_of get_either lookup text_eq
same_tenant = refl

abbrev result : Ingested ℕ
result = record { chunks = 1 ∷ 2 ∷ []; chunk_count = 2; domain = codes "general" }

abbrev answers : Bool → Answers ℕ
answers acks = record {
  delivery_count = 1;
  fetch = files;
  ingest = some result;
  persist = true;
  publishes = true;
  publishes_failure = true;
  acks = acks;
}

handle_message-Acknowledged_example :
    Acknowledged (answers true) first (handle_message (answers true) first)
unfolding handle_message process process_ingested store publish_and_ack
handle_message-Acknowledged_example = handle_message-Acknowledged (answers true) first refl

-- The messages of the second document.
abbrev of_second : Message → Bool
of_second m = text_eq m.0 (codes "2-0")

run-waiting_example :
    count of_second (run (receives first ∷ claims (second ∷ []) ∷ []) []).0
      + waiting of_second (run (receives first ∷ claims (second ∷ []) ∷ []) []).1
    ≡ incoming of_second (receives first ∷ claims (second ∷ []) ∷ []) + waiting of_second []
run-waiting_example = run-waiting of_second (receives first ∷ claims (second ∷ []) ∷ []) []

run_arrival_order_example :
    run (receives first ∷ receives second ∷ []) [] ≡ (first ∷ second ∷ [], [])
run_arrival_order_example = run_arrival_order (first ∷ second ∷ [])

claim_starts_one_example :
    claim (first ∷ second ∷ []) [] ≡ (first ∷ [], queue_of (tenant_of first) (second ∷ []))
claim_starts_one_example = claim_starts_one first (second ∷ []) (same_tenant, tt)
