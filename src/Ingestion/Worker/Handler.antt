-- ===== src/Ingestion/Worker/Handler.antt =====
-- `_handle_message` of services/ingestion-service/src/stream_worker.py. What the calls answer is a
-- record; false and `none` are exceptions.
pub mod Outcomes
use docintel.Common.{
  not, length, ℕ, ltb, Bool, true, false, Option, none, some, List, [], ◌∷◌, ◌++◌, Text, codes,
  is_empty, if◌then◌else◌,
}
use docintel.Ingestion.Worker.{Message, get_either}

-- `_MAX_DELIVERY_COUNT`.
abbrev pub max_delivery_count : ℕ
max_delivery_count = 3

-- `adapter.fetch`: files, or an object that is missing, or another exception.
pub data Fetched : Type 0 where
  files missing fetch_raises : Fetched

-- The result of `run_ingestion`: its chunks are empty if they were stored shard by shard.
pub record Ingested (C : Type 0) : Type 0 where
  pub chunks : List C
  pub chunk_count : ℕ
  pub domain : Text

pub data Status : Type 0 where
  completed failed : Status

-- An event on `ingestion.complete`, without the text of its error.
pub record Completion : Type 0 where
  pub document_id : Text
  pub tenant_id : Text
  pub chunk_count : ℕ
  pub domain : Text
  pub status : Status

-- What the calls answer. The failure that the `except` branch publishes has an answer of its own.
pub record Answers (C : Type 0) : Type 0 where
  pub delivery_count : ℕ
  pub fetch : Fetched
  pub ingest : Option (Ingested C)
  pub persist : Bool
  pub publishes : Bool
  pub publishes_failure : Bool
  pub acks : Bool

-- What one run did: the published events, the chunks that it handed to the document service, whether
-- the message is acknowledged, and whether an exception leaves the function.
pub record Handled (C : Type 0) : Type 0 where
  pub published : List Completion
  pub persisted : List C
  pub acked : Bool
  pub raised : Bool

module _ {C : Type 0} (a : Answers C) (msg : Message) where
  pub document_id : Text
  document_id = get_either msg.1 (codes "documentId") (codes "document_id") []

  pub tenant_id : Text
  tenant_id = get_either msg.1 (codes "tenantId") (codes "tenant_id") (codes "default")

  -- `_publish_complete(..., 0, "general", "FAILED", ...)`.
  abbrev pub failure : Completion
  failure = record {
    document_id = document_id;
    tenant_id = tenant_id;
    chunk_count = 0;
    domain = codes "general";
    status = failed;
  }

  abbrev pub success : Ingested C → Completion
  success r = record {
    document_id = document_id;
    tenant_id = tenant_id;
    chunk_count = r.chunk_count;
    domain = r.domain;
    status = completed;
  }

  -- The `except` branch: the failure is published, and the message stays pending.
  unfoldable pub on_exception : List Completion → List C → Handled C
  on_exception published persisted = record {
    published = if a.publishes_failure then published ++ failure ∷ [] else published;
    persisted = persisted;
    acked = false;
    raised = not (a.publishes_failure);
  }

  -- Publish, and then acknowledge, inside the `try`.
  unfoldable pub publish_and_ack : Completion → List C → Handled C
  publish_and_ack c persisted =
      if a.publishes
      then if a.acks
        then record { published = c ∷ []; persisted = persisted; acked = true; raised = false }
        else on_exception (c ∷ []) persisted
      else on_exception [] persisted

  -- Behind the ingestion.
  unfoldable pub store : Ingested C → Handled C
  store r =
      if is_empty r.chunks
      then publish_and_ack (success r) []
      else if a.persist
      then publish_and_ack (success r) r.chunks
      else on_exception [] []

  unfoldable pub process_ingested : Option (Ingested C) → Handled C
  process_ingested none = on_exception [] []
  process_ingested (some r) = store r

  unfoldable pub process : Fetched → Handled C
  process missing = publish_and_ack failure []
  process fetch_raises = on_exception [] []
  process files = process_ingested a.ingest

  -- Too many deliveries: outside the `try`.
  unfoldable pub give_up : Handled C
  give_up =
      if a.publishes
      then record { published = failure ∷ []; persisted = []; acked = a.acks; raised = not a.acks }
      else record { published = []; persisted = []; acked = false; raised = true }

  unfoldable pub handle_message : Handled C
  handle_message = if ltb max_delivery_count a.delivery_count then give_up else process a.fetch
