-- ===== src/Application/Ports.antt =====
-- The ports (application/common/ports) as interfaces over a store `S`: what the handlers call and the
-- database, the vector store, the file system and the operating system implement.
use answer_service.Base.{ℕ, Option, List}
use answer_service.Base.Text.{Text}
use answer_service.Application.Io.{Io}
use answer_service.Indexing.Values.{ExternalId, SourceReference}
use answer_service.Indexing.Task.{IndexingTask}
use answer_service.Indexing.Pair.{QaPair}
use answer_service.Indexing.Planner.{Manifest}

-- datetime.now(UTC) and uuid4(): each read may give another value.
pub record Environment (S : Type 0) : Type 0 where
  pub now : S → ℕ × S
  pub uuid4 : S → ℕ × S

-- ports/transaction_manager.py
pub record TransactionManager (S : Type 0) : Type 0 where
  pub commit : Io S (Unit {0})
  pub rollback : Io S (Unit {0})

-- ports/gateways/indexing_task_command_gateway.py
pub record TaskGateway (S : Type 0) : Type 0 where
  pub add : IndexingTask → Io S (Unit {0})
  pub read_by_id : ℕ → Io S (Option IndexingTask)
  pub update : IndexingTask → Io S (Unit {0})
  pub read_stuck : (started_before limit : ℕ) → Io S (List IndexingTask)

-- ports/gateways/qa_catalog_command_gateway.py and qa_catalog_query_gateway.py, `read_fingerprints`
pub record CatalogGateway (S : Type 0) : Type 0 where
  pub add : QaPair → Io S (Unit {0})
  pub read_by_id : ExternalId → Io S (Option QaPair)
  pub update : QaPair → Io S (Unit {0})
  pub delete_by_id : ExternalId → Io S (Unit {0})
  pub read_fingerprints : Io S Manifest

-- ports/outbox/outbox_message.py
pub record OutboxMessage : Type 0 where
  pub id : ℕ
  pub event_type : Text
  pub payload : Text
  pub created_at : ℕ
  pub processed_at : Option ℕ

-- ports/outbox/outbox_command_gateway.py
pub record OutboxGateway (S : Type 0) : Type 0 where
  pub add : OutboxMessage → Io S (Unit {0})
  pub read_pending : (limit : ℕ) → Io S (List OutboxMessage)
  pub mark_processed : (message_id : ℕ) → Io S (Unit {0})

-- ports/source_file/source_row.py
pub record SourceRow : Type 0 where
  pub external_id : Text
  pub question : Text
  pub answer : Text
  pub category : Text
  pub updated_at : ℕ

-- ports/source_file/source_file_reader.py and source_file_storage.py; `Bytes` is the file's content.
pub record SourceFiles (S Bytes : Type 0) : Type 0 where
  pub validate : (content : Bytes) (filename : Text) → Io S (Unit {0})
  pub read_rows : (content : Bytes) → Io S (List SourceRow)
  pub save : (content : Bytes) (filename : Text) → Io S SourceReference
  pub open_source : SourceReference → Io S Bytes
