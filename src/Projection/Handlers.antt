-- ===== src/Projection/Handlers.antt =====
-- application/commands/search: the two commands that keep the search index in step with the catalog,
-- and the tasks that the worker runs for the catalog's events
-- (infrastructure/task_manager/tasks/projection_tasks.py).
pub mod Settled
pub mod Deliveries
use answer_service.Base.{Option, none, some, List, [], ◌∷◌}
use answer_service.Base.Text.{Text}
use answer_service.Application.Io.{Io, pure, lift, ◌>>=◌, ◌>>◌}
use answer_service.Application.Scope.{Scope, open_scope, on_store}
use answer_service.Application.Ports.{
  Environment, TransactionManager, CatalogGateway, OutboxGateway,
}
use answer_service.Application.Pipelines.{run_command}
use answer_service.Application.Outbox.{Dump, publish}
use answer_service.Indexing.Values.{ExternalId, external_id}
use answer_service.Indexing.Event.{
  EventBody, qa_pair_added, qa_pair_content_updated, qa_pair_removed,
}
use answer_service.Indexing.Pair.{QaPair}
use answer_service.Projection.Writer.{VectorStore, to_document, upsert, delete}

module _ {S : Type 0} (catalog : CatalogGateway S) (vectors : VectorStore S) where
  project_pair : Option QaPair → Io S (Unit {0})
  unfolding upsert to_document
  project_pair none = pure tt
  project_pair (some pair) = upsert vectors (to_document pair ∷ [])

  -- `UpsertQAPairHandler.handle`
  unfoldable pub upsert_qa_pair : ExternalId → Io S (Unit {0})
  unfolding project_pair
  upsert_qa_pair i = do pair ← catalog.read_by_id i; project_pair pair

-- `RemoveQAPairHandler.handle`
unfoldable pub remove_qa_pair : {S : Type 0} → VectorStore S → ExternalId → Io S (Unit {0})
unfolding delete
remove_qa_pair vectors i = delete vectors (i ∷ [])

module _ {S : Type 0} (env : Environment S) (manager : TransactionManager S) (dump : Dump)
    (outbox : OutboxGateway S) where
  -- `sender.send` of a command, through the two pipelines of every command.
  send : (ExternalId → Io S (Unit {0})) → ExternalId → Io (Scope S) (Unit {0})
  unfolding run_command publish
  send handler i = run_command manager (publish env dump outbox) (λ j. on_store (handler j)) i

  -- The body of either task: the id is made again of the payload's text.
  run_projection : (ExternalId → Io S (Unit {0})) → Text → Io (Scope S) (Unit {0})
  unfolding send
  run_projection handler value = do i ← lift (external_id value); send handler i

-- Each task runs in a request scope of its own.
in_scope : {S : Type 0} → Io (Scope S) (Unit {0}) → Io S (Unit {0})
in_scope m s = ((m (open_scope s)).0, (m (open_scope s)).1.store)

module _ {S : Type 0} (env : Environment S) (manager : TransactionManager S) (dump : Dump)
    (outbox : OutboxGateway S) (catalog : CatalogGateway S) (vectors : VectorStore S) where
  unfoldable pub upsert_qa_pair_task : (external_id : Text) → Io (Scope S) (Unit {0})
  unfolding run_projection upsert_qa_pair
  upsert_qa_pair_task value =
      run_projection env manager dump outbox (upsert_qa_pair catalog vectors) value

  unfoldable pub remove_qa_pair_task : (external_id : Text) → Io (Scope S) (Unit {0})
  unfolding run_projection remove_qa_pair
  remove_qa_pair_task value = run_projection env manager dump outbox (remove_qa_pair vectors) value

  -- The task that `setup_projection_tasks` registers under the event's name; the other events of the
  -- domain have tasks of their own, which do not touch the index.
  unfoldable pub project : EventBody → Io S (Unit {0})
  unfolding in_scope upsert_qa_pair_task remove_qa_pair_task
  project (qa_pair_added i) = in_scope (upsert_qa_pair_task i.value)
  project (qa_pair_content_updated i) = in_scope (upsert_qa_pair_task i.value)
  project (qa_pair_removed i) = in_scope (remove_qa_pair_task i.value)
  project _ = pure tt

  -- The worker takes the messages one after the other.
  unfoldable pub deliver : List EventBody → Io S (Unit {0})
  unfolding project
  deliver [] = pure tt
  deliver (b ∷ bs) = project b >> deliver bs
