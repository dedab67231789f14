-- ===== src/Application/Worker.antt =====
-- infrastructure/task_manager/tasks/indexing_tasks.py: the broker's task that drives one run. Its
-- three commands are sent in one request scope: they share its EventsCollection.
pub mod Settled
pub mod Committed
pub mod Leak
use answer_service.Base.{ℕ, Option, none, some, List}
use answer_service.Base.Text.{Text}
use answer_service.Errors.{Error}
use answer_service.Application.Io.{Io, try_app_error, ◌>>◌}
use answer_service.Application.Scope.{Scope}
use answer_service.Application.Ports.{
  Environment, TransactionManager, TaskGateway, CatalogGateway, SourceFiles,
}
use answer_service.Application.Pipelines.{run_command}
use answer_service.Application.Handlers.{mark_indexing_running, mark_indexing_failed}
use answer_service.Application.Handlers.Sync.{run_indexing}
use answer_service.Indexing.Event.{Event}
use answer_service.Indexing.Fingerprint.{Digest}

module _ {S Bytes : Type 0} (env : Environment S) (manager : TransactionManager S)
    (tasks : TaskGateway S) (catalog : CatalogGateway S) (files : SourceFiles S Bytes)
    (sha256 : Digest) (publish : List Event → Io (Scope S) (Unit {0}))
    (type_name message : Error → Text) where
  -- `sender.send(MarkIndexingRunningCommand(...))` and the other two, through the two pipelines.
  unfoldable pub send_running : (task_id : ℕ) → Io (Scope S) (Unit {0})
  unfolding run_command mark_indexing_running
  send_running task_id =
      run_command manager publish (λ i. mark_indexing_running env tasks i) task_id

  unfoldable pub send_run : (task_id : ℕ) → Io (Scope S) (Unit {0})
  unfolding run_command run_indexing
  send_run task_id =
      run_command manager publish (λ i. run_indexing env catalog sha256 files tasks i) task_id

  unfoldable pub send_failed : (task_id : ℕ) → Error → Io (Scope S) (Unit {0})
  unfolding run_command mark_indexing_failed
  send_failed task_id error =
      run_command manager publish
        (λ i. mark_indexing_failed env tasks i (type_name error) (message error)) task_id

  -- `run_indexing_task`
  unfoldable pub run_indexing_task : (task_id : ℕ) → Io (Scope S) (Unit {0})
  unfolding send_running send_run send_failed
  run_indexing_task task_id =
      send_running task_id >> try_app_error (send_run task_id) (λ error. send_failed task_id error)
