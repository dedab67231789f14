-- ===== src/Application/Handlers.antt =====
-- application/commands/indexing: the handlers that move a task through its life.
pub mod Sync
pub mod Reaper
pub mod Settled
use answer_service.Base.{
  ℕ, ◌-◌, Bool, true, false, not, Option, none, some, List, [], ◌∷◌, length, ltb, if◌then◌else◌,
}
use answer_service.Base.Text.{Text}
use answer_service.Errors.{Result, ok, err, indexing_task_not_found}
use answer_service.Application.Io.{Io, pure, raise, lift, ◌>>=◌, ◌>>◌}
use answer_service.Application.Scope.{Scope, on_store, ask, add_events}
use answer_service.Application.Ports.{Environment, TaskGateway}
use answer_service.Indexing.Event.{EventBody}
use answer_service.Indexing.Values.{SourceReference, FailureInfo, failure_info}
use answer_service.Indexing.Task.{
  IndexingTask, TaskStatus, queued, is_terminal, status_beq, Emits, queue, start, fail,
}

module _ {S : Type 0} where
  -- A method of an aggregate: its exception, or its events added to the scope's collection.
  abbrev pub act : {A : Type 0} → Result (A × List EventBody) → Io (Scope S) A
  act (ok (a, es)) = add_events es >> pure a
  act (err e) = raise e

module _ {S : Type 0} (env : Environment S) (tasks : TaskGateway S) where
  -- The rest of MarkIndexingRunningHandler.handle, over the task that was read.
  unfoldable pub start_if_queued : Option IndexingTask → Io (Scope S) (Unit {0})
  start_if_queued none = raise indexing_task_not_found
  start_if_queued (some task) =
      if status_beq task.status queued
      then (do now ← ask env.now; task' ← act (start now task); on_store (tasks.update task'))
      else pure tt

  -- `MarkIndexingRunningHandler.handle`
  unfoldable pub mark_indexing_running : (task_id : ℕ) → Io (Scope S) (Unit {0})
  unfolding start_if_queued start
  mark_indexing_running task_id = do
    task ← on_store (tasks.read_by_id task_id)
    start_if_queued task

  unfoldable pub fail_if_open : Text → Text → Option IndexingTask → Io (Scope S) (Unit {0})
  fail_if_open code message none = raise indexing_task_not_found
  fail_if_open code message (some task) = if is_terminal task.status then pure tt else (do
    info ← lift (failure_info code message)
    now ← ask env.now
    task' ← act (fail now info task)
    on_store (tasks.update task'))

  -- `MarkIndexingFailedHandler.handle`
  unfoldable pub mark_indexing_failed :
      (task_id : ℕ) (code message : Text) → Io (Scope S) (Unit {0})
  unfolding fail_if_open fail failure_info
  mark_indexing_failed task_id code message = do
    task ← on_store (tasks.read_by_id task_id)
    fail_if_open code message task
