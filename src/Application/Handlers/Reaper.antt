-- ===== src/Application/Handlers/Reaper.antt =====
-- application/commands/indexing/reap_stuck_tasks and enqueue_indexing: the two ends of a task's life
-- that no worker takes part in.
use answer_service.Base.{ℕ, ◌-◌, List, [], ◌∷◌, length}
use answer_service.Base.Text.{Text, text}
use answer_service.Errors.{ok}
use answer_service.Application.Io.{Io, pure, lift, ◌>>=◌, ◌>>◌}
use answer_service.Application.Scope.{Scope, on_store, ask}
use answer_service.Application.Ports.{Environment, TaskGateway, SourceFiles}
use answer_service.Application.Handlers.{act}
use answer_service.Indexing.Values.{SourceReference, failure_info}
use answer_service.Indexing.Task.{IndexingTask, TaskStatus, abandon, queue}

abbrev pub abandoned_failure_code : Text
abandoned_failure_code = text "TaskAbandoned"

module _ {S : Type 0} (env : Environment S) (tasks : TaskGateway S) where
  -- One round of the loop over the stuck tasks; `message` is the text of its failure.
  unfoldable pub reap_one : (message : Text) → IndexingTask → Io (Scope S) (Unit {0})
  unfolding abandon failure_info
  reap_one message task = do
    info ← lift (failure_info abandoned_failure_code message)
    now ← ask env.now
    task' ← act (abandon now info task)
    on_store (tasks.update task')

  unfoldable pub reap_all : (message : Text) → List IndexingTask → Io (Scope S) (Unit {0})
  unfolding reap_one
  reap_all message [] = pure tt
  reap_all message (task ∷ rest) = reap_one message task >> reap_all message rest

  -- `ReapStuckTasksHandler.handle`: a cutoff before the epoch's start is the start.
  unfoldable pub reap_stuck_tasks : (stuck_after batch_size : ℕ) (message : Text) → Io (Scope S) ℕ
  unfolding reap_all
  reap_stuck_tasks stuck_after batch_size message = do
    now ← ask env.now
    stuck ← on_store (tasks.read_stuck (now - stuck_after) batch_size)
    reap_all message stuck >> pure (length stuck)

module _ {S Bytes : Type 0} (env : Environment S) (tasks : TaskGateway S)
    (files : SourceFiles S Bytes) where
  -- `IndexingTaskFactory.create`
  unfoldable pub create_task : SourceReference → Io (Scope S) IndexingTask
  unfolding queue
  create_task source = do
    task_id ← ask env.uuid4
    now ← ask env.now
    act (ok (queue task_id now source))

  -- `EnqueueIndexingHandler.handle`
  unfoldable pub enqueue_indexing :
      (content : Bytes) (filename : Text) → Io (Scope S) (ℕ × TaskStatus)
  unfolding create_task
  enqueue_indexing content filename = on_store (files.validate content filename) >> (do
    source ← on_store (files.save content filename)
    task ← create_task source
    on_store (tasks.add task) >> pure (task.id, task.status))
