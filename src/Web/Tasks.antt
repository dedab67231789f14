-- ===== src/Web/Tasks.antt =====
-- routes/indexing: handlers.py and schemas.py of the upload and of the status that its caller polls.
pub mod Polled
use answer_service.Base.{ℕ, Bool, Option, none, some, List, []}
use answer_service.Base.Int.{ℤ}
use answer_service.Base.Text.{Text}
use answer_service.Application.Io.{Io, pure, ◌>>=◌}
use answer_service.Application.Scope.{Scope}
use answer_service.Application.Ports.{Environment, TransactionManager, TaskGateway, SourceFiles}
use answer_service.Application.Handlers.Reaper.{enqueue_indexing}
use answer_service.Application.Pipelines.{run_command}
use answer_service.Indexing.Event.{Event}
use answer_service.Indexing.Task.{IndexingTask, TaskStatus}
use answer_service.Database.Session.{Table}
use answer_service.Database.TaskViews.{IndexingTaskView, is_finished, get_indexing_task}
use answer_service.Persistence.Columns.{task_status_value}
use answer_service.Web.Replies.{Reply, respond, validated}

-- EnqueueIndexingResponse of the route.
pub record EnqueueIndexingSchema : Type 0 where
  pub task_id : ℕ
  pub status : Text

-- SyncStatsSchema
pub record SyncStatsSchema : Type 0 where
  pub created : ℤ
  pub updated : ℤ
  pub deleted : ℤ
  pub skipped : ℤ

-- IndexingTaskResponse
pub record IndexingTaskResponse : Type 0 where
  pub task_id : ℕ
  pub status : Text
  pub source : Text
  pub is_finished : Bool
  pub created_at : ℕ
  pub started_at : Option ℕ
  pub finished_at : Option ℕ
  pub stats : SyncStatsSchema
  pub failure_code : Option Text
  pub failure_message : Option Text

-- `IndexingTaskResponse.of`
unfoldable pub task_schema : IndexingTaskView → IndexingTaskResponse
task_schema view = record {
  task_id = view.task_id;
  status = task_status_value view.status;
  source = view.source;
  is_finished = is_finished view;
  created_at = view.created_at;
  started_at = view.started_at;
  finished_at = view.finished_at;
  stats = record {
    created = view.created;
    updated = view.updated;
    deleted = view.deleted;
    skipped = view.skipped;
  };
  failure_code = view.failure_code;
  failure_message = view.failure_message;
}

module _ {S : Type 0} (table : Table S IndexingTask) where
  -- `get_indexing_task_handler`
  unfoldable pub task_handler : (task_id : ℕ) → Io S IndexingTaskResponse
  unfolding task_schema
  task_handler task_id = do view ← get_indexing_task table task_id; pure (task_schema view)

  -- GET /api/v1/tasks/{task_id}, of an id that is a UUID.
  unfoldable pub get_task : (task_id : ℕ) → S → Reply IndexingTaskResponse × S
  unfolding task_handler
  get_task task_id = respond 200 (task_handler task_id)

-- An uploaded file: `file.filename or ""`, and its content.
pub record UploadFile (Bytes : Type 0) : Type 0 where
  pub filename : Option Text
  pub content : Bytes

abbrev pub or_empty : Option Text → Text
or_empty none = []
or_empty (some name) = name

module _ {S Bytes : Type 0} (env : Environment S) (manager : TransactionManager S)
    (publish : List Event → Io (Scope S) (Unit {0})) (tasks : TaskGateway S)
    (files : SourceFiles S Bytes) where
  -- `sender.send` of EnqueueIndexingCommand: the command's pipelines around its handler.
  unfoldable pub send_enqueue : UploadFile Bytes → Io (Scope S) (ℕ × TaskStatus)
  send_enqueue =
      run_command manager publish
        (λ file. enqueue_indexing env tasks files file.content (or_empty file.filename))

  -- `enqueue_indexing_handler`
  unfoldable pub enqueue_handler : UploadFile Bytes → Io (Scope S) EnqueueIndexingSchema
  unfolding send_enqueue
  enqueue_handler file = do
    response ← send_enqueue file
    pure (record { task_id = response.0; status = task_status_value response.1 })

  -- POST /api/v1/index/sync; a form without the file is refused by the framework.
  unfoldable pub post_sync :
      Option (UploadFile Bytes) → Scope S → Reply EnqueueIndexingSchema × Scope S
  unfolding enqueue_handler
  post_sync form = validated 202 form enqueue_handler
