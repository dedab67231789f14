-- ===== src/Database/TaskViews.antt =====
-- The status endpoint's side of a task: sqlalchemy_indexing_task_query_gateway.py, its row mapper
-- (infrastructure/mappers/sqlalchemy_indexing_task_view_mapper.py) and GetIndexingTaskHandler.
pub mod Shown
use answer_service.Base.{ℕ, Bool, Option, none, some, nat_beq}
use answer_service.Base.Int.{ℤ}
use answer_service.Base.Text.{Text}
use answer_service.Errors.{indexing_task_not_found}
use answer_service.Application.Io.{Io, pure, raise, ◌>>=◌}
use answer_service.Indexing.Values.{FailureInfo}
use answer_service.Indexing.Task.{IndexingTask, TaskStatus, is_terminal}
use answer_service.Database.Session.{Table, attempt, one_of}

-- ports/gateways/indexing_task_query_gateway.py
pub record IndexingTaskView : Type 0 where
  pub task_id : ℕ
  pub status : TaskStatus
  pub source : Text
  pub created_at : ℕ
  pub started_at : Option ℕ
  pub finished_at : Option ℕ
  pub created : ℤ
  pub updated : ℤ
  pub deleted : ℤ
  pub skipped : ℤ
  pub failure_code : Option Text
  pub failure_message : Option Text

-- `IndexingTaskView.is_finished`
abbrev pub is_finished : IndexingTaskView → Bool
is_finished view = is_terminal view.status

abbrev code_of : Option FailureInfo → Option Text
code_of none = none
code_of (some f) = some f.code

abbrev message_of : Option FailureInfo → Option Text
message_of none = none
message_of (some f) = some f.message

-- `to_view`, of the row's columns, which are those of the task.
unfoldable pub to_view : IndexingTask → IndexingTaskView
to_view row = record {
  task_id = row.id;
  status = row.status;
  source = row.source.value;
  created_at = row.created_at;
  started_at = row.started_at;
  finished_at = row.finished_at;
  created = row.stats.created;
  updated = row.stats.updated;
  deleted = row.stats.deleted;
  skipped = row.stats.skipped;
  failure_code = code_of row.failure;
  failure_message = message_of row.failure;
}

abbrev view_if : Option IndexingTask → Option IndexingTaskView
view_if none = none
view_if (some row) = some (to_view row)

module _ {S : Type 0} (table : Table S IndexingTask) where
  -- `SqlAlchemyIndexingTaskQueryGateway.read_by_id`
  unfoldable pub read_view : (task_id : ℕ) → Io S (Option IndexingTaskView)
  unfolding to_view
  read_view task_id = do
    row ← attempt (λ s. one_of (table.select_columns (λ t. nat_beq t.id task_id) s))
    pure (view_if row)

  abbrev pub or_not_found : Option IndexingTaskView → Io S IndexingTaskView
  or_not_found none = raise indexing_task_not_found
  or_not_found (some view) = pure view

  -- `GetIndexingTaskHandler.handle`
  unfoldable pub get_indexing_task : (task_id : ℕ) → Io S IndexingTaskView
  unfolding read_view
  get_indexing_task task_id = do view ← read_view task_id; or_not_found view
