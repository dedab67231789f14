-- ===== src/Tests/Statuses.antt =====
-- The worker's task over a table of tasks in memory, and the status that is shown then.
use answer_service.Base.{
  ℕ, nat_eq, nat_beq, ◌≡◌, refl, sym, ◌∙◌, ap, Bool, Option, none, some, List, [], ◌∷◌,
  if◌then◌else◌, ==_refl,
}
use answer_service.Base.Text.{text_beq, strip}
use answer_service.Errors.Hierarchy.{caught}
use answer_service.Application.Handlers.Sync.{run_sync}
use answer_service.Application.Outbox.{publish}
use answer_service.Application.Scope.{Scope}
use answer_service.Application.Worker.{run_indexing_task}
use answer_service.Indexing.Task.{IndexingTask}
use answer_service.Database.Session.{Table, KeyLaws, ColumnLaws, rows_of}
use answer_service.Database.Tasks.{sql_task_gateway}
use answer_service.Database.TaskViews.{get_indexing_task}
use answer_service.Database.TaskViews.Shown.{
  ShowsFinished, columns_of, get_indexing_task-run_indexing_task,
}
use answer_service.Tests.Commands.{
  full_catalog, with_task, error_name, row_b, empty_dump, memory-KeepsTasks,
}
use answer_service.Tests.Data.{plain_digest}
use answer_service.Tests.Memory.{
  Memory, find_task, find_task-id, task_of, saved_task_of, memory-UnitOfWork, memory_env,
  memory_manager, memory_outbox, one_row_files,
}

abbrev first_of : (IndexingTask → Bool) → List IndexingTask → Option IndexingTask
first_of p [] = none
first_of p (t ∷ ts) = if p t then some t else first_of p ts

abbrev pub task_table : Table Memory IndexingTask
task_table = record {
  add = λ t s. record s { tasks = t ∷ s.tasks };
  select = λ p s. (some (rows_of (first_of p s.tasks)), s);
  select_columns = λ p s. (some (rows_of (first_of p s.saved)), s);
  select_first = λ p order_by limit s. (some [], s);
  delete_where = λ p s. (some tt, s);
  update_where = λ p f s. (some tt, s);
  changed = λ t s. record s { tasks = t ∷ s.tasks };
}

first_of-find_task :
    (ts : List IndexingTask) (i : ℕ) → first_of (λ t. nat_beq t.id i) ts ≡ find_task ts i
first_of-find_task [] i = refl
first_of-find_task (t ∷ ts) i =
    ap (λ o. if nat_beq t.id i then some t else o) (first_of-find_task ts i)

pub task_table-KeyLaws : KeyLaws task_table (λ t. t.id) task_of
task_table-KeyLaws = record {
  lookup_key = λ s k r h. find_task-id s.tasks k r h;
  selects_key = λ k s t rs h.
      let e : some (rows_of (first_of (λ r. nat_beq r.id k) s.tasks)) ≡ some rs =
        ap (λ (q : Option (List IndexingTask) × Memory). q.0) h in
      let same : rows_of (first_of (λ r. nat_beq r.id k) s.tasks) ≡ rs = cc e in
      (
        sym same ∙ ap rows_of (first_of-find_task s.tasks k),
        ap (λ (q : Option (List IndexingTask) × Memory). task_of q.1) (sym h),
      );
  changes_key = λ r s. rw (==_refl r.id) refl;
}

pub task_table-ColumnLaws : ColumnLaws task_table (λ t. t.id) saved_task_of
task_table-ColumnLaws = record {
  shown_key = λ s k r h. find_task-id s.saved k r h;
  selects_columns = λ k s t rs h.
      let e : some (rows_of (first_of (λ r. nat_beq r.id k) s.saved)) ≡ some rs =
        ap (λ (q : Option (List IndexingTask) × Memory). q.0) h in
      let same : rows_of (first_of (λ r. nat_beq r.id k) s.saved) ≡ rs = cc e in
      sym same ∙ ap rows_of (first_of-find_task s.saved k);
}

abbrev ended : Scope Memory
ended =
    (run_indexing_task memory_env memory_manager (sql_task_gateway task_table) full_catalog
      (one_row_files row_b) plain_digest (publish memory_env empty_dump memory_outbox) error_name
      error_name 3 with_task).1

get_indexing_task-run_indexing_task_example :
    ShowsFinished 3
      (columns_of task_table 3 ended.store)
      (get_indexing_task task_table 3 ended.store).0
unfolding run_indexing_task caught text_beq publish run_sync strip sql_task_gateway
get_indexing_task-run_indexing_task_example =
    get_indexing_task-run_indexing_task task_table saved_task_of task_table-ColumnLaws task_of
      saved_task_of task_table-KeyLaws memory_env memory_manager memory-UnitOfWork memory_outbox
      memory-KeepsTasks empty_dump full_catalog (one_row_files row_b) plain_digest error_name
      error_name 3 with_task ended ended.store refl refl
