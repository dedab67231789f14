-- ===== src/Database/TaskViews/Shown.antt =====
-- What the status endpoint shows once the worker is done with a task.
use answer_service.Base.{
  ℕ, nat_eq, nat_beq, ◌≡◌, refl, sym, ◌∙◌, ap, true, Option, none, some, List,
}
use answer_service.Base.Text.{Text}
use answer_service.Errors.{Error, Result, ok, err, repo_error}
use answer_service.Application.Scope.{Scope}
use answer_service.Application.Ports.{
  Environment, TransactionManager, CatalogGateway, OutboxGateway, SourceFiles,
}
use answer_service.Application.Handlers.Settled.{is_settled}
use answer_service.Application.Outbox.{Dump, publish}
use answer_service.Application.Worker.{run_indexing_task}
use answer_service.Application.Worker.Settled.{KeepsTasks, run_indexing_task-settles}
use answer_service.Indexing.Fingerprint.{Digest}
use answer_service.Indexing.Task.{IndexingTask}
use answer_service.Database.Session.{Table, KeyLaws, ColumnLaws, one_of, one_or_none}
use answer_service.Application.Pipelines.Atomicity.{UnitOfWork}
use answer_service.Application.Worker.Committed.{run_indexing_task-committed}
use answer_service.Database.Tasks.{sql_task_gateway}
use answer_service.Database.TaskTable.{one_of_rows, sql_task_gateway-TaskLaws}
use answer_service.Database.TaskViews.{
  IndexingTaskView, is_finished, to_view, read_view, get_indexing_task,
}

-- The endpoint's answer for a finished task: its view, or the error where the read of the columns has
-- failed.
pub data ShowsFinished (task_id : ℕ) (found : Option (List IndexingTask))
    : Result IndexingTaskView → Type 0 where
  is_shown :
      (view : IndexingTaskView)
      → view.task_id ≡ task_id
      → is_finished view ≡ true
      → ShowsFinished task_id found (ok view)
  not_read : found ≡ none → ShowsFinished task_id found (err repo_error)

-- The columns that the database gives for an id, or that it fails.
abbrev pub columns_of : {S : Type 0} → Table S IndexingTask → ℕ → S → Option (List IndexingTask)
columns_of table task_id s = (table.select_columns (λ t. nat_beq t.id task_id) s).0

module _ {S : Type 0} (table : Table S IndexingTask) (shown : S → ℕ → Option IndexingTask)
    (columns : ColumnLaws table (λ t. t.id) shown) where
  -- A read of the view by id: the columns of the row that the database shows, or a failure.
  pub read_columns :
      (task_id : ℕ) (s u : S) (o : Option IndexingTask)
      → one_of (table.select_columns (λ t. nat_beq t.id task_id) s) ≡ (some o, u)
      → o ≡ shown s task_id
  read_columns task_id s u o h =
      go (table.select_columns (λ t. nat_beq t.id task_id) s).0
        (table.select_columns (λ t. nat_beq t.id task_id) s).1 refl h
    where
      go :
          (found : Option (List IndexingTask)) (v : S)
          → table.select_columns (λ t. nat_beq t.id task_id) s ≡ (found, v)
          → one_of (found, v) ≡ (some o, u)
          → o ≡ shown s task_id
      go none v e k =
          let no : ⊥ = cc (ap (λ (q : Option (Option IndexingTask) × S). q.0) k) in elim no [ ]
      go (some rs) v e k =
          let one : one_or_none rs ≡ some o =
            ap (λ (q : Option (Option IndexingTask) × S). q.0) k in
          let both : some (shown s task_id) ≡ some o =
            sym (one_of_rows (shown s task_id))
            ∙ ap one_or_none (sym (columns.selects_columns task_id s v rs e))
            ∙ one in
          cc both

  -- A read that fails is the database's failure.
  pub read_nothing :
      (task_id : ℕ) (s u : S)
      → one_of (table.select_columns (λ t. nat_beq t.id task_id) s) ≡ (none, u)
      → columns_of table task_id s ≡ none
  read_nothing task_id s u h =
      go (columns_of table task_id s) (table.select_columns (λ t. nat_beq t.id task_id) s).1 refl h
    where
      go :
          (found : Option (List IndexingTask)) (v : S)
          → table.select_columns (λ t. nat_beq t.id task_id) s ≡ (found, v)
          → one_of (found, v) ≡ (none, u)
          → columns_of table task_id s ≡ none
      go none v e k = ap (λ (q : Option (List IndexingTask) × S). q.0) e
      go (some rs) v e k =
          let many : one_or_none rs ≡ none = ap (λ (q : Option (Option IndexingTask) × S). q.0) k in
          let one : one_or_none rs ≡ some (shown s task_id) =
            ap one_or_none (columns.selects_columns task_id s v rs e)
            ∙ one_of_rows (shown s task_id) in
          cc (sym one ∙ many)

  get_indexing_task-ShowsFinished :
      (task_id : ℕ) (s : S)
      → is_settled (shown s task_id) ≡ true
      → ShowsFinished task_id (columns_of table task_id s) (get_indexing_task table task_id s).0
  unfolding get_indexing_task read_view to_view
  get_indexing_task-ShowsFinished task_id s settled =
      go (one_of (table.select_columns (λ t. nat_beq t.id task_id) s)).0
        (one_of (table.select_columns (λ t. nat_beq t.id task_id) s)).1 refl
    where
      go :
          (o : Option (Option IndexingTask)) (u : S)
          → one_of (table.select_columns (λ t. nat_beq t.id task_id) s) ≡ (o, u)
          → ShowsFinished task_id (columns_of table task_id s) (get_indexing_task table task_id s).0
      go none u e = rw e (not_read (read_nothing task_id s u e))
      go (some none) u e =
          let no : ⊥ = cc (ap is_settled (read_columns task_id s u none e) ∙ settled) in elim no [ ]
      go (some (some task)) u e =
          let finds = read_columns task_id s u (some task) e in
          rw e (
            is_shown (to_view task) (columns.shown_key s task_id task (sym finds))
              (ap is_settled finds ∙ settled))

  module _ {Bytes : Type 0} (lookup committed : S → ℕ → Option IndexingTask)
      (laws : KeyLaws table (λ t. t.id) lookup) (env : Environment S)
      (manager : TransactionManager S) (unit_of_work : UnitOfWork manager lookup committed)
      (outbox : OutboxGateway S) (keeps : KeepsTasks env manager outbox lookup) (dump : Dump)
      (catalog : CatalogGateway S) (files : SourceFiles S Bytes) (sha256 : Digest)
      (type_name message : Error → Text) where
    -- After a run of the worker's task that returns, over the gateway of tasks, the status endpoint,
    -- in a session of its own to which the database shows what is then committed, shows the task,
    -- under its id, as finished, or RepoError where the read of its columns fails.
    pub get_indexing_task-run_indexing_task :
        (task_id : ℕ) (w t : Scope S) (s : S)
        → run_indexing_task env manager
            (sql_task_gateway table)
            catalog
            files
            sha256
            (publish env dump outbox)
            type_name
            message
            task_id
            w
          ≡ (ok tt, t)
        → shown s task_id ≡ committed t.store task_id
        → ShowsFinished task_id (columns_of table task_id s) (get_indexing_task table task_id s).0
    get_indexing_task-run_indexing_task task_id w t s h opened =
        get_indexing_task-ShowsFinished task_id s (
          ap is_settled (
            opened
            ∙ run_indexing_task-committed env manager outbox lookup committed keeps unit_of_work
                dump (sql_task_gateway table) catalog files sha256 type_name message task_id w t h
                task_id)
          ∙ run_indexing_task-settles env manager outbox lookup keeps dump (sql_task_gateway table)
              (sql_task_gateway-TaskLaws table lookup laws env) catalog files sha256 type_name
              message task_id w t h)
