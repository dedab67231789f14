-- ===== src/Web/Tasks/Polled.antt =====
-- The status that the caller of an upload polls.
use answer_service.Base.{
  ℕ, nat_eq, nat_beq, ◌≡◌, refl, sym, ◌∙◌, ap, subst, false, Option, none, some, List,
}
use answer_service.Base.Text.{Text, text}
use answer_service.Errors.{Result, ok, repo_error}
use answer_service.Errors.Status.{service, handle}
use answer_service.Application.Io.{>>=-eq-ok}
use answer_service.Application.Scope.{Scope, on_store}
use answer_service.Application.Ports.{Environment, TransactionManager, OutboxGateway, SourceFiles}
use answer_service.Application.Handlers.Reaper.{enqueue_indexing, create_task}
use answer_service.Application.Outbox.{Dump, publish}
use answer_service.Application.Pipelines.Draining.{run_command-eq-ok}
use answer_service.Application.Worker.Settled.{KeepsTasks, found_after}
use answer_service.Indexing.Task.{IndexingTask, TaskStatus, queued, queue, is_terminal}
use answer_service.Database.Session.{Table, ColumnLaws, one_of}
use answer_service.Application.Pipelines.Atomicity.{UnitOfWork}
use answer_service.Application.Worker.Committed.{run_command-committed}
use answer_service.Mediator.Chain.{HandleNext}
use answer_service.Database.TaskViews.Shown.{read_columns, read_nothing, columns_of}
use answer_service.Database.Tasks.{sql_task_gateway}
use answer_service.Database.TaskViews.{to_view, read_view, get_indexing_task}
use answer_service.Persistence.Columns.{task_status_value}
use answer_service.Web.Replies.{Reply, shown, refused, respond, validated-shown}
use answer_service.Web.Tasks.{
  UploadFile, EnqueueIndexingSchema, IndexingTaskResponse, task_schema, task_handler, get_task,
  send_enqueue, enqueue_handler, post_sync, or_empty,
}

-- A task as an upload leaves it.
abbrev pub IsQueued : ℕ → Option IndexingTask → Type 0
IsQueued i none = ⊥
IsQueued i (some task) =
    (task.id ≡ i) × (task.status ≡ queued) × (task.started_at ≡ none) × (task.finished_at ≡ none)

-- What the status route shows of it, or 503 where the read of the columns has failed.
pub data ShowsQueued (task_id : ℕ) (found : Option (List IndexingTask))
    : Reply IndexingTaskResponse → Type 0 where
  waiting :
      (x : IndexingTaskResponse)
      → x.task_id ≡ task_id
      → x.status ≡ text "queued"
      → x.is_finished ≡ false
      → x.started_at ≡ none
      → x.finished_at ≡ none
      → ShowsQueued task_id found (shown 200 x)
  unavailable : found ≡ none → ShowsQueued task_id found (refused (handle (service repo_error)))

ok_eq : {A : Type 0} {x y : A} → ok x ≡ ok y → x ≡ y
ok_eq h = cc h

module _ {S : Type 0} (table : Table S IndexingTask) (shown_rows : S → ℕ → Option IndexingTask)
    (columns : ColumnLaws table (λ t. t.id) shown_rows) where
  get_task-ShowsQueued :
      (i : ℕ) (s : S)
      → IsQueued i (shown_rows s i)
      → ShowsQueued i (columns_of table i s) (get_task table i s).0
  unfolding get_task respond task_handler get_indexing_task read_view task_schema to_view
  get_task-ShowsQueued i s waits =
      go (one_of (table.select_columns (λ t. nat_beq t.id i) s)).0
        (one_of (table.select_columns (λ t. nat_beq t.id i) s)).1 refl
    where
      found :
          (o : Option IndexingTask) (u : S)
          → one_of (table.select_columns (λ t. nat_beq t.id i) s) ≡ (some o, u)
          → IsQueued i o
      found o u e = subst (IsQueued i) (sym (read_columns table shown_rows columns i s u o e)) waits

      go :
          (o : Option (Option IndexingTask)) (u : S)
          → one_of (table.select_columns (λ t. nat_beq t.id i) s) ≡ (o, u)
          → ShowsQueued i (columns_of table i s) (get_task table i s).0
      go none u e = rw e (unavailable (read_nothing table shown_rows columns i s u e))
      go (some none) u e = elim (found none u e) [ ]
      go (some (some task)) u e =
          let (same, status, started, finished) = found (some task) u e in
          rw e (
            waiting (task_schema (to_view task)) same (ap task_status_value status)
              (ap is_terminal status) started finished)

  module _ {Bytes : Type 0} (lookup committed : S → ℕ → Option IndexingTask)
      (adds_key : (r : IndexingTask) (s : S) → lookup (table.add r s) r.id ≡ some r)
      (env : Environment S) (manager : TransactionManager S)
      (unit_of_work : UnitOfWork manager lookup committed) (outbox : OutboxGateway S)
      (keeps : KeepsTasks env manager outbox lookup) (dump : Dump)
      (files : SourceFiles S Bytes) where
    enqueue_indexing-IsQueued :
        (content : Bytes) (filename : Text) (w t : Scope S) (i : ℕ) (status : TaskStatus)
        → enqueue_indexing env (sql_task_gateway table) files content filename w
          ≡ (ok (i, status), t)
        → (status ≡ queued) × IsQueued i (lookup t.store i)
    unfolding enqueue_indexing create_task queue sql_task_gateway
    enqueue_indexing-IsQueued content filename w t i status h =
        let (_, w₁, _, h₁) = >>=-eq-ok (on_store (files.validate content filename)) _ w h in
        let (source, w₂, _, h₂) = >>=-eq-ok (on_store (files.save content filename)) _ w₁ h₁ in
        let (j, s₃) = env.uuid4 w₂.store in
        let (now, s₄) = env.now s₃ in
        let task = (queue j now source).0 in
        let e : (j, queued) ≡ (i, status) =
          ok_eq (ap (λ (q : Result (ℕ × TaskStatus) × Scope S). q.0) h₂) in
        let same : j ≡ i = ap (λ (q : ℕ × TaskStatus). q.0) e in
        let added : lookup t.store j ≡ some task =
          ap (λ (q : Result (ℕ × TaskStatus) × Scope S). lookup q.1.store j) (sym h₂)
          ∙ adds_key task s₄ in
        (
          ap (λ (q : ℕ × TaskStatus). q.1) (sym e),
          subst (λ n. IsQueued n (lookup t.store n)) same
              (subst (IsQueued j) (sym added) (refl, refl, refl, refl)),
        )

    -- An upload that is answered 202 names a task that is queued, and the status route, in a session of
    -- its own to which the database shows what is then committed, shows it, under that id, as queued,
    -- not started and not finished, or answers 503 where the read of the columns fails.
    pub post_sync-ShowsQueued :
        (form : Option (UploadFile Bytes)) (w t : Scope S) (code : ℕ) (x : EnqueueIndexingSchema)
        (s : S)
        → post_sync env manager (publish env dump outbox) (sql_task_gateway table) files form w
          ≡ (shown code x, t)
        → shown_rows s x.task_id ≡ committed t.store x.task_id
        → (code ≡ 202)
          × (x.status ≡ text "queued")
          × ShowsQueued x.task_id (columns_of table x.task_id s) (get_task table x.task_id s).0
    unfolding post_sync enqueue_handler send_enqueue
    post_sync-ShowsQueued form w t code x s h opened =
        let send =
          send_enqueue env manager (publish env dump outbox) (sql_task_gateway table) files in
        let (same, file, _, returned) =
          validated-shown 202 code form
            (enqueue_handler env manager (publish env dump outbox) (sql_task_gateway table) files) w
            t x h in
        let ((i, status), w₁, sent, last) = >>=-eq-ok (send file) _ w returned in
        let handler : HandleNext (Scope S) (UploadFile Bytes) (ℕ × TaskStatus) = λ f.
          enqueue_indexing env (sql_task_gateway table) files f.content (or_empty f.filename) in
        let (v, u, handled, published, committed_at) =
          run_command-eq-ok manager (publish env dump outbox) handler file w w₁ (i, status) sent in
        let (waits, queued_task) =
          enqueue_indexing-IsQueued file.content (or_empty file.filename) w v i status handled in
        let seen =
          run_command-committed env manager outbox lookup committed keeps unit_of_work dump handler
            file w w₁ (i, status) sent i
          ∙ found_after env manager outbox lookup keeps dump i v u w₁ published committed_at in
        let e : record { task_id = i; status = task_status_value status } ≡ x =
          ok_eq (ap (λ (q : Result EnqueueIndexingSchema × Scope S). q.0) last) in
        let at : w₁ ≡ t = ap (λ (q : Result EnqueueIndexingSchema × Scope S). q.1) last in
        let there : IsQueued x.task_id (committed t.store x.task_id) =
          subst
            (λ (y : EnqueueIndexingSchema × Scope S).
              IsQueued y.0.task_id (committed y.1.store y.0.task_id))
            (λ n. (e n, at n)) (subst (IsQueued i) (sym seen) queued_task) in
        (
          same,
          ap (λ (y : EnqueueIndexingSchema). y.status) (sym e) ∙ ap task_status_value waits,
          get_task-ShowsQueued x.task_id s (subst (IsQueued x.task_id) (sym opened) there),
        )
