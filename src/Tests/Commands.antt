-- ===== src/Tests/Commands.antt =====
-- The commands: a synchronisation, the pipelines around a handler, and the worker's task.
use answer_service.Base.{true, ℕ, ◌≡◌, refl, none, List, [], ◌∷◌, ◌++◌}
use answer_service.Base.Text.{Text, text, text_beq, strip}
use answer_service.Base.Int.{pos}
use answer_service.Errors.{Error, ok, err, repo_error}
use answer_service.Errors.Hierarchy.{caught}
use answer_service.Application.Io.{Io}
use answer_service.Application.Scope.{Scope, open_scope}
use answer_service.Application.Ports.{CatalogGateway, OutboxMessage, SourceRow, TransactionManager}
use answer_service.Application.Handlers.Sync.{synchronise, run_sync, run_indexing}
use answer_service.Application.Handlers.Sync.Laws.{seal}
use answer_service.Application.Handlers.Sync.Convergence.{synchronise-converges}
use answer_service.Application.Handlers.Sync.Difference.{source_view}
use answer_service.Application.Outbox.{Dump, publish}
use answer_service.Application.Outbox.Bus.{RecordsAll}
use answer_service.Application.Pipelines.{run_command, transaction_pipeline}
use answer_service.Application.Pipelines.Atomicity.{UnitOfWork, transaction_pipeline-IsAtomic}
use answer_service.Application.Pipelines.Draining.{run_command-drains}
use answer_service.Application.Worker.{run_indexing_task, send_running}
use answer_service.Application.Worker.Settled.{KeepsTasks, run_indexing_task-settles}
use answer_service.Application.Worker.Leak.{run_indexing_task-leaks}
use answer_service.Indexing.Event.{Event, event, qa_pair_removed}
use answer_service.Indexing.Task.{IndexingTask, queued}
use answer_service.Indexing.Values.{empty_stats}
use answer_service.Tests.Data.{plain_digest, id_a, id_b, desired_b, pair_a, a_source}
use answer_service.Application.Handlers.Settled.{is_settled}
use answer_service.Tests.Memory.{
  task_of, memory_tasks-TaskLaws, Memory, memory_env, memory_manager, memory_catalog, pair_of,
  staged_of, memory_catalog-CatalogLaws, memory_outbox, outbox_of, memory_outbox-OutboxTable,
  commit-keeps_outbox, memory_tasks, one_row_files,
}

abbrev pub row_b : SourceRow
row_b = record {
  external_id = text "b";
  question = text "b";
  answer = text "yes";
  category = text "x";
  updated_at = 2;
}

abbrev holding_a : Memory
holding_a = record {
  pairs = pair_a ∷ [];
  staged = [];
  tasks = [];
  saved = [];
  outbox = [];
  clock = 5;
}

abbrev after_sync : Scope Memory
after_sync =
    (synchronise memory_env memory_catalog plain_digest (one_row_files row_b) (desired_b ∷ [])
      (open_scope holding_a)).1

synchronise-converges_example :
    seal plain_digest (pair_of after_sync.store id_b)
    ≡ source_view plain_digest (desired_b ∷ []) id_b
unfolding synchronise text_beq
synchronise-converges_example =
    synchronise-converges memory_env memory_catalog plain_digest (one_row_files row_b) pair_of
      staged_of memory_catalog-CatalogLaws (desired_b ∷ []) (open_scope holding_a) after_sync
      (record { created = pos 1; updated = pos 0; deleted = pos 1; skipped = pos 0 }) refl refl id_b

-- A session as a pair: what it has written, and what it has committed.
abbrev pair_manager : TransactionManager (ℕ × ℕ)
pair_manager = record { commit = λ s. (ok tt, (s.0, s.0)); rollback = λ s. (ok tt, (s.1, s.1)) }

pair_laws : UnitOfWork pair_manager (λ s. s.0) (λ s. s.1)
pair_laws = record {
  commit_ok = λ s h. refl;
  commit_err = λ s e h. let no : ⊥ = cc h in elim no [ ];
  rollback_keeps = λ s. refl;
}

-- Writes its request and fails.
abbrev failing_handler : ℕ → Io (Scope (ℕ × ℕ)) ℕ
failing_handler n w = (err repo_error, record w { store = (n, w.store.1) })

transaction_pipeline-IsAtomic_example :
    (transaction_pipeline pair_manager 9 failing_handler (open_scope (1, 1))).1.store.1 ≡ 1
unfolding transaction_pipeline caught
transaction_pipeline-IsAtomic_example =
    transaction_pipeline-IsAtomic pair_manager (λ s. s.0) (λ s. s.1) pair_laws failing_handler
      (λ r w. refl) 9 (open_scope (1, 1))

abbrev pub empty_dump : Dump
empty_dump e = []

-- Records one event and returns its request.
abbrev recording_handler : ℕ → Io (Scope Memory) ℕ
recording_handler n w = (ok n, record w { events = w.events ++ event (qa_pair_removed id_a) ∷ [] })

abbrev after_recording : Scope Memory
after_recording =
    (run_command memory_manager (publish memory_env empty_dump memory_outbox) recording_handler 7
      (open_scope holding_a)).1

run_command-drains_example :
    (v : Scope Memory) × (ms : List OutboxMessage) × (recording_handler 7 (open_scope holding_a)
      ≡ (ok 7, v))
    × (outbox_of after_recording.store ≡ outbox_of v.store ++ ms)
    × RecordsAll empty_dump v.events ms
    × (after_recording.events ≡ [])
unfolding run_command publish
run_command-drains_example =
    run_command-drains memory_env memory_manager empty_dump memory_outbox outbox_of
      memory_outbox-OutboxTable commit-keeps_outbox recording_handler 7 (open_scope holding_a)
      after_recording 7 refl

-- The catalog whose inserts fail.
abbrev pub full_catalog : CatalogGateway Memory
full_catalog = record memory_catalog { add = λ p s. (err repo_error, s) }

abbrev queued_task : IndexingTask
queued_task = record {
  id = 3;
  created_at = 1;
  updated_at = 1;
  source = a_source;
  status = queued;
  started_at = none;
  finished_at = none;
  stats = empty_stats;
  failure = none;
}

abbrev pub with_task : Scope Memory
with_task = open_scope (record holding_a { tasks = queued_task ∷ []; saved = queued_task ∷ [] })

abbrev pub error_name : Error → Text
error_name e = text "RepoError"

abbrev started : Scope Memory
started =
    (send_running memory_env memory_manager memory_tasks full_catalog (one_row_files row_b)
      plain_digest (publish memory_env empty_dump memory_outbox) error_name error_name 3
      with_task).1

abbrev stopped : Scope Memory
stopped =
    (run_indexing memory_env full_catalog plain_digest (one_row_files row_b) memory_tasks 3
      started).1

abbrev ended : Scope Memory
ended =
    (run_indexing_task memory_env memory_manager memory_tasks full_catalog (one_row_files row_b)
      plain_digest (publish memory_env empty_dump memory_outbox) error_name error_name 3
      with_task).1

run_indexing_task-leaks_example :
    (old ms : List OutboxMessage) × (own : List Event) × (outbox_of ended.store ≡ old ++ ms)
    × RecordsAll empty_dump (stopped.events ++ own) ms
unfolding run_indexing_task caught text_beq publish run_sync strip
run_indexing_task-leaks_example =
    run_indexing_task-leaks memory_env memory_manager memory_tasks full_catalog
      (one_row_files row_b) plain_digest error_name error_name empty_dump memory_outbox outbox_of
      memory_outbox-OutboxTable commit-keeps_outbox 3 with_task started stopped ended repo_error
      refl refl refl refl refl

pub memory-KeepsTasks : KeepsTasks memory_env memory_manager memory_outbox task_of
memory-KeepsTasks = record {
  now_keeps = λ s i. refl;
  uuid4_keeps = λ s i. refl;
  add_keeps = λ m s i. refl;
  commit_keeps = λ s i. refl;
}

run_indexing_task-settles_example : is_settled (task_of ended.store 3) ≡ true
unfolding run_indexing_task caught text_beq publish run_sync strip
run_indexing_task-settles_example =
    run_indexing_task-settles memory_env memory_manager memory_outbox task_of memory-KeepsTasks
      empty_dump memory_tasks memory_tasks-TaskLaws full_catalog (one_row_files row_b) plain_digest
      error_name error_name 3 with_task ended refl
