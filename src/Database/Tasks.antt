-- ===== src/Database/Tasks.antt =====
-- infrastructure/adapters/persistence/sqlalchemy_indexing_task_gateway.py. `_inject` only hands the
-- scope's EventsCollection to the loaded task, which the model passes along by itself.
use answer_service.Base.{ℕ, Bool, false, ◌&&◌, Option, none, some, ltb, nat_beq}
use answer_service.Application.Io.{Io}
use answer_service.Application.Ports.{TaskGateway}
use answer_service.Errors.{ok}
use answer_service.Indexing.Task.{IndexingTask, running, status_beq}
use answer_service.Database.Session.{Table, attempt, one_of}

-- `started_at < started_before`: NULL is not before anything.
abbrev pub is_before : Option ℕ → ℕ → Bool
is_before none before = false
is_before (some moment) before = ltb moment before

-- The WHERE clauses of `read_stuck`.
unfoldable pub is_stuck : (started_before : ℕ) → IndexingTask → Bool
is_stuck started_before t = status_beq t.status running && is_before t.started_at started_before

module _ {S : Type 0} (table : Table S IndexingTask) where
  -- SqlAlchemyIndexingTaskGateway. Its `update` does nothing: the session already tracks the task that
  -- the handler has mutated, and `changed` stands for that mutation, whose value is passed along.
  unfoldable pub sql_task_gateway : TaskGateway S
  unfolding is_stuck
  sql_task_gateway = record {
    add = λ task s. (ok tt, table.add task s);
    read_by_id = λ task_id. attempt (λ s. one_of (table.select (λ t. nat_beq t.id task_id) s));
    update = λ task s. (ok tt, table.changed task s);
    read_stuck = λ started_before limit.
        attempt (table.select_first (is_stuck started_before) (λ t. t.started_at) limit);
  }

  unfoldable pub delete_by_id : ℕ → Io S (Unit {0})
  delete_by_id task_id = attempt (table.delete_where (λ t. nat_beq t.id task_id))
