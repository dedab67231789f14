-- ===== src/Database/Relaying.antt =====
-- The relay over the table of the outbox, as the schedule runs it: relay_outbox_task of
-- infrastructure/task_manager/tasks/outbox_tasks.py, with sqlalchemy_outbox_gateway.py.
pub mod Marking
pub mod NoneLost
use answer_service.Base.{ℕ, List}
use answer_service.Application.Io.{Io, pure, ◌>>=◌}
use answer_service.Application.Scope.{Scope, on_store}
use answer_service.Application.Ports.{Environment, TransactionManager, OutboxMessage}
use answer_service.Application.Pipelines.{run_command}
use answer_service.Application.Outbox.{Dump, RelayOutboxResponse, publish, relay_outbox}
use answer_service.Database.Session.{Table}
use answer_service.Database.Outbox.{OutboxRecord, sql_outbox_gateway}

-- The batch of a RelayOutboxCommand that names none.
abbrev pub default_batch_size : ℕ
default_batch_size = 100

module _ {S : Type 0} (env : Environment S) (table : Table S OutboxRecord)
    (manager : TransactionManager S) (dump : Dump)
    (publisher : OutboxMessage → Io S (Unit {0})) where
  -- `sender.send` of RelayOutboxCommand: the command's pipelines around its handler.
  unfoldable pub send_relay : (batch_size : ℕ) → Io (Scope S) RelayOutboxResponse
  unfolding run_command
  send_relay =
      run_command manager (publish env dump (sql_outbox_gateway env table))
        (λ batch_size. on_store (relay_outbox (sql_outbox_gateway env table) publisher batch_size))

  -- `relay_outbox_task`; its answer is for the log.
  unfoldable pub relay_outbox_task : Io (Scope S) (Unit {0})
  unfolding send_relay
  relay_outbox_task = do response ← send_relay default_batch_size; pure tt
