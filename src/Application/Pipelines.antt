-- ===== src/Application/Pipelines.antt =====
-- application/pipelines: the unit of work around a command, and the events drained inside it.
pub mod Atomicity
pub mod Draining
use answer_service.Base.{List, ◌≡◌}
use answer_service.Application.Io.{Io, pure, raise, try_app_error, ◌>>=◌, ◌>>◌}
use answer_service.Application.Scope.{Scope, on_store, pull_events}
use answer_service.Application.Ports.{TransactionManager}
use answer_service.Indexing.Event.{Event}
use answer_service.Mediator.Chain.{HandleNext, Pipeline}

module _ {S Request Response : Type 0} where
  -- `TransactionPipeline.handle`
  unfoldable pub transaction_pipeline : TransactionManager S → Pipeline (Scope S) Request Response
  transaction_pipeline manager request handle_next = do
    response ← try_app_error (handle_next request) (λ e. on_store manager.rollback >> raise e)
    on_store manager.commit
    pure response

  -- `EventsPipeline.handle`, over the event bus's `publish`.
  unfoldable pub events_pipeline :
      (List Event → Io (Scope S) (Unit {0})) → Pipeline (Scope S) Request Response
  events_pipeline publish request handle_next = do
    response ← handle_next request
    events ← pull_events
    publish events
    pure response

  -- A command as the mediator runs it: the transaction outside, the events inside.
  unfoldable pub run_command :
      TransactionManager S
      → (List Event → Io (Scope S) (Unit {0}))
      → HandleNext (Scope S) Request Response
      → HandleNext (Scope S) Request Response
  unfolding transaction_pipeline events_pipeline
  run_command manager publish handler request =
      transaction_pipeline manager request (λ r. events_pipeline publish r handler)
