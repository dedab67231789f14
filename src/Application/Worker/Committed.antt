-- ===== src/Application/Worker/Committed.antt =====
-- What other sessions see once a command, or the worker's task, has returned.
use answer_service.Base.{ℕ, ◌≡◌, sym, ◌∙◌, ap, Option, inl, inr}
use answer_service.Base.Text.{Text}
use answer_service.Errors.{Error, Result, ok}
use answer_service.Application.Io.{>>=-eq-ok}
use answer_service.Application.Scope.{Scope}
use answer_service.Application.Ports.{
  Environment, TransactionManager, TaskGateway, CatalogGateway, SourceFiles, OutboxGateway,
}
use answer_service.Application.Pipelines.{run_command}
use answer_service.Application.Pipelines.Atomicity.{UnitOfWork}
use answer_service.Application.Pipelines.Draining.{run_command-commits}
use answer_service.Application.Handlers.{mark_indexing_failed}
use answer_service.Application.Handlers.Sync.{run_indexing}
use answer_service.Application.Outbox.{Dump, publish}
use answer_service.Application.Worker.{send_running, send_run, send_failed, run_indexing_task}
use answer_service.Application.Worker.Settled.{KeepsTasks, try-eq-ok}
use answer_service.Indexing.Fingerprint.{Digest}
use answer_service.Indexing.Task.{IndexingTask}
use answer_service.Mediator.Chain.{HandleNext}

module _ {S : Type 0} (env : Environment S) (manager : TransactionManager S)
    (gateway : OutboxGateway S) (lookup committed : S → ℕ → Option IndexingTask)
    (keeps : KeepsTasks env manager gateway lookup)
    (unit_of_work : UnitOfWork manager lookup committed) (dump : Dump) where
  -- A command that returns has committed the tasks as its session shows them.
  pub run_command-committed :
      {Request Response : Type 0} (handler : HandleNext (Scope S) Request Response) (r : Request)
      (w t : Scope S) (response : Response)
      → run_command manager (publish env dump gateway) handler r w ≡ (ok response, t)
      → (i : ℕ) → committed t.store i ≡ lookup t.store i
  run_command-committed handler r w t response h i =
      let (v, u, handled, published, done) =
        run_command-commits manager (publish env dump gateway) handler r w t response h in
      let at : (manager.commit u.store).1 ≡ t.store =
        ap (λ (q : Result (Unit {0}) × S). q.1) done in
      ap (λ s. committed s i) (sym at)
      ∙ ap (λ (f : ℕ → Option IndexingTask). f i)
          (unit_of_work.commit_ok u.store (ap (λ (q : Result (Unit {0}) × S). q.0) done))
      ∙ sym (keeps.commit_keeps u.store i)
      ∙ ap (λ s. lookup s i) at

  module _ {Bytes : Type 0} (tasks : TaskGateway S) (catalog : CatalogGateway S)
      (files : SourceFiles S Bytes) (sha256 : Digest) (type_name message : Error → Text) where
    pub run_indexing_task-committed :
        (task_id : ℕ) (w t : Scope S)
        → run_indexing_task env manager tasks catalog files sha256
            (publish env dump gateway)
            type_name
            message
            task_id
            w
          ≡ (ok tt, t)
        → (i : ℕ) → committed t.store i ≡ lookup t.store i
    unfolding run_indexing_task send_run send_failed
    run_indexing_task-committed task_id w t h =
        let (_, w₁, _, k) =
          >>=-eq-ok
            (send_running env manager tasks catalog files sha256 (publish env dump gateway)
              type_name message task_id)
            _ w h in
        elim (try-eq-ok
          (send_run env manager tasks catalog files sha256 (publish env dump gateway) type_name
            message task_id)
          (λ e.
            send_failed env manager tasks catalog files sha256 (publish env dump gateway) type_name
              message task_id e)
          w₁ k) [
            | inl ran ↦
                run_command-committed (λ i. run_indexing env catalog sha256 files tasks i) task_id
                  w₁ t tt ran
            | inr (e, w₂, marked) ↦
                run_command-committed
                  (λ i. mark_indexing_failed env tasks i (type_name e) (message e)) task_id w₂ t tt
                  marked
          ]
