-- ===== src/Application/Pipelines/Atomicity.antt =====
-- A command is all or nothing: what the store has committed changes only if the command returns.
use answer_service.Base.{◌≡◌, ◌∙◌, inl, inr, Bool-cases}
use answer_service.Errors.{Error, Result, ok, err, Result-cases}
use answer_service.Errors.Hierarchy.{caught}
use answer_service.Application.Scope.{Scope}
use answer_service.Application.Ports.{TransactionManager}
use answer_service.Mediator.Chain.{HandleNext}
use answer_service.Application.Pipelines.{transaction_pipeline}

-- What the session's documentation says of the unit of work: `working` is what the session has
-- written, `committed` what other transactions see. A commit publishes the working state, or fails
-- and publishes nothing; a rollback publishes nothing.
pub record UnitOfWork {S D : Type 0} (manager : TransactionManager S) (working committed : S → D)
    : Type 0 where
  pub commit_ok :
      (s : S) → (manager.commit s).0 ≡ ok tt → committed (manager.commit s).1 ≡ working s
  pub commit_err :
      (s : S) (e : Error)
      → (manager.commit s).0 ≡ err e
      → committed (manager.commit s).1 ≡ committed s
  pub rollback_keeps : (s : S) → committed (manager.rollback s).1 ≡ committed s

module _ {S D Response : Type 0} (working committed : S → D) where
  abbrev pub IsAtomic : Scope S → Scope S → Result Response → Scope S → Type 0
  IsAtomic before handled (ok _) after = committed after.store ≡ working handled.store
  IsAtomic before handled (err _) after = committed after.store ≡ committed before.store

module _ {S D Request Response : Type 0} (manager : TransactionManager S)
    (working committed : S → D) (laws : UnitOfWork manager working committed) where
  -- The pipeline around what a handler has returned or raised, from a run that committed nothing.
  pub transaction_pipeline-settles :
      (r : Request) (w t : Scope S) (result : Result Response)
      → committed t.store ≡ committed w.store
      → (let out = transaction_pipeline manager r (λ _ _. (result, t)) w in
          IsAtomic working committed w t out.0 out.1)
  unfolding transaction_pipeline
  transaction_pipeline-settles r w t (ok a) kept = elim (Result-cases (manager.commit t.store).0) [
    | inl (_, e) ↦ rw e (laws.commit_ok t.store e)
    | inr (x, e) ↦ rw e (laws.commit_err t.store x e ∙ kept)
  ]
  transaction_pipeline-settles r w t (err x) kept = elim (Bool-cases (caught x)) [
    | inr foreign ↦ rw foreign kept
    | inl app ↦ rw app (elim (Result-cases (manager.rollback t.store).0) [
      | inl (_, e) ↦ rw e (laws.rollback_keeps t.store ∙ kept)
      | inr (y, e) ↦ rw e (laws.rollback_keeps t.store ∙ kept)
    ])
  ]

  module _ (handle_next : HandleNext (Scope S) Request Response)
      (writes_in_session : (r : Request) (w : Scope S)
        → committed (handle_next r w).1.store ≡ committed w.store) where
    -- Where the handler writes through the session only: a command that returns has committed exactly
    -- what its handler wrote, and one that raises, at whatever point, has committed nothing.
    pub transaction_pipeline-IsAtomic :
        (r : Request) (w : Scope S)
        → (let out = transaction_pipeline manager r handle_next w in
            IsAtomic working committed w (handle_next r w).1 out.0 out.1)
    unfolding transaction_pipeline
    transaction_pipeline-IsAtomic r w =
        transaction_pipeline-settles r w (handle_next r w).1 (handle_next r w).0
          (writes_in_session r w)
