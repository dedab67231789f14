-- ===== src/Application/Pipelines/Draining.antt =====
-- Where a command's events go: into the outbox of its own transaction, or nowhere yet.
use answer_service.Base.{◌≡◌, refl, sym, ◌∙◌, ap, Bool, true, false, List, [], ◌++◌}
use answer_service.Errors.{Error, Result, ok, err}
use answer_service.Errors.Hierarchy.{caught}
use answer_service.Application.Io.{Io, raise, on_caught, try_result, try_app_error, ◌>>◌, >>=-eq-ok}
use answer_service.Application.Scope.{Scope, on_store, on_store-eq-ok}
use answer_service.Application.Ports.{Environment, TransactionManager, OutboxMessage, OutboxGateway}
use answer_service.Indexing.Event.{Event}
use answer_service.Mediator.Chain.{HandleNext}
use answer_service.Application.Pipelines.{transaction_pipeline, events_pipeline, run_command}
use answer_service.Application.Outbox.{Dump, publish}
use answer_service.Application.Outbox.Bus.{OutboxTable, RecordsAll, publish-RecordsAll}

-- A handler that raises again does not return.
reraise-not-ok :
    {S A : Type 0} (k : Io S (Unit {0})) (x : Error) (is_app : Bool) (s : S) {a : A} {t : S}
    → on_caught is_app x (k >> raise x) s ≡ (ok a, t)
    → ⊥
reraise-not-ok {S} {A} k x true s h =
    let (_, s', _, e) = >>=-eq-ok k (λ _. raise x) s h in cc (ap (λ (q : Result A × S). q.0) e)
reraise-not-ok {S} {A} k x false s h = cc (ap (λ (q : Result A × S). q.0) h)

-- A `try` that returns, whose handler raises again, has returned its body's result.
pub reraised-eq-ok :
    {S A : Type 0} (m : Io S A) (k : Io S (Unit {0})) (s : S) {a : A} {t : S}
    → try_app_error m (λ e. k >> raise e) s ≡ (ok a, t)
    → m s ≡ (ok a, t)
reraised-eq-ok {S} {A} m k s {a} {t} h = go (m s).0 (m s).1 h
  where
    go :
        (r : Result A) (s' : S)
        → try_result r (λ e. k >> raise e) s' ≡ (ok a, t)
        → ◌≡◌ {A = Result A × S} (r, s') (ok a, t)
    go (ok b) s' e = e
    go (err x) s' e = elim (reraise-not-ok k x (caught x) s' e) [ ]

module _ {S A : Type 0} {p q : Result A × Scope S} where
  result : p ≡ q → p.0 ≡ q.0
  result = ap (λ (x : Result A × Scope S). x.0)

  scope : p ≡ q → p.1 ≡ q.1
  scope = ap (λ (x : Result A × Scope S). x.1)

module _ {S Request Response : Type 0} (env : Environment S) (manager : TransactionManager S)
    (dump : Dump) (gateway : OutboxGateway S) (rows : S → List OutboxMessage)
    (table : OutboxTable env gateway rows)
    (commit_keeps : (s : S) → rows (manager.commit s).1 ≡ rows s)
    (handler : HandleNext (Scope S) Request Response) where
  -- A command that returns has run its handler to its end, has added to the outbox one message for
  -- each event that the collection then held, in their order, and leaves the collection empty.
  pub run_command-drains :
      (r : Request) (w t : Scope S) (response : Response)
      → run_command manager (publish env dump gateway) handler r w ≡ (ok response, t)
      → (v : Scope S) × (ms : List OutboxMessage) × (handler r w ≡ (ok response, v))
        × (rows t.store ≡ rows v.store ++ ms)
        × RecordsAll dump v.events ms
        × (t.events ≡ [])
  unfolding run_command transaction_pipeline events_pipeline
  run_command-drains r w t response h =
      let (b, w₁, tried, k) =
        >>=-eq-ok
          (try_app_error (events_pipeline (publish env dump gateway) r handler)
            (λ e. on_store manager.rollback >> raise e))
          _ w h in
      let (_, w₂, committed, last) = >>=-eq-ok (on_store manager.commit) _ w₁ k in
      let inner =
        reraised-eq-ok (events_pipeline (publish env dump gateway) r handler)
          (on_store manager.rollback) w tried in
      let (b', v, handled, k₂) = >>=-eq-ok (handler r) _ w inner in
      let (_, w₃, published, fin) =
        >>=-eq-ok (publish env dump gateway v.events) _ (record v { events = [] }) k₂ in
      let (ms, grown, recorded, kept) =
        publish-RecordsAll env dump gateway rows table v.events (record v { events = [] })
          published in
      let (cs, same_events) = on_store-eq-ok manager.commit w₁ w₂ committed in
      (
        v,
        ms,
        handled ∙ (λ i. ((result fin ∙ result last) i, v)),
        ap (λ (q : Scope S). rows q.store) (sym (scope last))
            ∙ ap (λ (q : Result (Unit {0}) × S). rows q.1) (sym cs)
            ∙ commit_keeps w₁.store
            ∙ ap (λ (q : Scope S). rows q.store) (sym (scope fin))
            ∙ grown,
        recorded,
        ap (λ (q : Scope S). q.events) (sym (scope last))
            ∙ same_events
            ∙ ap (λ (q : Scope S). q.events) (sym (scope fin))
            ∙ kept,
      )

module _ {S Request Response : Type 0} (manager : TransactionManager S)
    (publish_events : List Event → Io (Scope S) (Unit {0}))
    (handler : HandleNext (Scope S) Request Response) where
  -- A command whose handler raises an application error, where the rollback goes through, raises that
  -- error and leaves in the scope's collection every event that the handler had put there.
  pub run_command-keeps_events :
      (r : Request) (w v : Scope S) (e : Error)
      → handler r w ≡ (err e, v)
      → caught e ≡ true
      → (manager.rollback v.store).0 ≡ ok tt
      → run_command manager publish_events handler r w
        ≡ (err e, record v { store = (manager.rollback v.store).1 })
  unfolding run_command transaction_pipeline events_pipeline
  run_command-keeps_events r w v e h c rolled = rw (h, c, rolled) refl

module _ {S Request Response : Type 0} (manager : TransactionManager S)
    (publish_events : List Event → Io (Scope S) (Unit {0}))
    (handler : HandleNext (Scope S) Request Response) where
  -- The three steps of a command that returns: its handler, the publishing and the commit.
  pub run_command-commits :
      (r : Request) (w t : Scope S) (response : Response)
      → run_command manager publish_events handler r w ≡ (ok response, t)
      → (v u : Scope S) × (handler r w ≡ (ok response, v))
        × (publish_events v.events (record v { events = [] }) ≡ (ok tt, u))
        × (manager.commit u.store ≡ (ok tt, t.store))
  unfolding run_command transaction_pipeline events_pipeline
  run_command-commits r w t response h =
      let (b, w₁, tried, k) =
        >>=-eq-ok
          (try_app_error (events_pipeline publish_events r handler)
            (λ e. on_store manager.rollback >> raise e))
          _ w h in
      let (_, w₂, committed, last) = >>=-eq-ok (on_store manager.commit) _ w₁ k in
      let inner =
        reraised-eq-ok (events_pipeline publish_events r handler) (on_store manager.rollback) w
          tried in
      let (b', v, handled, k₂) = >>=-eq-ok (handler r) _ w inner in
      let (_, w₃, published, fin) =
        >>=-eq-ok (publish_events v.events) _ (record v { events = [] }) k₂ in
      let (cs, _) = on_store-eq-ok manager.commit w₁ w₂ committed in
      (
        v,
        w₃,
        handled ∙ (λ i. ((result fin ∙ result last) i, v)),
        published,
        ap (λ (q : Scope S). manager.commit q.store) (scope fin)
            ∙ cs
            ∙ ap (λ (q : Scope S). (ok tt, q.store)) (scope last),
      )

  pub run_command-eq-ok :
      (r : Request) (w t : Scope S) (response : Response)
      → run_command manager publish_events handler r w ≡ (ok response, t)
      → (v u : Scope S) × (handler r w ≡ (ok response, v))
        × (publish_events v.events (record v { events = [] }) ≡ (ok tt, u))
        × (t.store ≡ (manager.commit u.store).1)
  run_command-eq-ok r w t response h =
      let (v, u, handled, published, committed) = run_command-commits r w t response h in
      (v, u, handled, published, sym (ap (λ (q : Result (Unit {0}) × S). q.1) committed))
