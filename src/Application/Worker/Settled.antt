-- ===== src/Application/Worker/Settled.antt =====
-- A run of the worker's task leaves the indexing task in a final status.
use answer_service.Base.{
  ℕ, ◌≡◌, refl, sym, ◌∙◌, ap, true, Option, none, some, List, [], ◌∷◌, ◌⊎◌, inl, inr, Bool-cases,
  arith,
}
use answer_service.Base.Text.{Text}
use answer_service.Errors.{Error, Result, ok, err}
use answer_service.Errors.Hierarchy.{caught}
use answer_service.Application.Io.{Io, try_result, try_app_error, >>=-eq-ok, >>=-keeps}
use answer_service.Application.Scope.{Scope, on_store, on_store-eq-ok}
use answer_service.Application.Ports.{
  Environment, TransactionManager, TaskGateway, CatalogGateway, SourceFiles, OutboxGateway,
  OutboxMessage,
}
use answer_service.Application.Pipelines.Draining.{run_command-eq-ok}
use answer_service.Application.Handlers.{act, mark_indexing_failed}
use answer_service.Application.Handlers.Settled.{
  TaskLaws, is_settled, act-eq-ok, mark_indexing_failed-settles,
}
use answer_service.Application.Handlers.Sync.{run_sync, complete_run, run_indexing}
use answer_service.Application.Outbox.{Dump, publish}
use answer_service.Application.Worker.{send_running, send_run, send_failed, run_indexing_task}
use answer_service.Indexing.Event.{Event, EventBody}
use answer_service.Indexing.Fingerprint.{Digest}
use answer_service.Indexing.Task.{IndexingTask, is_terminal, complete}
use answer_service.Indexing.Values.{SyncStats}

-- A `try` that returns has returned from its body or from its handler.
pub try-eq-ok :
    {S A : Type 0} (m : Io S A) (k : Error → Io S A) (s : S) {a : A} {t : S}
    → try_app_error m k s ≡ (ok a, t)
    → (m s ≡ (ok a, t)) ⊎ ((e : Error) × (u : S) × (k e u ≡ (ok a, t)))
try-eq-ok {S} {A} m k s {a} {t} h = go (m s).0 (m s).1 h
  where
    go :
        (r : Result A) (u : S)
        → try_result r k u ≡ (ok a, t)
        → (◌≡◌ {A = Result A × S} (r, u) (ok a, t))
          ⊎ ((e : Error) × (u' : S) × (k e u' ≡ (ok a, t)))
    go (ok b) u e = inl e
    go (err x) u e = elim (Bool-cases (caught x)) [
      | inl app ↦ inr (x, u, rw app at e)
      | inr foreign ↦
          let raised : ◌≡◌ {A = Result A × S} (err x, u) (ok a, t) = rw foreign at e in
          let no : ⊥ = cc (ap (λ (q : Result A × S). q.0) raised) in elim no [ ]
    ]

complete-settles :
    (now : ℕ) (run_stats : SyncStats) (task task' : IndexingTask) (es : List EventBody)
    → complete now run_stats task ≡ ok (task', es)
    → (is_terminal task'.status ≡ true) × (task'.id ≡ task.id)
unfolding complete
complete-settles now run_stats task task' es h = ground arith

-- What publishing and committing rely on: neither the outbox, the clock nor a commit changes a task.
pub record KeepsTasks {S : Type 0} (env : Environment S) (manager : TransactionManager S)
    (gateway : OutboxGateway S) (lookup : S → ℕ → Option IndexingTask) : Type 0 where
  pub now_keeps : (s : S) (i : ℕ) → lookup (env.now s).1 i ≡ lookup s i
  pub uuid4_keeps : (s : S) (i : ℕ) → lookup (env.uuid4 s).1 i ≡ lookup s i
  pub add_keeps : (m : OutboxMessage) (s : S) (i : ℕ) → lookup (gateway.add m s).1 i ≡ lookup s i
  pub commit_keeps : (s : S) (i : ℕ) → lookup (manager.commit s).1 i ≡ lookup s i

module _ {S : Type 0} (env : Environment S) (manager : TransactionManager S)
    (gateway : OutboxGateway S) (lookup : S → ℕ → Option IndexingTask)
    (keeps : KeepsTasks env manager gateway lookup) (dump : Dump) where
  publish-keeps :
      (es : List Event) (w : Scope S) (i : ℕ) (found : Option IndexingTask)
      → lookup w.store i ≡ found
      → lookup (publish env dump gateway es w).1.store i ≡ found
  unfolding publish
  publish-keeps [] w i found h = h
  publish-keeps (e ∷ es) w i found h =
      let s₁ = (env.uuid4 w.store).1 in
      let s₂ = (env.now s₁).1 in
      let s₃ = (env.uuid4 s₂).1 in
      let s₄ = (env.now s₃).1 in
      let here : lookup s₄ i ≡ found =
        keeps.now_keeps s₃ i
        ∙ keeps.uuid4_keeps s₂ i
        ∙ keeps.now_keeps s₁ i
        ∙ keeps.uuid4_keeps w.store i
        ∙ h in
      >>=-keeps (λ (v : Scope S). lookup v.store i ≡ found) (on_store (gateway.add _)) _
        (record w { store = s₄ }) (keeps.add_keeps _ s₄ i ∙ here)
        (λ _ _. publish-keeps es _ i found (keeps.add_keeps _ s₄ i ∙ here))

  -- From a handler's state to that after its events and its commit.
  pub found_after :
      (i : ℕ) (v u t : Scope S)
      → publish env dump gateway v.events (record v { events = [] }) ≡ (ok tt, u)
      → t.store ≡ (manager.commit u.store).1
      → lookup t.store i ≡ lookup v.store i
  found_after i v u t published committed =
      ap (λ s. lookup s i) committed
      ∙ keeps.commit_keeps u.store i
      ∙ ap (λ (q : Result (Unit {0}) × Scope S). lookup q.1.store i) (sym published)
      ∙ publish-keeps v.events (record v { events = [] }) i _ refl

  module _ {Bytes : Type 0} (tasks : TaskGateway S) (laws : TaskLaws env tasks lookup)
      (catalog : CatalogGateway S) (files : SourceFiles S Bytes) (sha256 : Digest)
      (type_name message : Error → Text) where
    complete_run-settles :
        (task_id : ℕ) (found : Option IndexingTask) (w t : Scope S)
        → found ≡ lookup w.store task_id
        → complete_run env catalog sha256 files tasks found w ≡ (ok tt, t)
        → is_settled (lookup t.store task_id) ≡ true
    unfolding complete_run
    complete_run-settles task_id none w t f h =
        let no : ⊥ = cc (ap (λ (q : Result (Unit {0}) × Scope S). q.0) h) in elim no [ ]
    complete_run-settles task_id (some task) w t f h =
        let (run_stats, w₁, _, k) =
          >>=-eq-ok (run_sync env catalog sha256 files task.source) _ w h in
        let (now, s₁) = env.now w₁.store in
        let (task', w₂, acted, last) =
          >>=-eq-ok (act (complete now run_stats task)) (λ task'. on_store (tasks.update task'))
            (record w₁ { store = s₁ }) k in
        let (us, _) = on_store-eq-ok (tasks.update task') w₂ t last in
        let (es, done) =
          act-eq-ok (complete now run_stats task) (record w₁ { store = s₁ }) w₂ acted in
        let (final, same) = complete-settles now run_stats task task' es done in
        let here : task'.id ≡ task_id = same ∙ laws.lookup_id w.store task_id task (sym f) in
        ap (λ j. is_settled (lookup t.store j)) (sym here)
        ∙ ap is_settled (laws.update_ok w₂.store t.store task' us)
        ∙ final

    run_indexing-settles :
        (task_id : ℕ) (w t : Scope S)
        → run_indexing env catalog sha256 files tasks task_id w ≡ (ok tt, t)
        → is_settled (lookup t.store task_id) ≡ true
    unfolding run_indexing
    run_indexing-settles task_id w t h =
        let (found, w₁, r, k) = >>=-eq-ok (on_store (tasks.read_by_id task_id)) _ w h in
        let (rs, _) = on_store-eq-ok (tasks.read_by_id task_id) w w₁ r in
        let (finds, same) = laws.read_ok w.store w₁.store task_id found rs in
        complete_run-settles task_id found w₁ t (finds ∙ sym same) k

    -- A run of the worker's task that returns, whether the synchronisation went through or failed,
    -- leaves the indexing task in a final status.
    pub run_indexing_task-settles :
        (task_id : ℕ) (w t : Scope S)
        → run_indexing_task env manager tasks catalog files sha256
            (publish env dump gateway)
            type_name
            message
            task_id
            w
          ≡ (ok tt, t)
        → is_settled (lookup t.store task_id) ≡ true
    unfolding run_indexing_task send_run send_failed
    run_indexing_task-settles task_id w t h =
        let (_, w₁, _, k) =
          >>=-eq-ok
            (send_running env manager tasks catalog files sha256 (publish env dump gateway)
              type_name message task_id)
            _ w h in
        elim (try-eq-ok
          (send_run env manager tasks catalog files sha256 (publish env dump gateway) type_name
            message task_id)
          (λ e.
            send_failed env manager tasks catalog files sha256 (publish env dump gateway) type_name
              message task_id e)
          w₁ k) [
            | inl ran ↦
                let (v, u, handled, published, committed) =
                  run_command-eq-ok manager (publish env dump gateway)
                    (λ i. run_indexing env catalog sha256 files tasks i) task_id w₁ t tt ran in
                ap is_settled (found_after task_id v u t published committed)
                ∙ run_indexing-settles task_id w₁ v handled
            | inr (e, w₂, marked) ↦
                let (v, u, handled, published, committed) =
                  run_command-eq-ok manager (publish env dump gateway)
                    (λ i. mark_indexing_failed env tasks i (type_name e) (message e)) task_id w₂ t
                    tt marked in
                ap is_settled (found_after task_id v u t published committed)
                ∙ mark_indexing_failed-settles env tasks lookup laws task_id (type_name e)
                    (message e) w₂ v handled
          ]
