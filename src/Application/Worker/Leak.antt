-- ===== src/Application/Worker/Leak.antt =====
-- The events of a run that was rolled back.
use answer_service.Base.{
  ℕ, ◌≡◌, sym, ◌∙◌, ap, subst, true, Option, none, some, List, [], ◌++◌, map, append-nil,
  Bool-cases, inl, inr,
}
use answer_service.Base.Text.{Text}
use answer_service.Errors.{Error, Result, ok, err}
use answer_service.Errors.Hierarchy.{caught}
use answer_service.Application.Io.{lift, >>=-eq-ok}
use answer_service.Application.Scope.{Scope, on_store, on_store-eq-ok}
use answer_service.Application.Ports.{
  Environment, TransactionManager, TaskGateway, CatalogGateway, SourceFiles, OutboxMessage,
  OutboxGateway,
}
use answer_service.Application.Pipelines.Draining.{run_command-drains, run_command-keeps_events}
use answer_service.Application.Handlers.{act, fail_if_open, mark_indexing_failed}
use answer_service.Application.Handlers.Sync.{run_indexing}
use answer_service.Application.Outbox.{Dump, publish}
use answer_service.Application.Outbox.Bus.{OutboxTable, RecordsAll}
use answer_service.Application.Worker.{send_running, send_run, send_failed, run_indexing_task}
use answer_service.Indexing.Event.{Event, EventBody, event}
use answer_service.Indexing.Fingerprint.{Digest}
use answer_service.Indexing.Values.{failure_info, FailureInfo}
use answer_service.Indexing.Task.{IndexingTask, is_terminal, fail}

-- `t` comes after `w` and has kept its events.
abbrev pub Extends : {S : Type 0} → Scope S → Scope S → Type 0
Extends w t = (es : List Event) × (t.events ≡ w.events ++ es)

module _ {S : Type 0} (env : Environment S) (tasks : TaskGateway S) where
  returned :
      {w t : Scope S}
      → ◌≡◌ {A = Result (Unit {0}) × Scope S} (ok tt, w) (ok tt, t)
      → t.events ≡ w.events
  returned h = sym (ap (λ (q : Result (Unit {0}) × Scope S). q.1.events) h)

  append_nil_of : {xs ys : List Event} → ys ≡ xs → ys ≡ xs ++ []
  append_nil_of {xs} e = e ∙ sym (append-nil xs)

  act-Extends :
      {A : Type 0} (r : Result (A × List EventBody)) (w t : Scope S) {a : A}
      → act r w ≡ (ok a, t)
      → Extends w t
  act-Extends {A} (ok (a, es)) w t h =
      (map event es, sym (ap (λ (q : Result A × Scope S). q.1.events) h))
  act-Extends {A} (err x) w t h =
      let no : ⊥ = cc (ap (λ (q : Result A × Scope S). q.0) h) in elim no [ ]

  fail_if_open-Extends :
      (code message : Text) (found : Option IndexingTask) (w t : Scope S)
      → fail_if_open env tasks code message found w ≡ (ok tt, t)
      → Extends w t
  unfolding fail_if_open
  fail_if_open-Extends code message none w t h =
      let no : ⊥ = cc (ap (λ (q : Result (Unit {0}) × Scope S). q.0) h) in elim no [ ]
  fail_if_open-Extends code message (some task) w t h =
      elim (Bool-cases (is_terminal task.status)) [
        | inl settled ↦ ([], append_nil_of (returned (rw settled at h)))
        | inr unsettled ↦
            (let (info, w₁, li, k) =
                >>=-eq-ok (lift (failure_info code message)) _ w (rw unsettled at h) in
              let (now, s₁) = env.now w₁.store in
              let (task', w₂, acted, last) =
                >>=-eq-ok (act (fail now info task)) (λ task'. on_store (tasks.update task'))
                  (record w₁ { store = s₁ }) k in
              let (_, same) = on_store-eq-ok (tasks.update task') w₂ t last in
              let (es, e) = act-Extends (fail now info task) (record w₁ { store = s₁ }) w₂ acted in
              (es, same ∙ e ∙ ap (λ (q : Result FailureInfo × Scope S). q.1.events ++ es) (sym li)))
      ]

  mark_indexing_failed-Extends :
      (task_id : ℕ) (code message : Text) (w t : Scope S)
      → mark_indexing_failed env tasks task_id code message w ≡ (ok tt, t)
      → Extends w t
  unfolding mark_indexing_failed
  mark_indexing_failed-Extends task_id code message w t h =
      let (found, w₁, r, k) = >>=-eq-ok (on_store (tasks.read_by_id task_id)) _ w h in
      let (_, same) = on_store-eq-ok (tasks.read_by_id task_id) w w₁ r in
      let (es, e) = fail_if_open-Extends code message found w₁ t k in
      (es, e ∙ ap (λ l. l ++ es) same)

module _ {S Bytes : Type 0} (env : Environment S) (manager : TransactionManager S)
    (tasks : TaskGateway S) (catalog : CatalogGateway S) (files : SourceFiles S Bytes)
    (sha256 : Digest) (type_name message : Error → Text) (dump : Dump) (gateway : OutboxGateway S)
    (rows : S → List OutboxMessage) (table : OutboxTable env gateway rows)
    (commit_keeps : (s : S) → rows (manager.commit s).1 ≡ rows s) where
  -- A run that fails after its handler recorded events: once it is rolled back, marking the task as
  -- failed puts every one of those events into the outbox, ahead of its own.
  pub run_indexing_task-leaks :
      (task_id : ℕ) (w w₁ v t : Scope S) (e : Error)
      → send_running env manager tasks catalog files sha256
          (publish env dump gateway)
          type_name
          message
          task_id
          w
        ≡ (ok tt, w₁)
      → run_indexing env catalog sha256 files tasks task_id w₁ ≡ (err e, v)
      → caught e ≡ true
      → (manager.rollback v.store).0 ≡ ok tt
      → run_indexing_task env manager tasks catalog files sha256
          (publish env dump gateway)
          type_name
          message
          task_id
          w
        ≡ (ok tt, t)
      → (old ms : List OutboxMessage) × (own : List Event) × (rows t.store ≡ old ++ ms)
        × RecordsAll dump (v.events ++ own) ms
  unfolding run_indexing_task send_run send_failed
  run_indexing_task-leaks task_id w w₁ v t e started failed app rolled h =
      let undone = record v { store = (manager.rollback v.store).1 } in
      let raised =
        run_command-keeps_events manager (publish env dump gateway)
          (λ i. run_indexing env catalog sha256 files tasks i) task_id w₁ v e failed app rolled in
      let (u, ms, marked, grown, recorded, _) =
        run_command-drains env manager dump gateway rows table commit_keeps
          (λ i. mark_indexing_failed env tasks i (type_name e) (message e)) task_id undone t tt
          (rw (started, raised, app) at h) in
      let (own, e) =
        mark_indexing_failed-Extends env tasks task_id (type_name e) (message e) undone u marked in
      (rows u.store, ms, own, grown, subst (λ es. RecordsAll dump es ms) e recorded)
