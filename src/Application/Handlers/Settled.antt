-- ===== src/Application/Handlers/Settled.antt =====
-- MarkIndexingFailedHandler leaves its task in a final status.
use answer_service.Base.{
  ℕ, ◌≡◌, sym, ◌∙◌, ap, Bool, true, false, Option, none, some, List, arith, inl, inr, Bool-cases,
}
use answer_service.Base.Text.{Text}
use answer_service.Errors.{Result, ok, err}
use answer_service.Application.Io.{lift, >>=-eq-ok}
use answer_service.Application.Scope.{Scope, on_store, on_store-eq-ok}
use answer_service.Application.Ports.{Environment, TaskGateway}
use answer_service.Application.Handlers.{act, fail_if_open, mark_indexing_failed}
use answer_service.Indexing.Event.{EventBody}
use answer_service.Indexing.Values.{FailureInfo, failure_info}
use answer_service.Indexing.Task.{IndexingTask, is_terminal, fail}

-- What the handlers rely on of the gateway: a read finds what the store holds under an id, an update
-- puts the task under its own.
pub record TaskLaws {S : Type 0} (env : Environment S) (tasks : TaskGateway S)
    (lookup : S → ℕ → Option IndexingTask) : Type 0 where
  pub lookup_id : (s : S) (i : ℕ) (t : IndexingTask) → lookup s i ≡ some t → t.id ≡ i
  pub read_ok :
      (s t : S) (i : ℕ) (found : Option IndexingTask)
      → tasks.read_by_id i s ≡ (ok found, t)
      → (found ≡ lookup s i) × (lookup t i ≡ lookup s i)
  pub update_ok :
      (s t : S) (task : IndexingTask)
      → tasks.update task s ≡ (ok tt, t)
      → lookup t task.id ≡ some task

abbrev pub is_settled : Option IndexingTask → Bool
is_settled none = false
is_settled (some t) = is_terminal t.status

pub act-eq-ok :
    {S A : Type 0} (r : Result (A × List EventBody)) (w t : Scope S) {a : A}
    → act r w ≡ (ok a, t)
    → (es : List EventBody) × (r ≡ ok (a, es))
act-eq-ok {S} {A} (ok (b, es)) w t h =
    let e : ok b ≡ ok _ = ap (λ (q : Result A × Scope S). q.0) h in
    let same : b ≡ _ = cc e in (es, λ i. ok (same i, es))
act-eq-ok {S} {A} (err x) w t h =
    let no : ⊥ = cc (ap (λ (q : Result A × Scope S). q.0) h) in elim no [ ]

fail-settles :
    (now : ℕ) (info : FailureInfo) (task task' : IndexingTask) (es : List EventBody)
    → fail now info task ≡ ok (task', es)
    → (is_terminal task'.status ≡ true) × (task'.id ≡ task.id)
unfolding fail
fail-settles now info task task' es h = ground arith

module _ {S : Type 0} (env : Environment S) (tasks : TaskGateway S)
    (lookup : S → ℕ → Option IndexingTask) (laws : TaskLaws env tasks lookup) where
  fail_if_open-settles :
      (task_id : ℕ) (code message : Text) (found : Option IndexingTask) (w t : Scope S)
      → found ≡ lookup w.store task_id
      → fail_if_open env tasks code message found w ≡ (ok tt, t)
      → is_settled (lookup t.store task_id) ≡ true
  unfolding fail_if_open
  fail_if_open-settles task_id code message none w t f h =
      let no : ⊥ = cc (ap (λ (q : Result (Unit {0}) × Scope S). q.0) h) in elim no [ ]
  fail_if_open-settles task_id code message (some task) w t f h =
      elim (Bool-cases (is_terminal task.status)) [
        | inl settled ↦
            ap (λ (q : Result (Unit {0}) × Scope S). is_settled (lookup q.1.store task_id))
              (sym (rw settled at h))
            ∙ ap is_settled (sym f)
            ∙ settled
        | inr unsettled ↦
            (let (info, w₁, li, k) =
                >>=-eq-ok (lift (failure_info code message)) _ w (rw unsettled at h) in
              let (now, s₁) = env.now w₁.store in
              let (task', w₂, acted, last) =
                >>=-eq-ok (act (fail now info task)) (λ task'. on_store (tasks.update task'))
                  (record w₁ { store = s₁ }) k in
              let (us, _) = on_store-eq-ok (tasks.update task') w₂ t last in
              let (es, failed) =
                act-eq-ok (fail now info task) (record w₁ { store = s₁ }) w₂ acted in
              let (final, same) = fail-settles now info task task' es failed in
              let here : task'.id ≡ task_id = same ∙ laws.lookup_id w.store task_id task (sym f) in
              ap (λ j. is_settled (lookup t.store j)) (sym here)
              ∙ ap is_settled (laws.update_ok w₂.store t.store task' us)
              ∙ final)
      ]

  -- Marking as failed, when it returns, leaves a task under the command's id in a final status,
  -- whichever status it had before.
  pub mark_indexing_failed-settles :
      (task_id : ℕ) (code message : Text) (w t : Scope S)
      → mark_indexing_failed env tasks task_id code message w ≡ (ok tt, t)
      → is_settled (lookup t.store task_id) ≡ true
  unfolding mark_indexing_failed
  mark_indexing_failed-settles task_id code message w t h =
      let (found, w₁, r, k) = >>=-eq-ok (on_store (tasks.read_by_id task_id)) _ w h in
      let (rs, _) = on_store-eq-ok (tasks.read_by_id task_id) w w₁ r in
      let (finds, same) = laws.read_ok w.store w₁.store task_id found rs in
      fail_if_open-settles task_id code message found w₁ t (finds ∙ sym same) k
