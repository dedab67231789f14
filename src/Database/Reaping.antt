-- ===== src/Database/Reaping.antt =====
-- The reaper over the gateway of tasks: application/commands/indexing/reap_stuck_tasks with
-- sqlalchemy_indexing_task_gateway.py.
use answer_service.Base.{
  ℕ, ◌-◌, ◌≡◌, ◌≤◌, refl, sym, ◌∙◌, ap, subst, true, Option, none, some, List, [], ◌∷◌, All, length,
  ◌⊎◌, inl, inr, Bool-cases, ◌==◌, nat_eq, arith,
}
use answer_service.Base.Text.{Text, strip, lstrip, is_space}
use answer_service.Errors.{Result, ok, err, repo_error}
use answer_service.Application.Io.{pure, ◌>>=◌, ◌>>◌}
use answer_service.Application.Scope.{Scope, on_store}
use answer_service.Application.Ports.{Environment}
use answer_service.Application.Handlers.Reaper.{
  abandoned_failure_code, reap_one, reap_all, reap_stuck_tasks,
}
use answer_service.Indexing.Values.{FailureInfo, failure_info}
use answer_service.Indexing.Task.{
  IndexingTask, TaskStatus, running, failed, status_beq, abandon, fail,
}
use answer_service.Database.Session.{Table, TableLaws, or_repo_error}
use answer_service.Database.Tasks.{is_before, is_stuck, sql_task_gateway}

status_beq-running : (x : TaskStatus) → status_beq x running ≡ true → x ≡ running
status_beq-running x h = ground arith

module _ {S : Type 0} (lookup : S → ℕ → Option IndexingTask) where
  -- The task of this id has been failed as abandoned.
  pub record IsAbandoned (s : S) (task_id : ℕ) : Type 0 where
    pub task : IndexingTask
    pub there : lookup s task_id ≡ some task
    pub is_failed : task.status ≡ failed
    pub code : (f : FailureInfo) × (task.failure ≡ some f) × (f.code ≡ abandoned_failure_code)

  -- The task was running, for as long as the cutoff says.
  pub record WasStuck (cutoff : ℕ) (s : S) (task : IndexingTask) : Type 0 where
    pub there : lookup s task.id ≡ some task
    pub was_running : task.status ≡ running
    pub started : is_before task.started_at cutoff ≡ true

  -- How a tick of the reaper can end.
  pub data Reaped (cutoff batch_size : ℕ) (s : S) : Result ℕ × Scope S → Type 0 where
    is_reaped :
        (stuck : List IndexingTask) (t : Scope S)
        → length stuck ≤ batch_size
        → All (WasStuck cutoff s) stuck
        → All (λ task. IsAbandoned t.store task.id) stuck
        → Reaped cutoff batch_size s (ok (length stuck), t)
    not_read : (t : Scope S) → Reaped cutoff batch_size s (err repo_error, t)

module _ {S : Type 0} (env : Environment S) (table : Table S IndexingTask)
    (lookup : S → ℕ → Option IndexingTask) (laws : TableLaws table (λ t. t.id) lookup)
    (now_keeps : (s : S) → lookup (env.now s).1 ≡ lookup s) where
  abandoned : (now : ℕ) (message : Text) → IndexingTask → IndexingTask
  abandoned now message t = record t {
    status = failed;
    finished_at = some now;
    failure = some (record { code = abandoned_failure_code; message = message });
  }

  reap_one-eq :
      (message : Text) (task : IndexingTask) (w : Scope S)
      → task.status ≡ running
      → (t : Scope S) × (reap_one env (sql_task_gateway table) message task w ≡ (ok tt, t))
        × (t.store ≡ table.changed (abandoned (env.now w.store).0 message task) (env.now w.store).1)
  unfolding reap_one failure_info abandon fail sql_task_gateway abandoned strip lstrip is_space
  reap_one-eq message task w h = rw h (_, refl, refl)

  -- Failing a task leaves every abandoned one abandoned, and is abandoned itself.
  changed-IsAbandoned :
      (now : ℕ) (message : Text) (task : IndexingTask) (s : S) (i : ℕ)
      → (task.id ≡ i) ⊎ IsAbandoned lookup s i
      → IsAbandoned lookup (table.changed (abandoned now message task) s) i
  unfolding abandoned
  changed-IsAbandoned now message task s i before = elim (Bool-cases (task.id == i)) [
    | inl e ↦ record {
      task = abandoned now message task;
      there = laws.changes _ s i ∙ rw e refl;
      is_failed = refl;
      code = (_, refl, refl);
    }
    | inr e ↦ elim before [
      | inl same ↦ let no : ⊥ = ground (arith, e, same) in elim no [ ]
      | inr a ↦ record {
        task = a.task;
        there = laws.changes _ s i ∙ rw e a.there;
        is_failed = a.is_failed;
        code = a.code;
      }
    ]
  ]

  after_now :
      (s : S) (i : ℕ) {P : Type 0}
      → P ⊎ IsAbandoned lookup s i
      → P ⊎ IsAbandoned lookup (env.now s).1 i
  after_now s i (inl p) = inl p
  after_now s i (inr a) = inr (record {
    task = a.task;
    there = ap (λ (f : ℕ → Option IndexingTask). f i) (now_keeps s) ∙ a.there;
    is_failed = a.is_failed;
    code = a.code;
  })

  reap_all-eq :
      (message : Text) (stuck : List IndexingTask) (w : Scope S)
      → All (λ task. task.status ≡ running) stuck
      → (t : Scope S) × (reap_all env (sql_task_gateway table) message stuck w ≡ (ok tt, t))
        × All (λ task. IsAbandoned lookup t.store task.id) stuck
        × ((i : ℕ) → IsAbandoned lookup w.store i → IsAbandoned lookup t.store i)
  unfolding reap_all
  reap_all-eq message [] w r = (w, refl, tt, λ i a. a)
  reap_all-eq message (task ∷ rest) w (r, rs) =
      let (u, first, wrote) = reap_one-eq message task w r in
      let step : (i : ℕ)
          → (task.id ≡ i) ⊎ IsAbandoned lookup w.store i
          → IsAbandoned lookup u.store i =
        λ i before.
          subst (λ (s : S). IsAbandoned lookup s i) (sym wrote)
            (changed-IsAbandoned (env.now w.store).0 message task (env.now w.store).1 i
              (after_now w.store i before)) in
      let (t, others, all, kept) = reap_all-eq message rest u rs in
      (
        t,
        rw first others,
        (kept task.id (step task.id (inl refl)), all),
        λ i a. kept i (step i (inr a)),
      )

  is_stuck-WasStuck :
      (cutoff : ℕ) (s : S) (stuck : List IndexingTask)
      → All (λ r. (is_stuck cutoff r ≡ true) × (lookup (env.now s).1 r.id ≡ some r)) stuck
      → All (WasStuck lookup cutoff s) stuck
  unfolding is_stuck
  is_stuck-WasStuck cutoff s [] h = tt
  is_stuck-WasStuck cutoff s (task ∷ rest) (h, hs) = (
    record {
      there = sym (ap (λ (f : ℕ → Option IndexingTask). f task.id) (now_keeps s)) ∙ h.1;
      was_running = ground (arith, h.0);
      started = ground (arith, h.0);
    },
    is_stuck-WasStuck cutoff s rest hs,
  )

  WasStuck-running :
      (cutoff : ℕ) (s : S) (stuck : List IndexingTask)
      → All (WasStuck lookup cutoff s) stuck
      → All (λ task. task.status ≡ running) stuck
  WasStuck-running cutoff s [] h = tt
  WasStuck-running cutoff s (task ∷ rest) (h, hs) =
      (h.was_running, WasStuck-running cutoff s rest hs)

  -- Over the database, a tick of the reaper fails as abandoned the tasks that it has read: at most
  -- `batch_size` of them, each of which was RUNNING and had started before the cutoff. It can only
  -- raise RepoError, and returns the number of those tasks.
  pub reap_stuck_tasks-Reaped :
      (stuck_after batch_size : ℕ) (message : Text) (w : Scope S)
      → Reaped lookup
          ((env.now w.store).0 - stuck_after)
          batch_size
          w.store
          (reap_stuck_tasks env (sql_task_gateway table) stuck_after batch_size message w)
  unfolding reap_stuck_tasks sql_task_gateway
  reap_stuck_tasks-Reaped stuck_after batch_size message w =
      let cutoff = (env.now w.store).0 - stuck_after in
      let read =
        table.select_first (is_stuck cutoff) (λ t. t.started_at) batch_size (env.now w.store).1 in
      go cutoff read.0 read.1 refl
    where
      go :
          (cutoff : ℕ) (o : Option (List IndexingTask)) (u : S)
          → table.select_first (is_stuck cutoff) (λ t. t.started_at) batch_size (env.now w.store).1
            ≡ (o, u)
          → Reaped lookup cutoff batch_size w.store (
              (on_store (λ s. (or_repo_error o, u)) >>= (λ stuck.
                  reap_all env (sql_task_gateway table) message stuck >> pure (length stuck)))
                w)
      go cutoff none u e = not_read _
      go cutoff (some stuck) u e =
          let (found, few, same) =
            laws.selects_first _ _ batch_size (env.now w.store).1 u stuck e in
          let was = is_stuck-WasStuck cutoff w.store stuck found in
          let (t, done, all, _) =
            reap_all-eq message stuck (record w { store = u })
              (WasStuck-running cutoff w.store stuck was) in
          rw done (is_reaped stuck t few was all)
