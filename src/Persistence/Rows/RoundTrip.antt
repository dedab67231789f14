-- ===== src/Persistence/Rows/RoundTrip.antt =====
-- What the mappings store comes back as it was: tasks, pairs and journal rows. JSONB, which may keep
-- the items of an object in another order, is a parameter.
use answer_service.Base.{ℕ, Bool, true, false, not, subst, ◌≡◌, refl, Option, none, some, List}
use answer_service.Base.Int.{ℤ}
use answer_service.Base.Text.{Text, text, text_beq, text_eq}
use answer_service.Base.Dict.{Dict, get}
use answer_service.Errors.{Error, invalid_task_transition, Result, ok, raise_if, ◌>>◌}
use answer_service.Indexing.Values.{
  SourceReference, source_reference, SyncStats, FailureInfo, failure_info, sync_stats,
}
use answer_service.Indexing.Event.{EventBody}
use answer_service.Indexing.Task.{
  TaskStatus, IndexingTask, Operation, Emits, to_start, to_complete, to_fail, to_abandon, perform,
  queue, queued, running, succeeded, failed, status_beq, start, complete, fail, abandon,
}
use answer_service.Persistence.Columns.{
  failure_info_type, stats_to_json, stats_from_json, failure_to_json, failure_from_json,
  task_status_value, task_status_of,
}
use answer_service.Persistence.Made.{
  IsMade, stats_of, failure_of, source_reference_again, sync_stats_again, failure_info_again,
}
use answer_service.Persistence.Rows.{IndexingTaskRow, store_task, load_task}

-- A call whose values come from their constructors.
pub data IsChecked : Operation → Type 0 where
  start_checked : (now : ℕ) → IsChecked (to_start now)
  complete_checked :
      (now : ℕ) (stats : SyncStats) → IsMade stats_of stats → IsChecked (to_complete now stats)
  fail_checked :
      (now : ℕ) (failure : FailureInfo)
      → IsMade failure_of failure
      → IsChecked (to_fail now failure)
  abandon_checked :
      (now : ℕ) (failure : FailureInfo)
      → IsMade failure_of failure
      → IsChecked (to_abandon now failure)

-- The tasks that such calls lead to from a queued one.
pub data IsRun : IndexingTask → Type 0 where
  is_queued :
      (task_id now : ℕ) (source : SourceReference)
      → IsMade source_reference source
      → IsRun (queue task_id now source).0
  is_called :
      {t : IndexingTask} (t' : IndexingTask) {new : List EventBody} (op : Operation)
      → IsRun t
      → IsChecked op
      → perform op t ≡ ok (t', new)
      → IsRun t'

data AllMade : Option FailureInfo → Type 0 where
  no_failure : AllMade none
  made_failure : (f : FailureInfo) → failure_of (f.code, f.message) ≡ ok f → AllMade (some f)

-- The values of a task's columns are remade from their parts.
record HasMade (t : IndexingTask) : Type 0 where
  source : source_reference t.source.value ≡ ok t.source
  stats : sync_stats t.stats.created t.stats.updated t.stats.deleted t.stats.skipped ≡ ok t.stats
  failure : AllMade t.failure

past_guard {ℓ} :
    {A : Type ℓ} (b : Bool) (e : Error) {k : Result A} {a : A}
    → (raise_if b e >> k) ≡ ok a
    → k ≡ ok a
past_guard true e h = cc h
past_guard false e h = h

emitted : {x y : Emits} → ok x ≡ ok y → x.0 ≡ y.0
emitted h = cc h

fail-HasMade :
    (now : ℕ) (failure : FailureInfo) (t t' : IndexingTask) {new : List EventBody}
    → fail now failure t ≡ ok (t', new)
    → IsMade failure_of failure
    → HasMade t
    → HasMade t'
unfolding fail
fail-HasMade now failure t t' h made m = subst HasMade (emitted (past_guard _ _ h)) (record {
  source = m.source;
  stats = m.stats;
  failure = made_failure failure (failure_info_again made.argument failure made.accepted);
})

perform-HasMade :
    (op : Operation) (t t' : IndexingTask) {new : List EventBody}
    → perform op t ≡ ok (t', new)
    → IsChecked op
    → HasMade t
    → HasMade t'
unfolding perform start complete abandon
perform-HasMade op t t' h (start_checked now) m =
    subst HasMade (emitted (past_guard _ _ h))
      (record { source = m.source; stats = m.stats; failure = m.failure })
perform-HasMade op t t' h (complete_checked now stats made) m =
    subst HasMade (emitted (past_guard _ _ h)) (record {
      source = m.source;
      stats = sync_stats_again made.argument stats made.accepted;
      failure = m.failure;
    })
perform-HasMade op t t' h (fail_checked now failure made) m = fail-HasMade now failure t t' h made m
perform-HasMade op t t' h (abandon_checked now failure made) m =
    fail-HasMade now failure t t'
      (past_guard (not (status_beq t.status running)) invalid_task_transition h) made m

IsRun-HasMade : {t : IndexingTask} → IsRun t → HasMade t
unfolding queue sync_stats
IsRun-HasMade (is_queued task_id now source made) = record {
  source = source_reference_again made.argument source made.accepted;
  stats = refl;
  failure = no_failure;
}
IsRun-HasMade (is_called t' op run checked done) =
    perform-HasMade op _ t' done checked (IsRun-HasMade run)

task_status_of-value : (s : TaskStatus) → task_status_of (task_status_value s) ≡ ok s
unfolding task_status_of text_beq
task_status_of-value queued = refl
task_status_of-value running = refl
task_status_of-value succeeded = refl
task_status_of-value failed = refl

-- JSONB: what `value[key]` finds in an object that was stored is what it found before.
module _ (jsonb : (A : Type 0) → Dict Text A → Dict Text A)
    (get-jsonb : (A : Type 0) (d : Dict Text A) (k : Text) → get (jsonb A d) k ≡ get d k) where
  abbrev pub in_jsonb : {A : Type 0} → Option (Dict Text A) → Option (Dict Text A)
  in_jsonb none = none
  in_jsonb {A} (some d) = some (jsonb A d)

  -- The row as the table keeps it.
  unfoldable pub written : IndexingTaskRow → IndexingTaskRow
  written r = record r { stats = in_jsonb r.stats; failure = in_jsonb r.failure }

  stats_from-jsonb :
      (s : SyncStats)
      → stats_from_json (jsonb ℤ (stats_to_json s))
        ≡ sync_stats s.created s.updated s.deleted s.skipped
  unfolding text_beq
  stats_from-jsonb s =
      rw
        (
          get-jsonb ℤ (stats_to_json s) (text "created"),
          get-jsonb ℤ (stats_to_json s) (text "updated"),
          get-jsonb ℤ (stats_to_json s) (text "deleted"),
          get-jsonb ℤ (stats_to_json s) (text "skipped"),
        )
        refl

  failure_from-jsonb :
      (f : FailureInfo)
      → failure_from_json (jsonb Text (failure_to_json f)) ≡ failure_info f.code f.message
  unfolding text_beq
  failure_from-jsonb f =
      rw
        (
          get-jsonb Text (failure_to_json f) (text "code"),
          get-jsonb Text (failure_to_json f) (text "message"),
        )
        refl

  failure_loads :
      (o : Option FailureInfo)
      → AllMade o
      → failure_info_type.process_result_value (in_jsonb (failure_info_type.process_bind_param o))
        ≡ ok o
  failure_loads none no_failure = refl
  failure_loads (some f) (made_failure _ again) = rw (failure_from-jsonb f, again) refl

  -- A task that checked calls have led to comes back from its table as it was, whatever the order
  -- in which the database keeps the items of its two JSON columns.
  pub load_task-store_task :
      (t : IndexingTask) → IsRun t → load_task (written (store_task t)) ≡ ok t
  unfolding load_task store_task written
  load_task-store_task t run =
      let m = IsRun-HasMade run in
      rw
        (
          m.source,
          task_status_of-value t.status,
          stats_from-jsonb t.stats,
          m.stats,
          failure_loads t.failure m.failure,
        )
        refl
