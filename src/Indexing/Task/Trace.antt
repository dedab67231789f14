-- ===== src/Indexing/Task/Trace.antt =====
-- A task's life from `IndexingTask.queue` on, as a relation, and the events that it leaves behind.
use answer_service.Base.{ℕ, ◌≡◌, refl, Option, none, some, List, [], ◌∷◌, ◌++◌, map, arith}
use mathlib.Core.List.{map-append}
use answer_service.Errors.{ok}
use answer_service.Indexing.Values.{SourceReference}
use answer_service.Indexing.Event.{
  EventBody, indexing_task_queued, indexing_started, indexing_completed, indexing_failed,
}
use answer_service.Indexing.Task.{
  TaskStatus, queued, running, succeeded, failed, IndexingTask, Operation, to_start, to_complete,
  to_fail, to_abandon, perform, queue,
}
use answer_service.Indexing.Task.Lifecycle.{IsConsistent, queue-IsConsistent, perform-IsConsistent}

-- `Life t es`: calls on a queued task have led to `t`, and have added the events `es`, oldest first.
pub data Life : IndexingTask → List EventBody → Type 0 where
  born :
      (task_id now : ℕ) (source : SourceReference)
      → Life (queue task_id now source).0 (queue task_id now source).1
  called :
      {t t' : IndexingTask} {es new : List EventBody} (op : Operation)
      → Life t es
      → perform op t ≡ ok (t', new)
      → Life t' (es ++ new)

-- Every task that calls can lead to has its fields in step with its status.
pub Life-IsConsistent : {t : IndexingTask} {es : List EventBody} → Life t es → IsConsistent t
Life-IsConsistent (born task_id now source) = queue-IsConsistent task_id now source
Life-IsConsistent (called {t = t} op life done) =
    perform-IsConsistent op t done (Life-IsConsistent life)

-- The status that an event announces.
abbrev pub announces : EventBody → Option TaskStatus
announces (indexing_task_queued _) = some queued
announces (indexing_started _) = some running
announces (indexing_completed _ _) = some succeeded
announces (indexing_failed _ _) = some failed
announces _ = none

-- The statuses that a task has gone through.
abbrev pub path : TaskStatus → Option ℕ → List (Option TaskStatus)
path queued s = some queued ∷ []
path running s = some queued ∷ some running ∷ []
path succeeded s = some queued ∷ some running ∷ some succeeded ∷ []
path failed none = some queued ∷ some failed ∷ []
path failed (some _) = some queued ∷ some running ∷ some failed ∷ []

path-perform :
    (op : Operation) (t : IndexingTask) {t' : IndexingTask} {new : List EventBody}
    → perform op t ≡ ok (t', new)
    → IsConsistent t
    → path t.status t.started_at ++ map announces new ≡ path t'.status t'.started_at
unfolding perform
path-perform (to_start now) t h c = ground arith
path-perform (to_complete now stats) t h c = ground arith
path-perform (to_fail now failure) t h c = ground arith
path-perform (to_abandon now failure) t h c = ground arith

-- The events that a task has added announce, in order and once each, the statuses that it has gone
-- through: in particular at most one of IndexingCompleted and IndexingFailed, and that one last.
pub announces-Life :
    {t : IndexingTask} {es : List EventBody}
    → Life t es
    → map announces es ≡ path t.status t.started_at
announces-Life (born task_id now source) = unfold queue in refl
announces-Life (called {t = t} {es = es} {new = new} op life done) =
    rw (map-append, announces-Life life) (path-perform op t done (Life-IsConsistent life))
