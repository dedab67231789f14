-- ===== src/Indexing/Task/Lifecycle.antt =====
-- The state machine of IndexingTask: which calls are refused, and what a status says of the fields.
use answer_service.Base.{ℕ, ◌≡◌, refl, Bool, true, false, Option, none, some, arith}
use answer_service.Errors.{Result, ok, err, invalid_task_transition}
use answer_service.Indexing.Values.{SourceReference, FailureInfo}
use answer_service.Indexing.Task.{
  TaskStatus, queued, running, succeeded, failed, IndexingTask, Emits, Operation, to_start,
  to_complete, to_fail, to_abandon, perform, queue,
}

-- `QUEUED -> RUNNING -> SUCCEEDED | FAILED`, and a queued task may fail before it starts.
abbrev pub next_status : Operation → TaskStatus → Option TaskStatus
next_status (to_start _) queued = some running
next_status (to_complete _ _) running = some succeeded
next_status (to_fail _ _) queued = some failed
next_status (to_fail _ _) running = some failed
next_status (to_abandon _ _) running = some failed
next_status _ _ = none

-- A call answers as the table of transitions says: it raises InvalidTaskTransitionError where the
-- table has no entry, and else moves to the entry's status.
abbrev pub Obeys : Option TaskStatus → Result Emits → Type 0
Obeys none r = r ≡ err invalid_task_transition
Obeys (some s) r = (t : IndexingTask) × (es : _) × (r ≡ ok (t, es)) × (t.status ≡ s)

-- What the status says of the other fields.
abbrev pub is_some {ℓ} : {A : Type ℓ} → Option A → Bool
is_some none = false
is_some (some a) = true

abbrev pub Fits : TaskStatus → Option ℕ → Option ℕ → Option FailureInfo → Type 0
Fits queued s f e = (is_some s ≡ false) × (is_some f ≡ false) × (is_some e ≡ false)
Fits running s f e = (is_some s ≡ true) × (is_some f ≡ false) × (is_some e ≡ false)
Fits succeeded s f e = (is_some s ≡ true) × (is_some f ≡ true) × (is_some e ≡ false)
Fits failed s f e = (is_some f ≡ true) × (is_some e ≡ true)

abbrev pub IsConsistent : IndexingTask → Type 0
IsConsistent t = Fits t.status t.started_at t.finished_at t.failure

pub queue-IsConsistent :
    (task_id now : ℕ) (source : SourceReference) → IsConsistent (queue task_id now source).0
unfolding queue
queue-IsConsistent task_id now source = (refl, refl, refl)

-- Every call on every task answers as the table of transitions says.
pub perform-Obeys :
    (op : Operation) (t : IndexingTask) → Obeys (next_status op t.status) (perform op t)
unfolding perform
perform-Obeys op t = go op t.status refl
  where
    go : (op : Operation) (s : TaskStatus) → t.status ≡ s → Obeys (next_status op s) (perform op t)
    go (to_start now) queued e = rw e (_, _, refl, refl)
    go (to_start now) _ e = rw e refl
    go (to_complete now stats) running e = rw e (_, _, refl, refl)
    go (to_complete now stats) _ e = rw e refl
    go (to_fail now failure) queued e = rw e (_, _, refl, refl)
    go (to_fail now failure) running e = rw e (_, _, refl, refl)
    go (to_fail now failure) _ e = rw e refl
    go (to_abandon now failure) running e = rw e (_, _, refl, refl)
    go (to_abandon now failure) _ e = rw e refl

-- A call that succeeds keeps the fields in step with the status.
pub perform-IsConsistent :
    (op : Operation) (t : IndexingTask) {t' : IndexingTask} {es : _}
    → perform op t ≡ ok (t', es)
    → IsConsistent t
    → IsConsistent t'
unfolding perform
perform-IsConsistent (to_start now) t h c = ground arith
perform-IsConsistent (to_complete now stats) t h c = ground arith
perform-IsConsistent (to_fail now failure) t h c = ground arith
perform-IsConsistent (to_abandon now failure) t h c = ground arith
