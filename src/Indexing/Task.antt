-- ===== src/Indexing/Task.antt =====
-- domain/indexing/entities/indexing_task.py: the IndexingTask aggregate. A method returns the new
-- task and the events that it adds to the shared EventsCollection; `now` is datetime.now(UTC).
pub mod Lifecycle
pub mod Trace
use answer_service.Base.{ℕ, ◌≡◌, Bool, true, false, not, Option, none, some, List, [], ◌∷◌}
use answer_service.Errors.{Result, ok, err, raise_if, ◌>>=◌, ◌>>◌, invalid_task_transition}
use answer_service.Indexing.Values.{SourceReference, SyncStats, FailureInfo, empty_stats}
use answer_service.Indexing.Event.{
  EventBody, indexing_task_queued, indexing_started, indexing_completed, indexing_failed,
}

pub data TaskStatus : Type 0 where
  queued running succeeded failed : TaskStatus

abbrev pub is_terminal : TaskStatus → Bool
is_terminal succeeded = true
is_terminal failed = true
is_terminal _ = false

abbrev pub status_beq : TaskStatus → TaskStatus → Bool
status_beq queued queued = true
status_beq running running = true
status_beq succeeded succeeded = true
status_beq failed failed = true
status_beq _ _ = false

pub record IndexingTask : Type 0 where
  pub id : ℕ
  pub created_at : ℕ
  pub updated_at : ℕ
  pub source : SourceReference
  pub status : TaskStatus
  pub started_at : Option ℕ
  pub finished_at : Option ℕ
  pub stats : SyncStats
  pub failure : Option FailureInfo

abbrev pub Emits : Type 0
Emits = IndexingTask × List EventBody

-- `IndexingTask.queue`
unfoldable pub queue : (task_id now : ℕ) → SourceReference → Emits
queue task_id now source = (
  record {
    id = task_id;
    created_at = now;
    updated_at = now;
    source = source;
    status = queued;
    started_at = none;
    finished_at = none;
    stats = empty_stats;
    failure = none;
  },
  indexing_task_queued task_id ∷ [],
)

-- `_ensure_status`
abbrev pub ensure_status : TaskStatus → IndexingTask → Result (Unit {0})
ensure_status expected t = raise_if (not (status_beq t.status expected)) invalid_task_transition

unfoldable pub start : (now : ℕ) → IndexingTask → Result Emits
start now t = do
  ensure_status queued t
  ok (record t { status = running; started_at = some now }, indexing_started t.id ∷ [])

unfoldable pub complete : (now : ℕ) → SyncStats → IndexingTask → Result Emits
complete now stats t = do
  ensure_status running t
  ok (
    record t { status = succeeded; stats = stats; finished_at = some now },
    indexing_completed t.id stats ∷ [],
  )

unfoldable pub fail : (now : ℕ) → FailureInfo → IndexingTask → Result Emits
fail now failure t = do
  raise_if (is_terminal t.status) invalid_task_transition
  ok (
    record t { status = failed; finished_at = some now; failure = some failure },
    indexing_failed t.id failure ∷ [],
  )

unfoldable pub abandon : (now : ℕ) → FailureInfo → IndexingTask → Result Emits
unfolding fail
abandon now failure t = do ensure_status running t; fail now failure t

-- The calls that change a task.
pub data Operation : Type 0 where
  to_start : ℕ → Operation
  to_complete : ℕ → SyncStats → Operation
  to_fail : ℕ → FailureInfo → Operation
  to_abandon : ℕ → FailureInfo → Operation

unfoldable pub perform : Operation → IndexingTask → Result Emits
unfolding start complete fail abandon
perform (to_start now) t = start now t
perform (to_complete now stats) t = complete now stats t
perform (to_fail now failure) t = fail now failure t
perform (to_abandon now failure) t = abandon now failure t
