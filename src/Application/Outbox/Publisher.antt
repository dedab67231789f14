-- ===== src/Application/Outbox/Publisher.antt =====
-- infrastructure/adapters/messaging/task_scheduler_outbox_publisher.py over
-- infrastructure/task_manager/task_iq_task_scheduler.py, and the tasks that the worker registers
-- (infrastructure/task_manager/tasks).
use answer_service.Base.{
  ℕ, ◌≡◌, refl, true, not, Option, none, some, List, [], ◌∷◌, ◌++◌, contains, all, nat_beq, nat_eq,
  arith, if◌then◌else◌,
}
use answer_service.Base.Text.{Text, text, text_beq, text_eq}
use answer_service.Errors.{unregistered_task}
use answer_service.Application.Io.{Io, pure, raise, ◌>>=◌}
use answer_service.Application.Ports.{OutboxMessage}
use answer_service.Indexing.Event.{EventBody, event_type}

-- The code point of ":".
abbrev pub colon : ℕ
colon = 58

-- `make_task_id`: f"{key}:{value}"
unfoldable pub make_task_id : (key value : Text) → Text
make_task_id key value = key ++ colon ∷ value

-- `task_id.split(":")[0]`
unfoldable pub task_name : (task_id : Text) → Text
task_name [] = []
task_name (c ∷ s) = if nat_beq c colon then [] else c ∷ task_name s

-- The names under which setup_indexing_tasks, setup_projection_tasks, setup_lifecycle_tasks,
-- setup_outbox_tasks and setup_reaper_tasks register their tasks.
unfoldable pub registered_tasks : List Text
registered_tasks =
    text "IndexingTaskQueued"
    ∷ text "QAPairAdded"
    ∷ text "QAPairContentUpdated"
    ∷ text "QAPairRemoved"
    ∷ text "IndexingStarted"
    ∷ text "IndexingCompleted"
    ∷ text "IndexingFailed"
    ∷ text "relay_outbox"
    ∷ text "reap_stuck_tasks"
    ∷ []

-- `kiq` hands the task to the broker, and `show_uuid` is `str` of a UUID.
module _ {S : Type 0} (kiq : (name task_id : Text) → OutboxMessage → Io S (Unit {0}))
    (show_uuid : ℕ → Text) where
  -- `TaskIQTaskScheduler.schedule`
  unfoldable pub schedule : List Text → Text → OutboxMessage → Io S (Unit {0})
  schedule registered task_id message =
      if contains registered (task_name task_id)
      then kiq (task_name task_id) task_id message
      else raise unregistered_task

  -- `TaskSchedulerOutboxPublisher.publish`
  unfoldable pub publish_message : List Text → OutboxMessage → Io S (Unit {0})
  unfolding schedule
  publish_message registered message =
      schedule registered (make_task_id message.event_type (show_uuid message.id)) message

-- The name that the scheduler reads off a task id is the key that it was made from.
pub task_name-make_task_id :
    (key value : Text)
    → all (λ c. not (nat_beq c colon)) key ≡ true
    → task_name (make_task_id key value) ≡ key
unfolding task_name make_task_id
task_name-make_task_id [] value h = refl
task_name-make_task_id (c ∷ key) value h = ground (arith, task_name-make_task_id key value)

event_type-no_colon : (b : EventBody) → all (λ c. not (nat_beq c colon)) (event_type b) ≡ true
unfolding event_type
event_type-no_colon (EventBody.qa_pair_added i) = refl
event_type-no_colon _ = refl

event_type-registered : (b : EventBody) → contains registered_tasks (event_type b) ≡ true
unfolding event_type registered_tasks text_beq
event_type-registered (EventBody.qa_pair_added i) = refl
event_type-registered _ = refl

module _ {S : Type 0} (kiq : (name task_id : Text) → OutboxMessage → Io S (Unit {0}))
    (show_uuid : ℕ → Text) where
  -- The row of any domain event reaches the task that is registered under the event's class name:
  -- no event of the domain is refused for want of a task.
  pub publish_message-reaches_task :
      (body : EventBody) (message : OutboxMessage)
      → message.event_type ≡ event_type body
      → publish_message kiq show_uuid registered_tasks message
        ≡ kiq (event_type body) (make_task_id (event_type body) (show_uuid message.id)) message
  unfolding publish_message
  publish_message-reaches_task body message e =
      let name =
        task_name-make_task_id (event_type body) (show_uuid message.id)
          (event_type-no_colon body) in
      rw (e, name, event_type-registered body) refl

-- TaskInfoStatus
pub data TaskInfoStatus : Type 0 where
  success failure started retrying processing : TaskInfoStatus

-- A state of the broker's result backend: one of taskiq's own, or another text.
pub data ProgressState : Type 0 where
  state_started state_failure state_success state_retry other_state : ProgressState

pub record TaskInfo : Type 0 where
  pub task_id : Text
  pub status : TaskInfoStatus
  pub description : Text

-- `TASK_STATUSES.get(state, TaskInfoStatus.STARTED)`
unfoldable pub task_status : ProgressState → TaskInfoStatus
task_status state_started = started
task_status state_failure = failure
task_status state_success = success
task_status state_retry = retrying
task_status other_state = started

abbrev or_empty : Option Text → Text
or_empty none = []
or_empty (some meta) = meta

module _ {S : Type 0} (get_progress : Text → Io S (Option (ProgressState × Option Text))) where
  info_of : Text → Option (ProgressState × Option Text) → Option TaskInfo
  unfolding task_status
  info_of task_id none = none
  info_of task_id (some (state, meta)) =
      some (record { task_id = task_id; status = task_status state; description = or_empty meta })

  -- `TaskIQTaskScheduler.read_task_info`
  unfoldable pub read_task_info : Text → Io S (Option TaskInfo)
  unfolding info_of
  read_task_info task_id = do progress ← get_progress task_id; pure (info_of task_id progress)
