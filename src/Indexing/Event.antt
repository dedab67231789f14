-- ===== src/Indexing/Event.antt =====
-- domain/indexing/events.py and domain/common/event.py: the domain events. `event_id` and
-- `event_date` are stamped by the serializer, once.
use answer_service.Base.{ℕ, Option, none, some}
use answer_service.Base.Text.{Text, text}
use answer_service.Indexing.Values.{ExternalId, SyncStats, FailureInfo}

pub data EventBody : Type 0 where
  qa_pair_added : ExternalId → EventBody
  qa_pair_content_updated : ExternalId → EventBody
  qa_pair_removed : ExternalId → EventBody
  indexing_task_queued : ℕ → EventBody
  indexing_started : ℕ → EventBody
  indexing_completed : ℕ → SyncStats → EventBody
  indexing_failed : ℕ → FailureInfo → EventBody

pub record Event : Type 0 where
  pub event_id : Option ℕ
  pub event_date : Option ℕ
  pub body : EventBody

-- A new event: both stamps have `init=False` and start as `None`.
abbrev pub event : EventBody → Event
event b = record { event_id = none; event_date = none; body = b }

-- `Event.event_type`: the class name.
unfoldable pub event_type : EventBody → Text
event_type (qa_pair_added _) = text "QAPairAdded"
event_type (qa_pair_content_updated _) = text "QAPairContentUpdated"
event_type (qa_pair_removed _) = text "QAPairRemoved"
event_type (indexing_task_queued _) = text "IndexingTaskQueued"
event_type (indexing_started _) = text "IndexingStarted"
event_type (indexing_completed _ _) = text "IndexingCompleted"
event_type (indexing_failed _ _) = text "IndexingFailed"

or_keep : Option ℕ → ℕ → Option ℕ
or_keep (some old) new = some old
or_keep none new = some new

-- `set_event_id` and `set_event_date`: write-once.
unfoldable pub set_event_id : ℕ → Event → Event
unfolding or_keep
set_event_id i e = record e { event_id = or_keep e.event_id i }

unfoldable pub set_event_date : ℕ → Event → Event
unfolding or_keep
set_event_date d e = record e { event_date = or_keep e.event_date d }
