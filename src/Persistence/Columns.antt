-- ===== src/Persistence/Columns.antt =====
-- infrastructure/persistence/models/types.py: the column types. `process_bind_param` makes what a
-- column stores of a value and `process_result_value` a value of what a column holds; `none` is None
-- on the one side and NULL on the other.
use answer_service.Base.{Option, none, some, [], ◌∷◌, if◌then◌else◌}
use answer_service.Base.Int.{ℤ}
use answer_service.Base.Text.{Text, text, text_beq, text_eq}
use answer_service.Base.Dict.{Dict, get}
use answer_service.Errors.{Result, ok, err, foreign, result_map, ◌>>=◌}
use answer_service.Indexing.Values.{
  ExternalId, external_id, Question, question, Answer, answer, Category, category, SourceReference,
  source_reference, SyncStats, sync_stats, FailureInfo, failure_info,
}
use answer_service.Indexing.Task.{TaskStatus, queued, running, succeeded, failed}
use answer_service.Analytics.Values.{
  QueryText, query_text, CategoryLabel, category_label, QueryKind, search, ask, QueryStatus,
  ErrorCode, error_code, Latency, latency,
}
use answer_service.Analytics.Values as V

-- TypeDecorator, with the value's type and what the database keeps for it.
pub record TypeDecorator (V D : Type 0) : Type 0 where
  pub process_bind_param : Option V → Option D
  pub process_result_value : Option D → Result (Option V)

module _ {V D : Type 0} where
  -- `f(value) if value is not None else None`
  abbrev pub bind_some : (V → D) → Option V → Option D
  bind_some f none = none
  bind_some f (some v) = some (f v)

  -- The same, where `f` is a constructor that validates.
  abbrev pub load_some : (D → Result V) → Option D → Result (Option V)
  load_some f none = ok none
  load_some f (some d) = result_map some (f d)

  -- The two methods of a column type.
  abbrev pub decorator : (V → D) → (D → Result V) → TypeDecorator V D
  decorator f g = record { process_bind_param = bind_some f; process_result_value = load_some g }

abbrev pub external_id_type : TypeDecorator ExternalId Text
external_id_type = decorator (λ v. v.value) external_id

abbrev pub question_type : TypeDecorator Question Text
question_type = decorator (λ v. v.content) question

abbrev pub answer_type : TypeDecorator Answer Text
answer_type = decorator (λ v. v.content) answer

abbrev pub category_type : TypeDecorator Category Text
category_type = decorator (λ v. v.value) category

abbrev pub source_reference_type : TypeDecorator SourceReference Text
source_reference_type = decorator (λ v. v.value) source_reference

-- `value["k"]` of a JSON object: a KeyError where the key is missing.
abbrev found {ℓ} : {A : Type ℓ} → Option A → Result A
found none = err foreign
found (some a) = ok a

abbrev pub item : {A : Type 0} → Dict Text A → Text → Result A
item d k = found (get d k)

abbrev pub stats_to_json : SyncStats → Dict Text ℤ
stats_to_json s =
    (text "created", s.created)
    ∷ (text "updated", s.updated)
    ∷ (text "deleted", s.deleted)
    ∷ (text "skipped", s.skipped)
    ∷ []

abbrev pub stats_from_json : Dict Text ℤ → Result SyncStats
stats_from_json d = do
  created ← item d (text "created")
  updated ← item d (text "updated")
  deleted ← item d (text "deleted")
  skipped ← item d (text "skipped")
  sync_stats created updated deleted skipped

abbrev pub sync_stats_type : TypeDecorator SyncStats (Dict Text ℤ)
sync_stats_type = decorator stats_to_json stats_from_json

abbrev pub failure_to_json : FailureInfo → Dict Text Text
failure_to_json f = (text "code", f.code) ∷ (text "message", f.message) ∷ []

abbrev pub failure_from_json : Dict Text Text → Result FailureInfo
failure_from_json d = do
  code ← item d (text "code")
  message ← item d (text "message")
  failure_info code message

abbrev pub failure_info_type : TypeDecorator FailureInfo (Dict Text Text)
failure_info_type = decorator failure_to_json failure_from_json

-- IndexingTaskStatus: the lower-case names, and the member of a value, ValueError for no member's.
abbrev pub task_status_value : TaskStatus → Text
task_status_value queued = text "queued"
task_status_value running = text "running"
task_status_value succeeded = text "succeeded"
task_status_value failed = text "failed"

unfoldable pub task_status_of : Text → Result TaskStatus
task_status_of s =
    if text_beq s (text "queued")
    then ok queued
    else if text_beq s (text "running")
    then ok running
    else if text_beq s (text "succeeded")
    then ok succeeded
    else if text_beq s (text "failed")
    then ok failed
    else err foreign

abbrev pub indexing_task_status_type : TypeDecorator TaskStatus Text
indexing_task_status_type = decorator task_status_value task_status_of

abbrev pub query_text_type : TypeDecorator QueryText Text
query_text_type = decorator (λ v. v.content) query_text

abbrev pub category_label_type : TypeDecorator CategoryLabel Text
category_label_type = decorator (λ v. v.value) category_label

abbrev pub query_kind_value : QueryKind → Text
query_kind_value search = text "search"
query_kind_value ask = text "ask"

unfoldable pub query_kind_of : Text → Result QueryKind
query_kind_of s =
    if text_beq s (text "search")
    then ok search
    else if text_beq s (text "ask")
    then ok ask
    else err foreign

abbrev pub query_kind_type : TypeDecorator QueryKind Text
query_kind_type = decorator query_kind_value query_kind_of

abbrev pub query_status_value : QueryStatus → Text
query_status_value V.succeeded = text "succeeded"
query_status_value V.failed = text "failed"

unfoldable pub query_status_of : Text → Result QueryStatus
query_status_of s =
    if text_beq s (text "succeeded")
    then ok V.succeeded
    else if text_beq s (text "failed")
    then ok V.failed
    else err foreign

abbrev pub query_status_type : TypeDecorator QueryStatus Text
query_status_type = decorator query_status_value query_status_of

abbrev pub error_code_type : TypeDecorator ErrorCode Text
error_code_type = decorator (λ v. v.value) error_code

abbrev pub latency_type : TypeDecorator Latency ℤ
latency_type = decorator (λ v. v.milliseconds) latency
