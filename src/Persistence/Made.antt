-- ===== src/Persistence/Made.antt =====
-- Values that their constructor has accepted: it accepts them again when a column is read back.
use answer_service.Base.{◌≡◌, arith}
use answer_service.Base.Int.{ℤ}
use answer_service.Base.Text.{Text}
use answer_service.Errors.{Result, ok}
use answer_service.Indexing.Values.{
  ExternalId, external_id, Question, question, Answer, answer, Category, category, SourceReference,
  source_reference, SyncStats, sync_stats, FailureInfo, failure_info,
}
use answer_service.Analytics.Values.{
  QueryText, query_text, CategoryLabel, category_label, ErrorCode, error_code, Latency, latency,
}

-- A call of the constructor `f` has returned `v`.
pub record IsMade {V D : Type 0} (f : D → Result V) (v : V) : Type 0 where
  pub argument : D
  pub accepted : f argument ≡ ok v

-- The constructors of several arguments, of a tuple.
abbrev pub stats_of : ℤ × ℤ × ℤ × ℤ → Result SyncStats
stats_of a = sync_stats a.0 a.1 a.2 a.3

abbrev pub failure_of : Text × Text → Result FailureInfo
failure_of a = failure_info a.0 a.1

pub external_id_again :
    (s : Text) (v : ExternalId) → external_id s ≡ ok v → external_id v.value ≡ ok v
unfolding external_id
external_id_again s v h = ground arith

pub question_again : (s : Text) (v : Question) → question s ≡ ok v → question v.content ≡ ok v
unfolding question
question_again s v h = ground arith

pub answer_again : (s : Text) (v : Answer) → answer s ≡ ok v → answer v.content ≡ ok v
unfolding answer
answer_again s v h = ground arith

pub category_again : (s : Text) (v : Category) → category s ≡ ok v → category v.value ≡ ok v
unfolding category
category_again s v h = ground arith

pub source_reference_again :
    (s : Text) (v : SourceReference) → source_reference s ≡ ok v → source_reference v.value ≡ ok v
unfolding source_reference
source_reference_again s v h = ground arith

pub sync_stats_again :
    (a : ℤ × ℤ × ℤ × ℤ) (v : SyncStats)
    → stats_of a ≡ ok v
    → sync_stats v.created v.updated v.deleted v.skipped ≡ ok v
unfolding sync_stats
sync_stats_again (c, u, d, s) v h = ground arith

pub failure_info_again :
    (a : Text × Text) (v : FailureInfo) → failure_of a ≡ ok v → failure_info v.code v.message ≡ ok v
unfolding failure_info
failure_info_again (c, m) v h = ground arith

pub query_text_again :
    (s : Text) (v : QueryText) → query_text s ≡ ok v → query_text v.content ≡ ok v
unfolding query_text
query_text_again s v h = ground arith

pub category_label_again :
    (s : Text) (v : CategoryLabel) → category_label s ≡ ok v → category_label v.value ≡ ok v
unfolding category_label
category_label_again s v h = ground arith

pub error_code_again : (s : Text) (v : ErrorCode) → error_code s ≡ ok v → error_code v.value ≡ ok v
unfolding error_code
error_code_again s v h = ground arith

pub latency_again : (n : ℤ) (v : Latency) → latency n ≡ ok v → latency v.milliseconds ≡ ok v
unfolding latency
latency_again n v h = ground arith
