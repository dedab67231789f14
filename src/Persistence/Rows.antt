-- ===== src/Persistence/Rows.antt =====
-- infrastructure/persistence/models/{indexing_task,qa_pair,query_log}.py: the imperative mappings, an
-- object to its row and back. A `nullable=False` column holds a value; the model reads NULL there as
-- a failure outside the service's hierarchy. The id and the moments are columns of their own types.
-- `created_at` and `updated_at` of the journal, which the model of QueryLog leaves out, are left out.
pub mod RoundTrip
pub mod Pairs
pub mod Logs
use answer_service.Base.{ℕ, Option, none, some}
use answer_service.Base.Int.{ℤ}
use answer_service.Base.Text.{Text}
use answer_service.Base.Dict.{Dict}
use answer_service.Errors.{Result, ok, err, foreign, ◌>>=◌}
use answer_service.Indexing.Task.{IndexingTask}
use answer_service.Indexing.Pair.{QaPair}
use answer_service.Analytics.Values.{QueryLog, query_outcome, query_execution}
use answer_service.Persistence.Columns.{
  TypeDecorator, external_id_type, question_type, answer_type, category_type, source_reference_type,
  sync_stats_type, failure_info_type, indexing_task_status_type, query_text_type,
  category_label_type, query_kind_type, query_status_type, error_code_type, latency_type,
}

abbrev not_null : {V : Type 0} → Option V → Result V
not_null none = err foreign
not_null (some v) = ok v

module _ {V D : Type 0} (column : TypeDecorator V D) where
  abbrev store : V → Option D
  store v = column.process_bind_param (some v)

  abbrev load : Option D → Result V
  load d = column.process_result_value d >>= not_null

pub record IndexingTaskRow : Type 0 where
  pub id : ℕ
  pub source : Option Text
  pub status : Option Text
  pub started_at : Option ℕ
  pub finished_at : Option ℕ
  pub stats : Option (Dict Text ℤ)
  pub failure : Option (Dict Text Text)
  pub created_at : ℕ
  pub updated_at : ℕ

unfoldable pub store_task : IndexingTask → IndexingTaskRow
store_task t = record {
  id = t.id;
  source = store source_reference_type t.source;
  status = store indexing_task_status_type t.status;
  started_at = t.started_at;
  finished_at = t.finished_at;
  stats = store sync_stats_type t.stats;
  failure = failure_info_type.process_bind_param t.failure;
  created_at = t.created_at;
  updated_at = t.updated_at;
}

unfoldable pub load_task : IndexingTaskRow → Result IndexingTask
load_task r = do
  source ← load source_reference_type r.source
  status ← load indexing_task_status_type r.status
  stats ← load sync_stats_type r.stats
  failure ← failure_info_type.process_result_value r.failure
  ok (record {
    id = r.id;
    created_at = r.created_at;
    updated_at = r.updated_at;
    source = source;
    status = status;
    started_at = r.started_at;
    finished_at = r.finished_at;
    stats = stats;
    failure = failure;
  })

pub record QaPairRow : Type 0 where
  pub external_id : Option Text
  pub question : Option Text
  pub answer : Option Text
  pub category : Option Text
  pub source_updated_at : ℕ
  pub created_at : ℕ
  pub updated_at : ℕ

unfoldable pub store_pair : QaPair → QaPairRow
store_pair p = record {
  external_id = store external_id_type p.id;
  question = store question_type p.content.question;
  answer = store answer_type p.content.answer;
  category = store category_type p.content.category;
  source_updated_at = p.source_updated_at;
  created_at = p.created_at;
  updated_at = p.updated_at;
}

-- `content` is the composite of three columns.
unfoldable pub load_pair : QaPairRow → Result QaPair
load_pair r = do
  external_id ← load external_id_type r.external_id
  question ← load question_type r.question
  answer ← load answer_type r.answer
  category ← load category_type r.category
  ok (record {
    id = external_id;
    created_at = r.created_at;
    updated_at = r.updated_at;
    content = record { question = question; answer = answer; category = category };
    source_updated_at = r.source_updated_at;
  })

module _ (F : Type 0) where
  pub record QueryLogRow : Type 0 where
    pub id : ℕ
    pub content : Option Text
    pub kind : Option Text
    pub results_count : ℤ
    pub top_score : Option F
    pub latency_ms : Option ℤ
    pub status : Option Text
    pub error_code : Option Text
    pub category : Option Text
    pub occurred_at : ℕ

  unfoldable pub store_log : QueryLog F → QueryLogRow
  store_log l = record {
    id = l.id;
    content = store query_text_type l.content;
    kind = store query_kind_type l.kind;
    results_count = l.outcome.results_count;
    top_score = l.outcome.top_score;
    latency_ms = store latency_type l.latency;
    status = store query_status_type l.execution.status;
    error_code = error_code_type.process_bind_param l.execution.error_code;
    category = category_label_type.process_bind_param l.category;
    occurred_at = l.occurred_at;
  }

  -- `outcome` and `execution` are composites: loading calls their constructors, which validate.
  unfoldable pub load_log : QueryLogRow → Result (QueryLog F)
  load_log r = do
    content ← load query_text_type r.content
    kind ← load query_kind_type r.kind
    took ← load latency_type r.latency_ms
    status ← load query_status_type r.status
    code ← error_code_type.process_result_value r.error_code
    category ← category_label_type.process_result_value r.category
    outcome ← query_outcome F r.results_count r.top_score
    execution ← query_execution status code
    ok (record {
      id = r.id;
      content = content;
      kind = kind;
      outcome = outcome;
      latency = took;
      execution = execution;
      category = category;
      occurred_at = r.occurred_at;
    })
