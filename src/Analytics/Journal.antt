-- ===== src/Analytics/Journal.antt =====
-- application/pipelines/query_recording_pipeline.py: each served query leaves one journal row, and the
-- journal must not change what the caller sees.
pub mod Transparent
pub mod Rows
pub mod Served
use answer_service.Base.{ℕ, Bool, true, false, Option, none, some, List}
use answer_service.Base.Int.{ℤ, pos}
use answer_service.Base.Text.{Text}
use answer_service.Errors.{Error, Result, ok, err, result_map}
use answer_service.Errors as E
use answer_service.Application.Io.{Io, pure, raise, lift, try_app_error, ◌>>=◌, ◌>>◌}
use answer_service.Application.Ports.{TransactionManager}
use answer_service.Analytics.Values.{
  Latency, latency, CategoryLabel, category_label, ErrorCode, error_code, QueryText, query_text,
  QueryKind, QueryStatus, succeeded, failed, QueryExecution, query_execution, QueryOutcome,
  query_outcome, QueryLog,
}

-- RecordableQuery: what a request tells the journal.
pub record RecordableQuery : Type 0 where
  pub request_id : ℕ
  pub journalled_text : Text
  pub journalled_kind : QueryKind
  pub journalled_category : Option Text

-- The clocks and the gateway; `elapsed_ms` is `_elapsed_ms` of a start read from `perf_counter`.
pub record JournalPorts (S F : Type 0) : Type 0 where
  pub now : S → ℕ × S
  pub perf_counter : S → ℕ × S
  pub elapsed_ms : (started_at : ℕ) → S → ℤ × S
  pub add : QueryLog F → Io S (Unit {0})

module _ {S F : Type 0} (ports : JournalPorts S F) (manager : TransactionManager S) where
  read : {A : Type 0} → (S → A × S) → Io S A
  read f s = (ok (f s).0, (f s).1)

  -- The value objects of the row, in the order in which the call builds them.
  record LogParts : Type 0 where
    content : QueryText
    took : Latency
    category : Option CategoryLabel

  label_of : Option Text → Result (Option CategoryLabel)
  unfolding category_label
  label_of none = ok none
  label_of (some s) = result_map some (category_label s)

  parts_of : RecordableQuery → ℤ → Result LogParts
  unfolding label_of query_text latency
  parts_of request latency_ms = E.◌>>=◌ (query_text request.journalled_text) (λ content.
      E.◌>>=◌ (latency latency_ms) (λ took.
        E.◌>>=◌ (label_of request.journalled_category)
          (λ category. ok (record { content = content; took = took; category = category }))))

  -- `QueryLogFactory.create`
  new_log : RecordableQuery → QueryOutcome F → QueryExecution → LogParts → ℕ → QueryLog F
  new_log request outcome execution parts now = record {
    id = request.request_id;
    content = parts.content;
    kind = request.journalled_kind;
    outcome = outcome;
    latency = parts.took;
    execution = execution;
    category = parts.category;
    occurred_at = now;
  }

  store_log : QueryLog F → Io S (Unit {0})
  store_log log = ports.add log >> manager.commit

  -- The `try` block of `_write`.
  write_log : RecordableQuery → QueryOutcome F → QueryExecution → ℤ → Io S (Unit {0})
  unfolding parts_of new_log store_log read
  write_log request outcome execution latency_ms = do
    parts ← lift (parts_of request latency_ms)
    now ← read ports.now
    store_log (new_log request outcome execution parts now)

  -- `_write`
  unfoldable pub write : RecordableQuery → QueryOutcome F → QueryExecution → ℤ → Io S (Unit {0})
  unfolding write_log
  write request outcome execution latency_ms =
      try_app_error (write_log request outcome execution latency_ms) (λ e. manager.rollback)

  module _ {Response : Type 0} (results_count : Response → ℤ) (top_score : Response → Option F)
      (type_name : Error → Text) where
    -- `_record`
    unfoldable pub record_success : RecordableQuery → Response → ℤ → Io S (Unit {0})
    unfolding write query_outcome query_execution
    record_success request response latency_ms = do
      outcome ← lift (query_outcome F (results_count response) (top_score response))
      execution ← lift (query_execution succeeded none)
      write request outcome execution latency_ms

    -- `_record_failure`
    unfoldable pub record_failure : RecordableQuery → Error → ℤ → Io S (Unit {0})
    unfolding write query_outcome query_execution error_code
    record_failure request error latency_ms = do
      outcome ← lift (query_outcome F (pos 0) none)
      code ← lift (error_code (type_name error))
      execution ← lift (query_execution failed (some code))
      write request outcome execution latency_ms

    on_failure : RecordableQuery → ℕ → Error → Io S Response
    unfolding record_failure read
    on_failure request started_at error = do
      elapsed ← read (ports.elapsed_ms started_at)
      record_failure request error elapsed >> raise error

    on_success : RecordableQuery → ℕ → Response → Io S Response
    unfolding record_success read
    on_success request started_at response = do
      elapsed ← read (ports.elapsed_ms started_at)
      record_success request response elapsed >> pure response

    -- `QueryRecordingPipeline.handle`
    unfoldable pub record_query :
        (RecordableQuery → Io S Response) → RecordableQuery → Io S Response
    unfolding on_failure on_success read
    record_query handle_next request = do
      started_at ← read ports.perf_counter
      response ← try_app_error (handle_next request) (λ e. on_failure request started_at e)
      on_success request started_at response
