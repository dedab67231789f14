-- ===== src/Persistence/Rows/Logs.antt =====
-- The journal's rows come back from query_logs as they were.
use answer_service.Base.{◌≡◌, refl, Option, none, some, arith}
use answer_service.Base.Int.{ℤ}
use answer_service.Base.Text.{text_beq}
use answer_service.Errors.{Result, ok}
use answer_service.Analytics.Values.{
  query_text, CategoryLabel, category_label, QueryKind, search, ask, QueryStatus, succeeded, failed,
  ErrorCode, error_code, latency, QueryExecution, query_execution, QueryOutcome, query_outcome,
  QueryLog,
}
use answer_service.Persistence.Columns.{
  category_label_type, error_code_type, query_kind_value, query_kind_of, query_status_value,
  query_status_of,
}
use answer_service.Persistence.Made.{
  IsMade, query_text_again, category_label_again, error_code_again, latency_again,
}
use answer_service.Persistence.Rows.{store_log, load_log}

-- A value that may be missing comes from its constructor.
pub data IsMadeOption {V D : Type 0} (f : D → Result V) : Option V → Type 0 where
  is_none : IsMadeOption f none
  is_some : (v : V) → IsMade f v → IsMadeOption f (some v)

query_kind_of-value : (k : QueryKind) → query_kind_of (query_kind_value k) ≡ ok k
unfolding query_kind_of text_beq
query_kind_of-value search = refl
query_kind_of-value ask = refl

query_status_of-value : (s : QueryStatus) → query_status_of (query_status_value s) ≡ ok s
unfolding query_status_of text_beq
query_status_of-value succeeded = refl
query_status_of-value failed = refl

label_loads :
    (o : Option CategoryLabel)
    → IsMadeOption category_label o
    → category_label_type.process_result_value (category_label_type.process_bind_param o) ≡ ok o
label_loads none is_none = refl
label_loads (some v) (is_some _ m) = rw (category_label_again m.argument v m.accepted) refl

code_loads :
    (o : Option ErrorCode)
    → IsMadeOption error_code o
    → error_code_type.process_result_value (error_code_type.process_bind_param o) ≡ ok o
code_loads none is_none = refl
code_loads (some v) (is_some _ m) = rw (error_code_again m.argument v m.accepted) refl

abbrev pub execution_of : QueryStatus × Option ErrorCode → Result QueryExecution
execution_of a = query_execution a.0 a.1

execution_again :
    (a : QueryStatus × Option ErrorCode) (v : QueryExecution)
    → execution_of a ≡ ok v
    → query_execution v.status v.error_code ≡ ok v
unfolding query_execution
execution_again (status, code) v h = ground arith

module _ {F : Type 0} where
  abbrev pub outcome_of : ℤ × Option F → Result (QueryOutcome F)
  outcome_of a = query_outcome F a.0 a.1

  outcome_again :
      (a : ℤ × Option F) (v : QueryOutcome F)
      → outcome_of a ≡ ok v
      → query_outcome F v.results_count v.top_score ≡ ok v
  unfolding query_outcome
  outcome_again (n, top) v h = ground arith

  -- Each value of the row comes from its constructor.
  pub record IsMadeLog (l : QueryLog F) : Type 0 where
    pub content : IsMade query_text l.content
    pub took : IsMade latency l.latency
    pub outcome : IsMade outcome_of l.outcome
    pub execution : IsMade execution_of l.execution
    pub code : IsMadeOption error_code l.execution.error_code
    pub category : IsMadeOption category_label l.category

  -- A journal row all of whose values come from their constructors is stored in query_logs and
  -- loaded again as it was, its two composites, whose constructors validate, included.
  pub load_log-store_log : (l : QueryLog F) → IsMadeLog l → load_log F (store_log F l) ≡ ok l
  unfolding load_log store_log
  load_log-store_log l m =
      rw
        (
          query_text_again m.content.argument l.content m.content.accepted,
          query_kind_of-value l.kind,
          latency_again m.took.argument l.latency m.took.accepted,
          query_status_of-value l.execution.status,
          code_loads l.execution.error_code m.code,
          label_loads l.category m.category,
          outcome_again m.outcome.argument l.outcome m.outcome.accepted,
          execution_again m.execution.argument l.execution m.execution.accepted,
        )
        refl
