-- ===== src/Analytics/Values.antt =====
-- domain/analytics/value_objects and entities/query_log.py.
use answer_service.Base.{
  ℕ, ◌-◌, ◌*◌, Bool, true, false, not, ◌&&◌, Option, none, some, length, leb, ltb,
}
use answer_service.Base.Int.{ℤ, pos, negsuc, ltb_ℤ}
use answer_service.Base.Text.{Text}
use answer_service.Errors.{
  Result, ok, raise_if, ◌>>◌, negative_latency, empty_category_label, empty_error_code,
  empty_query_text, query_text_too_long, negative_results_count, invalid_period,
  inconsistent_query_execution,
}
use answer_service.Indexing.Values.{is_blank}

pub record Latency : Type 0 where
  pub milliseconds : ℤ

unfoldable pub latency : ℤ → Result Latency
latency ms = do raise_if (ltb_ℤ ms (pos 0)) negative_latency; ok (record { milliseconds = ms })

pub record CategoryLabel : Type 0 where
  pub value : Text

unfoldable pub category_label : Text → Result CategoryLabel
category_label s = do raise_if (is_blank s) empty_category_label; ok (record { value = s })

pub record ErrorCode : Type 0 where
  pub value : Text

unfoldable pub error_code : Text → Result ErrorCode
error_code s = do raise_if (is_blank s) empty_error_code; ok (record { value = s })

pub record QueryText : Type 0 where
  pub content : Text

unfoldable pub query_text : Text → Result QueryText
query_text s = do
  raise_if (is_blank s) empty_query_text
  raise_if (ltb 1024 (length s)) query_text_too_long
  ok (record { content = s })

pub data QueryKind : Type 0 where
  search ask : QueryKind

pub data QueryStatus : Type 0 where
  succeeded failed : QueryStatus

abbrev pub kind_beq : QueryKind → QueryKind → Bool
kind_beq search search = true
kind_beq ask ask = true
kind_beq _ _ = false

abbrev pub status_beq : QueryStatus → QueryStatus → Bool
status_beq succeeded succeeded = true
status_beq failed failed = true
status_beq _ _ = false

-- Times are whole numbers of microseconds.
pub record Period : Type 0 where
  pub start : ℕ
  pub end : ℕ

unfoldable pub period : (start end : ℕ) → Result Period
period start end = do
  raise_if (ltb end start) invalid_period
  ok (record { start = start; end = end })

abbrev pub microseconds_per_day : ℕ
microseconds_per_day = 86400000000

-- `Period.last_days`: a start before the epoch's first day is that day.
unfoldable pub last_days : (days now : ℕ) → Result Period
unfolding period
last_days days now = period (now - days * microseconds_per_day) now

-- `Period.contains`, and `_within` of the gateway.
unfoldable pub contains_moment : Period → ℕ → Bool
contains_moment p moment = leb p.start moment && ltb moment p.end

pub record QueryExecution : Type 0 where
  pub status : QueryStatus
  pub error_code : Option ErrorCode

abbrev pub is_failed : QueryExecution → Bool
is_failed x = status_beq x.status failed

abbrev is_none : Option ErrorCode → Bool
is_none none = true
is_none (some c) = false

unfoldable pub query_execution : QueryStatus → Option ErrorCode → Result QueryExecution
query_execution status code = do
  raise_if (status_beq status failed && is_none code) inconsistent_query_execution
  raise_if (not (status_beq status failed) && not (is_none code)) inconsistent_query_execution
  ok (record { status = status; error_code = code })

module _ (F : Type 0) where
  pub record QueryOutcome : Type 0 where
    pub results_count : ℤ
    pub top_score : Option F

  unfoldable pub query_outcome : ℤ → Option F → Result QueryOutcome
  query_outcome n top = do
    raise_if (ltb_ℤ n (pos 0)) negative_results_count
    ok (record { results_count = n; top_score = top })

  -- `QueryOutcome.is_unanswered`
  abbrev pub found_nothing : QueryOutcome → Bool
  found_nothing o = elim o.results_count [ pos n ↦ leb n 0 | negsuc n ↦ false ]

  pub record QueryLog : Type 0 where
    pub id : ℕ
    pub content : QueryText
    pub kind : QueryKind
    pub outcome : QueryOutcome
    pub latency : Latency
    pub execution : QueryExecution
    pub category : Option CategoryLabel
    pub occurred_at : ℕ

  -- `QueryLog.is_unanswered`
  unfoldable pub is_unanswered : QueryLog → Bool
  is_unanswered log = not (is_failed log.execution) && found_nothing log.outcome
