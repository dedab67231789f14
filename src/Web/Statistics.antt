-- ===== src/Web/Statistics.antt =====
-- routes/statistics: handlers.py and schemas.py of the three reports. `ratio` is the division of the
-- share of unanswered queries.
pub mod Page
use answer_service.Base.{
  ℕ, ◌+◌, ◌*◌, Bool, not, ◌&&◌, Option, none, some, List, [], ◌∷◌, map, length, if◌then◌else◌,
  nat_beq,
}
use answer_service.Base.Int.{ℤ, pos, pos_part, ltb_ℤ}
use answer_service.Base.Text.{Text}
use answer_service.Base.Dict.{Dict}
use answer_service.Errors.{Result, ok}
use answer_service.Application.Io.{Io, pure, lift, ◌>>=◌}
use answer_service.Database.Catalog.{CatalogStatistics}
use answer_service.Persistence.Columns.{query_kind_value, query_status_value}
use answer_service.Analytics.Values.{Period, last_days, QueryKind, QueryStatus}
use answer_service.Analytics.Reports.{pagination, SortingOrder}
use answer_service.Analytics.Reports as R
use answer_service.Analytics.Frequencies.{QueryFrequency}
use answer_service.Analytics.Frequencies.Totals.{total_occurrences}
use answer_service.Analytics.Entries.{QueryLogEntry}
use answer_service.Analytics.Queries.{
  QueryStatistics, answered, ReportPorts, StatisticsResponse, UnansweredQueriesResponse,
  ListQueryLogsResponse, get_statistics, list_unanswered_queries, list_query_logs,
}
use answer_service.Web.Replies.{Reply, validated}

-- The query parameters of the listings; those left out have the defaults of the handlers.
pub record ListingParams : Type 0 where
  pub days : ℤ
  pub kind : Option QueryKind
  pub query_status : Option QueryStatus
  pub limit : ℤ
  pub offset : ℤ
  pub sorting_order : SortingOrder

abbrev pub default_params : ListingParams
default_params = record {
  days = pos 30;
  kind = none;
  query_status = none;
  limit = pos 20;
  offset = pos 0;
  sorting_order = R.desc;
}

abbrev between : (low high n : ℤ) → Bool
between low high n = not (ltb_ℤ n low) && not (ltb_ℤ high n)

-- `ge` and `le` of `days`, `limit` and `offset`.
unfoldable pub accepts : ListingParams → Bool
accepts p =
    between (pos 1) (pos 365) p.days
    && between (pos 1) (pos 200) p.limit
    && not (ltb_ℤ p.offset (pos 0))

abbrev pub accepted : ListingParams → Option ListingParams
accepted p = if accepts p then some p else none

-- QueryFrequencySchema
pub record QueryFrequencySchema : Type 0 where
  pub content : Text
  pub occurrences : ℕ

-- `QueryFrequencySchema.of`
abbrev pub frequency_schema : QueryFrequency → QueryFrequencySchema
frequency_schema f = record { content = f.content; occurrences = f.occurrences }

-- CatalogStatisticsSchema
pub record CatalogStatisticsSchema : Type 0 where
  pub total_pairs : ℕ
  pub category_count : ℕ
  pub pairs_per_category : Dict Text ℕ

-- UnansweredQueriesSchemaResponse
pub record UnansweredQueriesSchemaResponse : Type 0 where
  pub period_start : ℕ
  pub period_end : ℕ
  pub total_occurrences : ℕ
  pub queries : List QueryFrequencySchema

-- `UnansweredQueriesSchemaResponse.of`
unfoldable pub unanswered_schema : UnansweredQueriesResponse → UnansweredQueriesSchemaResponse
unanswered_schema response = record {
  period_start = response.period.start;
  period_end = response.period.end;
  total_occurrences = total_occurrences response.queries;
  queries = map frequency_schema response.queries;
}

module _ (F : Type 0) where
  -- QueryStatisticsSchema
  pub record QueryStatisticsSchema : Type 0 where
    pub total : ℕ
    pub answered : ℕ
    pub unanswered : ℕ
    pub unanswered_rate : F
    pub average_latency_ms : F

  -- StatisticsSchemaResponse
  pub record StatisticsSchemaResponse : Type 0 where
    pub period_start : ℕ
    pub period_end : ℕ
    pub catalog : CatalogStatisticsSchema
    pub queries : QueryStatisticsSchema
    pub popular_queries : List QueryFrequencySchema

  -- QueryLogEntrySchema
  pub record QueryLogEntrySchema : Type 0 where
    pub request_id : ℕ
    pub kind : Text
    pub query : Text
    pub occurred_at : ℕ
    pub duration_ms : ℤ
    pub results_count : ℤ
    pub top_score : Option F
    pub status : Text
    pub error_code : Option Text
    pub category : Option Text

  -- QueryLogsSchemaResponse
  pub record QueryLogsSchemaResponse : Type 0 where
    pub period_start : ℕ
    pub period_end : ℕ
    pub total : ℕ
    pub entries : List QueryLogEntrySchema

module _ {F : Type 0} where
  -- `QueryLogEntrySchema.of`
  unfoldable pub entry_schema : QueryLogEntry F → QueryLogEntrySchema F
  entry_schema entry = record {
    request_id = entry.request_id;
    kind = query_kind_value entry.kind;
    query = entry.content;
    occurred_at = entry.occurred_at;
    duration_ms = entry.latency_ms;
    results_count = entry.results_count;
    top_score = entry.top_score;
    status = query_status_value entry.status;
    error_code = entry.error_code;
    category = entry.category;
  }

  -- `QueryLogsSchemaResponse.of`
  unfoldable pub query_logs_schema :
      ListQueryLogsResponse (QueryLogEntry F) → QueryLogsSchemaResponse F
  unfolding entry_schema
  query_logs_schema response = record {
    period_start = response.period.start;
    period_end = response.period.end;
    total = response.total;
    entries = map entry_schema response.entries;
  }

module _ {S F : Type 0} (zero_rate : F) (ratio : ℕ → ℕ → F) (now : S → ℕ × S)
    (ports : ReportPorts S F (QueryLogEntry F)) where
  -- `QueryStatistics.unanswered_rate`
  unfoldable pub unanswered_rate : QueryStatistics F → F
  unanswered_rate s = if nat_beq s.total 0 then zero_rate else ratio s.unanswered s.total

  -- `StatisticsSchemaResponse.of`
  unfoldable pub statistics_schema : StatisticsResponse F → StatisticsSchemaResponse F
  unfolding unanswered_rate answered
  statistics_schema response = record {
    period_start = response.period.start;
    period_end = response.period.end;
    catalog = record {
      total_pairs = response.catalog.total_pairs;
      category_count = length response.catalog.pairs_per_category;
      pairs_per_category = response.catalog.pairs_per_category;
    };
    queries = record {
      total = response.queries.total;
      answered = answered response.queries;
      unanswered = response.queries.unanswered;
      unanswered_rate = unanswered_rate response.queries;
      average_latency_ms = response.queries.average_latency_ms;
    };
    popular_queries = map frequency_schema response.popular_queries;
  }

  -- `Period.last_days(days)`, of the clock.
  abbrev pub period_of : (days : ℤ) → Io S Period
  period_of days s = (last_days (pos_part days) (now s).0, (now s).1)

  -- `get_statistics_handler`
  unfoldable pub statistics_handler : (days : ℤ) → Io S (StatisticsSchemaResponse F)
  unfolding get_statistics statistics_schema pagination
  statistics_handler days = do
    period ← period_of days
    popular ← lift (pagination (some (pos 10)) none)
    response ← get_statistics ports period popular R.desc
    pure (statistics_schema response)

  -- GET /api/v1/statistics
  unfoldable pub get_statistics_reply : (days : ℤ) → S → Reply (StatisticsSchemaResponse F) × S
  unfolding statistics_handler
  get_statistics_reply days =
      validated 200 (if between (pos 1) (pos 365) days then some days else none) statistics_handler

  -- `list_unanswered_queries_handler`
  unfoldable pub unanswered_handler : ListingParams → Io S UnansweredQueriesSchemaResponse
  unfolding list_unanswered_queries unanswered_schema pagination
  unanswered_handler p = do
    period ← period_of p.days
    page ← lift (pagination (some p.limit) (some p.offset))
    response ← list_unanswered_queries ports period page p.sorting_order
    pure (unanswered_schema response)

  -- GET /api/v1/statistics/unanswered
  unfoldable pub get_unanswered : ListingParams → S → Reply UnansweredQueriesSchemaResponse × S
  unfolding unanswered_handler
  get_unanswered p = validated 200 (accepted p) unanswered_handler

  -- `list_query_logs_handler`
  unfoldable pub query_logs_handler : ListingParams → Io S (QueryLogsSchemaResponse F)
  unfolding list_query_logs query_logs_schema pagination
  query_logs_handler p = do
    period ← period_of p.days
    page ← lift (pagination (some p.limit) (some p.offset))
    response ← list_query_logs ports period p.kind p.query_status page p.sorting_order
    pure (query_logs_schema response)

  -- GET /api/v1/statistics/queries
  unfoldable pub get_query_logs : ListingParams → S → Reply (QueryLogsSchemaResponse F) × S
  unfolding query_logs_handler
  get_query_logs p = validated 200 (accepted p) query_logs_handler
