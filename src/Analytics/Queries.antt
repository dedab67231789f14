-- ===== src/Analytics/Queries.antt =====
-- application/queries/analytics: the three handlers over the gateways. The averages are floats of a
-- type `F` that the database computes.
use answer_service.Base.{ℕ, ◌≡◌, refl, ◌-◌, Bool, true, false, Option, none, some, List}
use answer_service.Base.Int.{ℤ, pos, ltb_ℤ}
use answer_service.Errors.{pagination_error}
use answer_service.Application.Io.{Io, pure, raise, ◌>>=◌, ◌>>◌}
use answer_service.Analytics.Values.{Period, QueryKind, QueryStatus}
use answer_service.Analytics.Reports.{Pagination, SortingOrder, QueryLogFilters}
use answer_service.Analytics.Frequencies.{QueryFrequency}
use answer_service.Database.Catalog.{CatalogStatistics}

-- ports/gateways/analytics_query_gateway.py
pub record QueryStatistics (F : Type 0) : Type 0 where
  pub total : ℕ
  pub unanswered : ℕ
  pub average_latency_ms : F

-- `QueryStatistics.answered`; a count of some of the rows is at most that of all.
unfoldable pub answered : {F : Type 0} → QueryStatistics F → ℕ
answered s = s.total - s.unanswered

-- AnalyticsQueryGateway, with QACatalogQueryGateway's `read_statistics`; `E` is QueryLogEntry.
pub record ReportPorts (S F E : Type 0) : Type 0 where
  pub read_catalog_statistics : Io S CatalogStatistics
  pub read_statistics : Period → Io S (QueryStatistics F)
  pub read_unanswered_queries : Period → Pagination → SortingOrder → Io S (List QueryFrequency)
  pub read_popular_queries : Period → Pagination → SortingOrder → Io S (List QueryFrequency)
  pub read_query_logs : QueryLogFilters → Pagination → SortingOrder → Io S (List E)
  pub count_query_logs : QueryLogFilters → Io S ℕ

pub record StatisticsResponse (F : Type 0) : Type 0 where
  pub period : Period
  pub catalog : CatalogStatistics
  pub queries : QueryStatistics F
  pub popular_queries : List QueryFrequency

pub record UnansweredQueriesResponse : Type 0 where
  pub period : Period
  pub queries : List QueryFrequency

pub record ListQueryLogsResponse (E : Type 0) : Type 0 where
  pub period : Period
  pub entries : List E
  pub total : ℕ

abbrev pub max_limit : ℤ
max_limit = pos 200

-- `limit is not None and limit > MAX_LIMIT`
abbrev pub is_over_limit : Option ℤ → Bool
is_over_limit none = false
is_over_limit (some n) = ltb_ℤ max_limit n

module _ {S F E : Type 0} (ports : ReportPorts S F E) where
  -- `GetStatisticsHandler.handle`
  unfoldable pub get_statistics :
      (period : Period) (popular : Pagination) (order : SortingOrder) → Io S (StatisticsResponse F)
  get_statistics period popular order = do
    catalog ← ports.read_catalog_statistics
    queries ← ports.read_statistics period
    popular_queries ← ports.read_popular_queries period popular order
    pure (record {
      period = period;
      catalog = catalog;
      queries = queries;
      popular_queries = popular_queries;
    })

  -- The `if` with its `raise` of the two listings.
  reject_if : Bool → Io S (Unit {0})
  reject_if true = raise pagination_error
  reject_if false = pure tt

  reject_over_limit : Pagination → Io S (Unit {0})
  unfolding reject_if
  reject_over_limit page = reject_if (is_over_limit page.limit)

  -- `ListUnansweredQueriesHandler.handle`
  unfoldable pub list_unanswered_queries :
      (period : Period) (page : Pagination) (order : SortingOrder) → Io S UnansweredQueriesResponse
  unfolding reject_over_limit
  list_unanswered_queries period page order = reject_over_limit page >> (do
    queries ← ports.read_unanswered_queries period page order
    pure (record { period = period; queries = queries }))

  -- `ListQueryLogsHandler.handle`
  unfoldable pub list_query_logs :
      (period : Period) (kind : Option QueryKind) (status : Option QueryStatus) (page : Pagination)
      (order : SortingOrder)
      → Io S (ListQueryLogsResponse E)
  unfolding reject_over_limit
  list_query_logs period kind status page order = reject_over_limit page >> (do
    entries ←
        ports.read_query_logs (record { period = period; kind = kind; status = status }) page order
    total ← ports.count_query_logs (record { period = period; kind = kind; status = status })
    pure (record { period = period; entries = entries; total = total }))

  -- A page within the limit is read and counted.
  pub list_query_logs-within :
      (period : Period) (kind : Option QueryKind) (status : Option QueryStatus) (page : Pagination)
      (order : SortingOrder) (s : S)
      → is_over_limit page.limit ≡ false
      → (let f : QueryLogFilters = record { period = period; kind = kind; status = status } in
          list_query_logs period kind status page order s
          ≡ (do
            entries ← ports.read_query_logs f page order
            total ← ports.count_query_logs f
            pure (record { period = period; entries = entries; total = total }))
              s)
  unfolding list_query_logs reject_over_limit
  list_query_logs-within period kind status page order s h = rw h refl
