-- ===== src/Analytics/Entries.antt =====
-- The entries of the request journal: QueryLogEntry, its mapper
-- (infrastructure/mappers/sqlalchemy_query_log_entry_mapper.py), and the rows of the listing as entries.
use answer_service.Base.{
  ℕ, ◌≡◌, true, Option, none, some, List, [], ◌∷◌, map, filter, take, drop, All, All-take, All-drop,
  All-filter, All-imp, All-Unit, arith,
}
use answer_service.Base.Int.{ℤ, pos_part}
use answer_service.Base.Text.{Text}
use answer_service.Errors.{result_map}
use answer_service.Application.Io.{Io}
use answer_service.Database.Session.{or_repo_error}
use answer_service.Base.Sorting.{All-sort}
use answer_service.Analytics.Values.{
  QueryKind, QueryStatus, QueryLog, contains_moment, kind_beq, status_beq,
}
use answer_service.Analytics.Reports.{
  Pagination, page_of, QueryLogFilters, SortingOrder, within, matching, row_le, read_query_logs,
  count_query_logs,
}

module _ (F : Type 0) where
  -- ports/gateways/analytics_query_gateway.py
  pub record QueryLogEntry : Type 0 where
    pub request_id : ℕ
    pub kind : QueryKind
    pub content : Text
    pub occurred_at : ℕ
    pub latency_ms : ℤ
    pub results_count : ℤ
    pub top_score : Option F
    pub status : QueryStatus
    pub error_code : Option Text
    pub category : Option Text

module _ {F : Type 0} where
  -- `to_entry`, of the row's columns, which are those of the log.
  unfoldable pub to_entry : QueryLog F → QueryLogEntry F
  to_entry row = record {
    request_id = row.id;
    kind = row.kind;
    content = row.content.content;
    occurred_at = row.occurred_at;
    latency_ms = row.latency.milliseconds;
    results_count = row.outcome.results_count;
    top_score = row.outcome.top_score;
    status = row.execution.status;
    error_code = elim row.execution.error_code [ none ↦ none | some c ↦ some c.value ];
    category = elim row.category [ none ↦ none | some c ↦ some c.value ];
  }

  -- `SqlAlchemyAnalyticsGateway.read_query_logs`, its rows as entries.
  unfoldable pub read_entries :
      QueryLogFilters → Pagination → SortingOrder → List (QueryLog F) → List (QueryLogEntry F)
  unfolding to_entry
  read_entries f page o rows = map to_entry (read_query_logs f page o rows)

  -- `QueryLogFilters` of an entry: its time, kind and status.
  abbrev pub IsAsked : QueryLogFilters → QueryLogEntry F → Type 0
  IsAsked f e =
      (contains_moment f.period e.occurred_at ≡ true)
      × (elim f.kind [ none ↦ true | some k ↦ kind_beq e.kind k ] ≡ true)
      × (elim f.status [ none ↦ true | some s ↦ status_beq e.status s ] ≡ true)

  matching-IsAsked :
      (f : QueryLogFilters) (log : QueryLog F) → matching f log ≡ true → IsAsked f (to_entry log)
  unfolding to_entry matching within
  matching-IsAsked f log h = ground arith

  map-IsAsked :
      (f : QueryLogFilters) (rows : List (QueryLog F))
      → All (λ log. matching f log ≡ true) rows
      → All (IsAsked f) (map to_entry rows)
  map-IsAsked f [] a = tt
  map-IsAsked f (log ∷ rows) (h, a) = (matching-IsAsked f log h, map-IsAsked f rows a)

  All-limited :
      (Q : QueryLog F → Type 0) (limit : Option ℤ) (rest : List (QueryLog F))
      → All Q rest
      → All Q (elim limit [ none ↦ rest | some n ↦ take (pos_part n) rest ])
  All-limited Q none rest a = a
  All-limited Q (some n) rest a = All-take Q (pos_part n) rest a

  All-page_of :
      (Q : QueryLog F → Type 0) (limit offset : Option ℤ) (rows : List (QueryLog F))
      → All Q rows
      → All Q (page_of (record { limit = limit; offset = offset }) rows)
  All-page_of Q limit none rows a = All-limited Q limit rows a
  All-page_of Q limit (some n) rows a =
      All-limited Q limit (drop (pos_part n) rows) (All-drop Q (pos_part n) rows a)

  -- Every entry that is listed is of the period, the kind and the status that were asked for.
  pub read_entries-IsAsked :
      (f : QueryLogFilters) (page : Pagination) (o : SortingOrder) (rows : List (QueryLog F))
      → All (IsAsked f) (read_entries f page o rows)
  unfolding read_entries read_query_logs
  read_entries-IsAsked f page o rows = map-IsAsked f (read_query_logs f page o rows) (
      All-page_of (λ log. matching f log ≡ true) page.limit page.offset _
        (All-sort (row_le o) (λ log. matching f log ≡ true) (filter (matching f) rows)
          (All-imp (λ log. matching f log ≡ true) (λ log h. h.1) _
            (All-filter (λ log. Unit {0}) (matching f) rows (All-Unit rows)))))

-- The gateway's two statements, over the rows of query_logs that a statement reads.
module _ {S F : Type 0} (query_logs : S → Option (List (QueryLog F)) × S) where
  abbrev pub on_rows : {A : Type 0} → (List (QueryLog F) → A) → Io S A
  on_rows f s = (result_map f (or_repo_error (query_logs s).0), (query_logs s).1)

  -- `SqlAlchemyAnalyticsGateway.read_query_logs`
  unfoldable pub list_entries :
      QueryLogFilters → Pagination → SortingOrder → Io S (List (QueryLogEntry F))
  unfolding read_entries
  list_entries f page o = on_rows (read_entries f page o)

  -- `SqlAlchemyAnalyticsGateway.count_query_logs`
  unfoldable pub count_entries : QueryLogFilters → Io S ℕ
  unfolding count_query_logs
  count_entries f = on_rows (count_query_logs f)
