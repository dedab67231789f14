-- ===== src/Web/Statistics/Page.antt =====
-- What GET /api/v1/statistics/queries shows of the journal.
use answer_service.Base.{
  ℕ, ◌≡◌, ◌-◌, ◌*◌, refl, true, false, Option, none, some, ◌⊎◌, List, map, filter, take, drop,
  length, All, inl, inr, Bool-cases, Option-cases, arith,
}
use answer_service.Base.Int.{pos_part}
use answer_service.Base.Sorting.{Reorders, sort}
use answer_service.Analytics.Reports.Keyed.{
  IsKeyed, Ordered, Precedes, sort-Reordering, listing-Ordered,
}
use answer_service.Errors.{ok, repo_error}
use answer_service.Errors.Status.{service, request_validation, handle}
use answer_service.Analytics.Values.{period, last_days, microseconds_per_day, QueryLog}
use answer_service.Analytics.Reports.{
  pagination, QueryLogFilters, matching, row_le, read_query_logs, count_query_logs,
}
use answer_service.Analytics.Entries.{
  QueryLogEntry, to_entry, read_entries, IsAsked, read_entries-IsAsked, list_entries, count_entries,
}
use answer_service.Analytics.Queries.{ReportPorts, is_over_limit, list_query_logs-within}
use answer_service.Web.Replies.{Reply, shown, refused, validated}
use answer_service.Web.Statistics.{
  ListingParams, accepts, QueryLogsSchemaResponse, entry_schema, query_logs_schema,
  query_logs_handler, get_query_logs,
}

-- The handlers behind the listing refuse nothing that the framework has accepted.
accepts-pagination :
    (p : ListingParams)
    → accepts p ≡ true
    → (pagination (some p.limit) (some p.offset)
        ≡ ok (record { limit = some p.limit; offset = some p.offset }))
      × (is_over_limit (some p.limit) ≡ false)
unfolding accepts pagination
accepts-pagination p h = (ground arith, ground arith)

last_days-ok :
    (days now : ℕ)
    → last_days days now ≡ ok (record { start = now - days * microseconds_per_day; end = now })
unfolding last_days period
last_days-ok days now = ground arith

abbrev filters_of : ListingParams → ℕ → QueryLogFilters
filters_of p now = record {
  period = record { start = now - pos_part p.days * microseconds_per_day; end = now };
  kind = p.kind;
  status = p.query_status;
}

module _ {F : Type 0} where
  -- One page of the rows that the first read finds: those of the period, kind and status that were
  -- asked for, listed in the order that was asked for, less the offset and up to the limit. The total
  -- is the count of the rows that match in the second read.
  pub record IsPage (p : ListingParams) (now : ℕ) (rows rows' : List (QueryLog F))
      (x : QueryLogsSchemaResponse F) : Type 0 where
    pub filters : QueryLogFilters
    pub asked_kind : filters.kind ≡ p.kind
    pub asked_status : filters.status ≡ p.query_status
    pub asked_period : last_days (pos_part p.days) now ≡ ok filters.period
    pub period_shown : (x.period_start ≡ filters.period.start) × (x.period_end ≡ now)
    pub listed : List (QueryLog F)
    pub lists : Reorders listed (filter (matching filters) rows)
    pub in_order : Ordered (Precedes p.sorting_order) listed
    pub entries : List (QueryLogEntry F)
    pub all_asked : All (IsAsked filters) entries
    pub paged : entries ≡ map to_entry (take (pos_part p.limit) (drop (pos_part p.offset) listed))
    pub entries_shown : x.entries ≡ map entry_schema entries
    pub counted : x.total ≡ length (filter (matching filters) rows')

  abbrev entries_of : ListingParams → ℕ → List (QueryLog F) → List (QueryLogEntry F)
  entries_of p now =
      read_entries (filters_of p now) (record { limit = some p.limit; offset = some p.offset })
        p.sorting_order

  -- What two reads make.
  read-IsPage :
      (p : ListingParams) (now : ℕ) (rows rows' : List (QueryLog F))
      → IsKeyed rows
      → IsPage p now rows rows' (
          query_logs_schema (record {
            period = (filters_of p now).period;
            entries = entries_of p now rows;
            total = count_query_logs (filters_of p now) rows';
          }))
  unfolding query_logs_schema count_query_logs read_entries read_query_logs
  read-IsPage p now rows rows' keyed =
      let f = filters_of p now in
      record {
        filters = f;
        asked_kind = refl;
        asked_status = refl;
        asked_period = last_days-ok (pos_part p.days) now;
        period_shown = (refl, refl);
        listed = sort (row_le p.sorting_order) (filter (matching f) rows);
        lists = sort-Reordering (row_le p.sorting_order) (filter (matching f) rows);
        in_order = listing-Ordered f p.sorting_order rows keyed;
        entries = entries_of p now rows;
        all_asked =
            read_entries-IsAsked f (record { limit = some p.limit; offset = some p.offset })
              p.sorting_order rows;
        paged = refl;
        entries_shown = refl;
        counted = refl;
      }

  module _ {S : Type 0} (zero_rate : F) (ratio : ℕ → ℕ → F) (now : S → ℕ × S)
      (query_logs : S → Option (List (QueryLog F)) × S)
      (ports : ReportPorts S F (QueryLogEntry F)) where
    -- The ports with the gateway behind the listing.
    abbrev pub with_gateway : ReportPorts S F (QueryLogEntry F)
    with_gateway = record ports {
      read_query_logs = list_entries query_logs;
      count_query_logs = count_entries query_logs;
    }

    -- The three answers of the route.
    pub data Listing (p : ListingParams) (s : S) : Reply (QueryLogsSchemaResponse F) → Type 0 where
      page :
          (rows rows' : List (QueryLog F)) (x : QueryLogsSchemaResponse F)
          → accepts p ≡ true
          → (query_logs (now s).1).0 ≡ some rows
          → (query_logs (query_logs (now s).1).1).0 ≡ some rows'
          → IsPage p (now s).0 rows rows' x
          → Listing p s (shown 200 x)
      unavailable :
          accepts p ≡ true
          → ((query_logs (now s).1).0 ≡ none) ⊎ ((query_logs (query_logs (now s).1).1).0 ≡ none)
          → Listing p s (refused (handle (service repo_error)))
      invalid : accepts p ≡ false → Listing p s (refused (handle request_validation))

    -- Where the id is the primary key of the rows that are read, the listing answers 200 with a page of
    -- them and the count of a second read, or 503 only where one of the two reads fails, or 422 exactly
    -- where a parameter is out of its bounds: none of the checks of the domain and of the handler can
    -- refuse what the framework has accepted.
    pub get_query_logs-Listing :
        (p : ListingParams) (s : S)
        → ((rows : List (QueryLog F)) → (query_logs (now s).1).0 ≡ some rows → IsKeyed rows)
        → Listing p s (get_query_logs zero_rate ratio now with_gateway p s).0
    unfolding get_query_logs query_logs_handler list_entries count_entries query_logs_schema
        validated
    get_query_logs-Listing p s keyed = elim (Bool-cases (accepts p)) [
      | inr refusal ↦ rw refusal (invalid refusal)
      | inl kept ↦
          let (paged, within) = accepts-pagination p kept in
          let f = filters_of p (now s).0 in
          rw
            (
              kept,
              last_days-ok (pos_part p.days) (now s).0,
              paged,
              list_query_logs-within with_gateway f.period p.kind p.query_status
                  (record { limit = some p.limit; offset = some p.offset }) p.sorting_order
                  (now s).1 within,
            )
            (elim (Option-cases (query_logs (now s).1).0) [
              | inl failed ↦ rw failed (unavailable kept (inl failed))
              | inr (rows, e) ↦ elim (Option-cases (query_logs (query_logs (now s).1).1).0) [
                | inl failed ↦ rw (e, failed) (unavailable kept (inr failed))
                | inr (rows', e') ↦
                    rw (e, e')
                      (page rows rows' _ kept e e'
                        (read-IsPage p (now s).0 rows rows' (keyed rows e)))
              ]
            ])
    ]
