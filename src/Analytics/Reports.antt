-- ===== src/Analytics/Reports.antt =====
-- infrastructure/adapters/persistence/sqlalchemy_analytics_gateway.py: the reports, each a query over
-- the rows of the journal.
pub mod Unanswered
pub mod Keyed
pub mod Pages
use answer_service.Base.{
  ℕ, ◌+◌, ◌≡◌, Bool, true, false, not, ◌&&◌, Option, none, some, List, [], ◌∷◌, map, length, filter,
  take, drop, leb, ltb, nat_beq, if◌then◌else◌,
}
use answer_service.Base.Int.{ℤ, pos, negsuc, pos_part, ltb_ℤ}
use answer_service.Base.Sorting.{sort}
use answer_service.Errors.{Result, ok, err, raise_if, ◌>>=◌, ◌>>◌, pagination_error}
use answer_service.Analytics.Values.{
  Period, contains_moment, QueryKind, kind_beq, QueryStatus, status_beq, QueryLog, found_nothing,
}

pub data SortingOrder : Type 0 where
  asc desc : SortingOrder

-- application/common/query_params/pagination.py
pub record Pagination : Type 0 where
  pub limit : Option ℤ
  pub offset : Option ℤ

abbrev below : ℤ → Option ℤ → Bool
below bound none = false
below bound (some n) = ltb_ℤ n bound

-- `Pagination.__post_init__`
unfoldable pub pagination : (limit offset : Option ℤ) → Result Pagination
pagination limit offset = do
  raise_if (below (pos 1) limit) pagination_error
  raise_if (below (pos 0) offset) pagination_error
  ok (record { limit = limit; offset = offset })

-- SQL's LIMIT and OFFSET; SQLAlchemy leaves out the clause of a `None`.
abbrev pub page_of {ℓ} : {A : Type ℓ} → Pagination → List A → List A
page_of page xs =
    let rest = drop (elim page.offset [ none ↦ 0 | some n ↦ pos_part n ]) xs in
    elim page.limit [ none ↦ rest | some n ↦ take (pos_part n) rest ]

pub record QueryLogFilters : Type 0 where
  pub period : Period
  pub kind : Option QueryKind
  pub status : Option QueryStatus

-- The counts of `read_statistics`; its average is the database's.
pub record QueryCounts : Type 0 where
  pub total : ℕ
  pub unanswered : ℕ

module _ {F : Type 0} where
  -- `_within`
  unfoldable pub within : Period → QueryLog F → Bool
  unfolding contains_moment
  within p log = contains_moment p log.occurred_at

  -- `read_statistics`: the filter of the second count is `results_count == UNANSWERED`.
  unfoldable pub read_statistics : Period → List (QueryLog F) → QueryCounts
  unfolding within
  read_statistics p rows =
      let inside = filter (within p) rows in
      record {
        total = length inside;
        unanswered = length (filter (λ log. found_nothing F log.outcome) inside);
      }

  -- The rows that `read_unanswered_queries` groups by their text.
  unfoldable pub unanswered_rows : Period → List (QueryLog F) → List (QueryLog F)
  unfolding within
  unanswered_rows p rows = filter (λ log. found_nothing F log.outcome) (filter (within p) rows)

  -- `_matching`
  unfoldable pub matching : QueryLogFilters → QueryLog F → Bool
  unfolding within
  matching f log =
      within f.period log
      && elim f.kind [ none ↦ true | some k ↦ kind_beq log.kind k ]
      && elim f.status [ none ↦ true | some s ↦ status_beq log.execution.status s ]

  -- `order_by(ordering, query_logs_table.c.id.asc())`, compared with `<=`.
  unfoldable pub row_le : SortingOrder → QueryLog F → QueryLog F → Bool
  row_le asc a b =
      if nat_beq a.occurred_at b.occurred_at then leb a.id b.id else ltb a.occurred_at b.occurred_at
  row_le desc a b =
      if nat_beq a.occurred_at b.occurred_at then leb a.id b.id else ltb b.occurred_at a.occurred_at

  -- `read_query_logs`
  unfoldable pub read_query_logs :
      QueryLogFilters → Pagination → SortingOrder → List (QueryLog F) → List (QueryLog F)
  unfolding matching row_le
  read_query_logs f page o rows = page_of page (sort (row_le o) (filter (matching f) rows))

  -- `count_query_logs`
  unfoldable pub count_query_logs : QueryLogFilters → List (QueryLog F) → ℕ
  unfolding matching
  count_query_logs f rows = length (filter (matching f) rows)
