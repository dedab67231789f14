-- ===== src/Analytics/Frequencies.antt =====
-- infrastructure/adapters/persistence/sqlalchemy_analytics_gateway.py: the reports that group the
-- journal by text. The order of texts is the collation of the database, a parameter.
pub mod Totals
use answer_service.Base.{
  ℕ, suc, Bool, Option, none, some, List, [], ◌∷◌, map, filter, leb, ltb, nat_beq, if◌then◌else◌,
}
use answer_service.Base.Dict.{Dict, get, put}
use answer_service.Base.Sorting.{sort}
use answer_service.Base.Text.{Text, text_eq}
use answer_service.Analytics.Values.{Period, QueryLog}
use answer_service.Analytics.Reports.{
  Pagination, page_of, SortingOrder, asc, desc, within, unanswered_rows,
}

-- QueryFrequency (ports/gateways/analytics_query_gateway.py)
pub record QueryFrequency : Type 0 where
  pub content : Text
  pub occurrences : ℕ

abbrev pub or_zero : Option ℕ → ℕ
or_zero none = 0
or_zero (some n) = n

module _ {F : Type 0} where
  -- `group_by(query_logs_table.c.text)` with `count()`.
  unfoldable pub counted : List (QueryLog F) → Dict Text ℕ
  counted [] = []
  counted (log ∷ logs) =
      let rest = counted logs in
      put rest log.content.content (suc (or_zero (get rest log.content.content)))

module _ (text_le : Text → Text → Bool) where
  -- `order_by(ordering, query_logs_table.c.text.asc())`
  abbrev pub frequency_le : SortingOrder → Text × ℕ → Text × ℕ → Bool
  frequency_le asc a b = if nat_beq a.1 b.1 then text_le a.0 b.0 else ltb a.1 b.1
  frequency_le desc a b = if nat_beq a.1 b.1 then text_le a.0 b.0 else ltb b.1 a.1

module _ {F : Type 0} (text_le : Text → Text → Bool) where
  -- `_frequency_stmt`, over the rows that its WHERE lets through, and `_read_frequencies`.
  unfoldable pub frequencies : Pagination → SortingOrder → List (QueryLog F) → List QueryFrequency
  unfolding counted
  frequencies page o rows =
      map (λ e. record { content = e.0; occurrences = e.1 })
        (page_of page (sort (frequency_le text_le o) (counted rows)))

  unfoldable pub read_popular_queries :
      Period → Pagination → SortingOrder → List (QueryLog F) → List QueryFrequency
  unfolding frequencies within
  read_popular_queries p page o rows = frequencies page o (filter (within p) rows)

  unfoldable pub read_unanswered_queries :
      Period → Pagination → SortingOrder → List (QueryLog F) → List QueryFrequency
  unfolding frequencies unanswered_rows
  read_unanswered_queries p page o rows = frequencies page o (unanswered_rows p rows)
