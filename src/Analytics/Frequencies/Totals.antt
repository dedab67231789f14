-- ===== src/Analytics/Frequencies/Totals.antt =====
-- The grouped reports and the counts of the statistics agree.
use answer_service.Base.{
  ℕ, suc, ◌+◌, ◌≡◌, refl, ◌∙◌, ap, Bool, none, List, [], ◌∷◌, length, map, filter, arith, ◌==◌,
  Bool-cases, inl, inr,
}
use answer_service.Base.Dict.{Dict, get, put}
use answer_service.Base.Sorting.{insert, sort}
use answer_service.Base.Text.{Text, text_eq}
use answer_service.Analytics.Values.{Period, QueryLog}
use answer_service.Analytics.Reports.{
  Pagination, SortingOrder, within, unanswered_rows, read_statistics,
}
use answer_service.Analytics.Frequencies.{
  QueryFrequency, or_zero, counted, frequency_le, frequencies, read_popular_queries,
  read_unanswered_queries,
}

-- `UnansweredQueriesResponse.total_occurrences`: the sum over a report.
abbrev pub total_occurrences : List QueryFrequency → ℕ
total_occurrences [] = 0
total_occurrences (q ∷ qs) = q.occurrences + total_occurrences qs

abbrev sum_of : List (Text × ℕ) → ℕ
sum_of [] = 0
sum_of (e ∷ es) = e.1 + sum_of es

sum_of-put :
    (d : Dict Text ℕ) (k : Text) → sum_of (put d k (suc (or_zero (get d k)))) ≡ suc (sum_of d)
sum_of-put [] k = refl
sum_of-put (e ∷ d) k = elim (Bool-cases (e.0 == k)) [
  | inl h ↦ rw h (omega arith)
  | inr h ↦ rw h (omega (arith, sum_of-put d k))
]

sum_of-counted : {F : Type 0} (rows : List (QueryLog F)) → sum_of (counted rows) ≡ length rows
unfolding counted
sum_of-counted [] = refl
sum_of-counted (log ∷ rows) =
    sum_of-put (counted rows) log.content.content ∙ ap suc (sum_of-counted rows)

module _ (le : Text × ℕ → Text × ℕ → Bool) where
  sum_of-insert : (e : Text × ℕ) (es : List (Text × ℕ)) → sum_of (insert le e es) ≡ e.1 + sum_of es
  sum_of-insert e [] = refl
  sum_of-insert e (f ∷ es) = elim (Bool-cases (le e f)) [
    | inl h ↦ rw h refl
    | inr h ↦ rw h (omega (arith, sum_of-insert e es))
  ]

  sum_of-sort : (es : List (Text × ℕ)) → sum_of (sort le es) ≡ sum_of es
  sum_of-sort [] = refl
  sum_of-sort (e ∷ es) = sum_of-insert e (sort le es) ∙ ap (λ n. e.1 + n) (sum_of-sort es)

total_occurrences-map :
    (es : List (Text × ℕ))
    → total_occurrences (map (λ e. record { content = e.0; occurrences = e.1 }) es) ≡ sum_of es
total_occurrences-map [] = refl
total_occurrences-map (e ∷ es) = ap (λ n. e.1 + n) (total_occurrences-map es)

abbrev pub whole_listing : Pagination
whole_listing = record { limit = none; offset = none }

module _ {F : Type 0} (text_le : Text → Text → Bool) where
  frequencies-total :
      (o : SortingOrder) (rows : List (QueryLog F))
      → total_occurrences (frequencies text_le whole_listing o rows) ≡ length rows
  unfolding frequencies
  frequencies-total o rows =
      total_occurrences-map (sort (frequency_le text_le o) (counted rows))
      ∙ sum_of-sort (frequency_le text_le o) (counted rows)
      ∙ sum_of-counted rows

  -- Without pages, the occurrences of the popular queries of a period add up to the total of its
  -- statistics, and those of the unanswered queries to its unanswered count.
  pub total_occurrences-read_statistics :
      (p : Period) (o : SortingOrder) (rows : List (QueryLog F))
      → (total_occurrences (read_popular_queries text_le p whole_listing o rows)
          ≡ (read_statistics p rows).total)
        × (total_occurrences (read_unanswered_queries text_le p whole_listing o rows)
            ≡ (read_statistics p rows).unanswered)
  unfolding read_popular_queries read_unanswered_queries read_statistics unanswered_rows
  total_occurrences-read_statistics p o rows =
      (frequencies-total o (filter (within p) rows), frequencies-total o (unanswered_rows p rows))
