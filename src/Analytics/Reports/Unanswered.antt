-- ===== src/Analytics/Reports/Unanswered.antt =====
-- What the statistics count.
use answer_service.Base.{ℕ, ◌+◌, ◌≤◌, ◌≡◌, refl, Bool, ◌&&◌, List, [], ◌∷◌, length, filter, arith}
use answer_service.Analytics.Values.{
  Period, contains_moment, is_failed, QueryLog, found_nothing, is_unanswered,
}
use answer_service.Analytics.Reports.{within, read_statistics}

abbrev pub between : ℕ → ℕ → Period
between a b = record { start = a; end = b }

module _ {F : Type 0} where
  -- A query that failed, and so was recorded with no result.
  abbrev pub failed_empty : QueryLog F → Bool
  failed_empty log = is_failed log.execution && found_nothing F log.outcome

  counts-split :
      (xs : List (QueryLog F))
      → length (filter (λ log. found_nothing F log.outcome) xs)
        ≡ length (filter (is_unanswered F) xs) + length (filter failed_empty xs)
  unfolding is_unanswered
  counts-split [] = refl
  counts-split (x ∷ xs) = ground (arith, counts-split xs)

  -- The report's count of unanswered queries is the count of the rows of the period that QueryLog
  -- itself calls unanswered, plus the count of those that failed with no result.
  pub read_statistics-unanswered :
      (p : Period) (rows : List (QueryLog F))
      → (read_statistics p rows).unanswered
        ≡ length (filter (is_unanswered F) (filter (within p) rows))
          + length (filter failed_empty (filter (within p) rows))
  unfolding read_statistics
  read_statistics-unanswered p rows = counts-split (filter (within p) rows)

  module _ (start middle end : ℕ) (first : start ≤ middle) (second : middle ≤ end) where
    tile :
        (q : QueryLog F → Bool) (rows : List (QueryLog F))
        → length (filter q (filter (within (between start middle)) rows))
            + length (filter q (filter (within (between middle end)) rows))
          ≡ length (filter q (filter (within (between start end)) rows))
    unfolding within contains_moment
    tile q [] = refl
    tile q (x ∷ xs) = ground (arith, tile q xs)

    tile_total :
        (rows : List (QueryLog F))
        → length (filter (within (between start middle)) rows)
            + length (filter (within (between middle end)) rows)
          ≡ length (filter (within (between start end)) rows)
    unfolding within contains_moment
    tile_total [] = refl
    tile_total (x ∷ xs) = ground (arith, tile_total xs)

    -- Consecutive periods count each row once: their totals, and their unanswered counts, add up to
    -- those of the whole period.
    pub read_statistics-tiles :
        (rows : List (QueryLog F))
        → ((read_statistics (between start middle) rows).total
              + (read_statistics (between middle end) rows).total
            ≡ (read_statistics (between start end) rows).total)
          × ((read_statistics (between start middle) rows).unanswered
                + (read_statistics (between middle end) rows).unanswered
              ≡ (read_statistics (between start end) rows).unanswered)
    unfolding read_statistics
    read_statistics-tiles rows = (tile_total rows, tile (λ log. found_nothing F log.outcome) rows)
