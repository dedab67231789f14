-- ===== src/Analytics/Reports/Pages.antt =====
-- Pages of the journal.
use answer_service.Base.{
  ℕ, zero, suc, ◌+◌, ◌≡◌, refl, sym, ◌∙◌, ap, none, some, List, [], ◌∷◌, ◌++◌, length, filter, take,
  drop, arith,
}
use answer_service.Base.Int.{pos}
use answer_service.Base.Sorting.{Reorders, sort, length-sort}
use answer_service.Analytics.Values.{QueryLog}
use answer_service.Analytics.Reports.Keyed.{
  IsKeyed, Precedes, Ordered, listing-Reorders, listing-Ordered,
}
use answer_service.Analytics.Reports.{
  Pagination, QueryLogFilters, SortingOrder, matching, row_le, read_query_logs, count_query_logs,
}

suc_add : (a b : ℕ) → suc (a + b) ≡ suc a + b
suc_add a b = omega arith

module _ {A : Type 0} where
  take-nil : (n : ℕ) → take {A = A} n [] ≡ []
  take-nil zero = refl
  take-nil (suc n) = refl

  drop-nil : (n : ℕ) → drop {A = A} n [] ≡ []
  drop-nil zero = refl
  drop-nil (suc n) = refl

  take-take-drop : (a b : ℕ) (xs : List A) → take a xs ++ take b (drop a xs) ≡ take (a + b) xs
  take-take-drop zero b xs = ap (λ n. take n xs) (omega arith)
  take-take-drop (suc a) b [] = take-nil b ∙ sym (take-nil (suc a + b))
  take-take-drop (suc a) b (x ∷ xs) =
      ap (λ l. x ∷ l) (take-take-drop a b xs) ∙ ap (λ n. take n (x ∷ xs)) (suc_add a b)

  drop-drop : (a b : ℕ) (xs : List A) → drop a (drop b xs) ≡ drop (b + a) xs
  drop-drop a zero xs = ap (λ n. drop n xs) (omega arith)
  drop-drop a (suc b) [] = drop-nil a ∙ sym (drop-nil (suc b + a))
  drop-drop a (suc b) (x ∷ xs) = drop-drop a b xs ∙ ap (λ n. drop n (x ∷ xs)) (suc_add b a)

abbrev pub page : (limit offset : ℕ) → Pagination
page limit offset = record { limit = some (pos limit); offset = some (pos offset) }

abbrev pub unlimited : Pagination
unlimited = record { limit = none; offset = none }

module _ {F : Type 0} where
  -- Where the id is the primary key, the listing is ordered by time and among equal times by id, and
  -- pages of it fit: a page and the one that starts where it ends, read from another scan of the same
  -- rows, are together the page of both their rows, so that nothing between them is skipped, repeated
  -- or reordered. The count is that of the listing without pages.
  pub read_query_logs-pages :
      (f : QueryLogFilters) (o : SortingOrder) (rows rows' : List (QueryLog F)) (a b offset : ℕ)
      → IsKeyed rows
      → Reorders rows rows'
      → Ordered (Precedes o) (read_query_logs f unlimited o rows)
        × (read_query_logs f (page a offset) o rows
              ++ read_query_logs f (page b (offset + a)) o rows'
            ≡ read_query_logs f (page (a + b) offset) o rows)
        × (count_query_logs f rows ≡ length (read_query_logs f unlimited o rows'))
  unfolding read_query_logs count_query_logs
  read_query_logs-pages f o rows rows' a b offset keyed scans =
      let all_rows = sort (row_le o) (filter (matching f) rows) in
      let same = listing-Reorders f o keyed scans in
      (
        listing-Ordered f o rows keyed,
        ap (λ l. take a (drop offset all_rows) ++ take b (drop (offset + a) l)) (sym same)
            ∙ ap (λ l. take a (drop offset all_rows) ++ take b l)
                (sym (drop-drop a offset all_rows))
            ∙ take-take-drop a b (drop offset all_rows),
        sym (length-sort (row_le o) (filter (matching f) rows)) ∙ ap length same,
      )
