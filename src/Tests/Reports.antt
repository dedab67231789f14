-- ===== src/Tests/Reports.antt =====
-- The journal and its reports.
use answer_service.Base.{ℕ, ◌+◌, ◌≡◌, refl, false, none, some, List, [], ◌∷◌, ◌++◌, length, arith}
use answer_service.Base.Int.{pos}
use answer_service.Base.Text.{text, strip, text_leb}
use answer_service.Errors.{Error, Result, ok, err, repo_error}
use answer_service.Errors.Hierarchy.{caught}
use answer_service.Indexing.Values.{is_blank}
use answer_service.Application.Ports.{TransactionManager}
use answer_service.Analytics.Values.{
  QueryLog, QueryExecution, succeeded, failed, ask, is_unanswered,
}
use answer_service.Analytics.Journal.{RecordableQuery, JournalPorts, record_query}
use answer_service.Analytics.Journal.Transparent.{
  RaisesAppErrors, Unrolled, record_query-Transparent,
}
use answer_service.Analytics.Reports.Keyed.{IsKeyed, Ordered, Precedes}
use answer_service.Base.Sorting.{swap}
use answer_service.Base.{nat_beq, if◌then◌else◌, refl, some, ◌⊎◌}
use answer_service.Analytics.Reports.{
  QueryLogFilters, asc, within, read_statistics, read_query_logs, count_query_logs,
}
use answer_service.Analytics.Frequencies.{read_popular_queries, read_unanswered_queries}
use answer_service.Analytics.Frequencies.Totals.{
  total_occurrences, whole_listing, total_occurrences-read_statistics,
}
use answer_service.Analytics.Reports.Unanswered.{between, read_statistics-unanswered}
use answer_service.Analytics.Reports.Pages.{unlimited, page, read_query_logs-pages}

abbrev pub log_at : ℕ → QueryExecution → ℕ → QueryLog ℕ
log_at i execution when = record {
  id = i;
  content = record { content = text "how" };
  kind = ask;
  outcome = record { results_count = pos 0; top_score = none };
  latency = record { milliseconds = pos 3 };
  execution = execution;
  category = none;
  occurred_at = when;
}

abbrev pub good : QueryExecution
good = record { status = succeeded; error_code = none }

abbrev bad : QueryExecution
bad = record { status = failed; error_code = some (record { value = text "RepoError" }) }

abbrev rows : List (QueryLog ℕ)
rows = log_at 1 good 4 ∷ log_at 2 bad 6 ∷ log_at 3 good 8 ∷ []

-- One of the two rows that the report counts in this period is a failure, and no gap of the catalog.
read_statistics-unanswered_example : (read_statistics (between 5 9) rows).unanswered ≡ 1 + 1
unfolding within is_unanswered
read_statistics-unanswered_example = read_statistics-unanswered (between 5 9) rows

total_occurrences-read_statistics_example :
    (total_occurrences (read_popular_queries text_leb (between 5 9) whole_listing asc rows)
      ≡ (read_statistics (between 5 9) rows).total)
    × (total_occurrences (read_unanswered_queries text_leb (between 5 9) whole_listing asc rows)
        ≡ (read_statistics (between 5 9) rows).unanswered)
total_occurrences-read_statistics_example =
    total_occurrences-read_statistics text_leb (between 5 9) asc rows

abbrev everything : QueryLogFilters
everything = record { period = between 0 9; kind = none; status = none }

-- Another scan of the rows, and their primary key.
abbrev scanned : List (QueryLog ℕ)
scanned = log_at 2 bad 6 ∷ log_at 1 good 4 ∷ log_at 3 good 8 ∷ []

rows-IsKeyed : IsKeyed rows
rows-IsKeyed = record {
  row_of = λ i.
      if nat_beq i 1
      then some (log_at 1 good 4)
      else if nat_beq i 2
      then some (log_at 2 bad 6)
      else some (log_at 3 good 8);
  keyed = (refl, (refl, (refl, tt)));
}

read_query_logs-pages_example :
    Ordered (Precedes asc) (read_query_logs everything unlimited asc rows)
    × (read_query_logs everything (page 1 0) asc rows
          ++ read_query_logs everything (page 2 1) asc scanned
        ≡ read_query_logs everything (page 3 0) asc rows)
    × (count_query_logs everything rows ≡ length (read_query_logs everything unlimited asc scanned))
read_query_logs-pages_example =
    read_query_logs-pages everything asc rows scanned 1 2 0 rows-IsKeyed
      (swap (log_at 1 good 4) (log_at 2 bad 6) (log_at 3 good 8 ∷ []))

-- A journal whose rows can never be written.
abbrev broken_journal : JournalPorts ℕ ℕ
broken_journal = record {
  now = λ s. (s, s);
  perf_counter = λ s. (s, s);
  elapsed_ms = λ started_at s. (pos 3, s);
  add = λ log s. (err repo_error, s);
}

abbrev counter_manager : TransactionManager ℕ
counter_manager = record { commit = λ s. (ok tt, s); rollback = λ s. (ok tt, s) }

abbrev a_request : RecordableQuery
a_request = record {
  request_id = 1;
  journalled_text = text "how";
  journalled_kind = ask;
  journalled_category = none;
}

add-RaisesAppErrors : (log : QueryLog ℕ) → RaisesAppErrors (broken_journal.add log)
unfolding caught
add-RaisesAppErrors log s e h = ground arith

commit-RaisesAppErrors : RaisesAppErrors counter_manager.commit
commit-RaisesAppErrors s e h = let no : ⊥ = cc h in elim no [ ]

named : (e : Error) → is_blank (text "RepoError") ≡ false
unfolding strip
named e = refl

abbrev recorded : Result ℕ
recorded =
    (record_query broken_journal counter_manager (λ (n : ℕ). pos n) (λ n. none)
      (λ e. text "RepoError") (λ r s. (ok 5, s)) a_request 0).0

record_query-Transparent_example :
    (recorded ≡ ok 5) ⊎ Unrolled broken_journal counter_manager recorded
record_query-Transparent_example =
    record_query-Transparent broken_journal counter_manager add-RaisesAppErrors
      commit-RaisesAppErrors (λ n. pos n) (λ n. none) (λ e. text "RepoError") (λ r. ground arith)
      named (λ r s. (ok 5, s)) a_request 0
