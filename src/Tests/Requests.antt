-- ===== src/Tests/Requests.antt =====
-- Requests over HTTP, over stores in memory.
use answer_service.Base.{
  ℕ, nat_eq, ◌≡◌, refl, false, none, some, Option, List, [], ◌∷◌, ◌++◌, ==_refl,
}
use answer_service.Base.Int.{pos}
use answer_service.Base.Text.{Text, text, strip, text_beq, text_leb}
use answer_service.Errors.{Error, ok}
use answer_service.Application.Ports.{Environment, TransactionManager}
use answer_service.Application.Outbox.{publish}
use answer_service.Application.Scope.{Scope}
use answer_service.Application.Pipelines.{run_command}
use answer_service.Application.Handlers.Reaper.{enqueue_indexing}
use answer_service.Indexing.Values.{is_blank}
use answer_service.Analytics.Values.{QueryLog}
use answer_service.Analytics.Values as A
use answer_service.Application.Io.{Keeps}
use answer_service.Analytics.Journal.{JournalPorts, record_query}
use answer_service.Analytics.Journal.Rows.{JournalLaws}
use answer_service.Analytics.Queries.{ReportPorts}
use answer_service.Analytics.Entries.{QueryLogEntry}
use answer_service.Search.Values.{SearchCriteria}
use answer_service.Search.Generator.{Content, plain, generate}
use answer_service.Search.Hybrid.{SearchPorts, QaPairView}
use answer_service.Database.Tasks.{sql_task_gateway}
use answer_service.Settings.{RedisConfig}
use answer_service.Analytics.Reports.Keyed.{IsKeyed}
use answer_service.Base.{nat_beq, subst, if◌then◌else◌}
use answer_service.Web.Criteria.{
  CriteriaRequest, CriteriaBody, accepts, parse, to_criteria, to_criteria-accepted,
}
use answer_service.Web.Replies.{Reply, validated}
use answer_service.Web.Consulting.{AskSchemaResponse, SearchSchemaResponse, post_search, post_ask}
use answer_service.Web.Consulting.Recorded.{Journalled}
use answer_service.Web.Consulting.Journalled.{
  ReadsOnly, ShowsResults, ShowsSources, post_search-Journalled, post_ask-Journalled,
}
use answer_service.Web.Consulting.Cited.{Cites, post_ask-Cites}
use answer_service.Web.Statistics.{default_params, get_query_logs}
use answer_service.Web.Statistics.Page.{with_gateway, Listing, get_query_logs-Listing}
use answer_service.Web.Tasks.{UploadFile, EnqueueIndexingSchema, get_task, post_sync}
use answer_service.Database.TaskViews.Shown.{columns_of}
use answer_service.Web.Tasks.Polled.{ShowsQueued, post_sync-ShowsQueued}
use answer_service.Tests.Commands.{row_b, empty_dump, with_task, memory-KeepsTasks}
use answer_service.Tests.Data.{id_a}
use answer_service.Tests.Memory.{
  Memory, task_of, saved_task_of, memory-UnitOfWork, memory_env, memory_manager, memory_outbox,
  one_row_files,
}
use answer_service.Tests.Reports.{log_at, good}
use answer_service.Tests.Searches.{whole, whole_views}
use answer_service.Tests.Statuses.{task_table, task_table-ColumnLaws}

abbrev a_request : CriteriaRequest
a_request = record { query = text "how"; top_k = pos 5; category = none }

to_criteria-accepted_example :
    to_criteria a_request
    ≡ ok (record {
      query = record { content = text "how" };
      top_k = record { value = pos 5 };
      category = none;
    })
unfolding strip accepts
to_criteria-accepted_example = to_criteria-accepted a_request refl

abbrev a_body : CriteriaBody
a_body = record { query = text "how"; top_k = none; category = none }

-- The state is the journal's rows.
abbrev Rows : Type 0
Rows = List (QueryLog ℕ)

abbrev rows_env : Environment Rows
rows_env = record { now = λ s. (9, s); uuid4 = λ s. (7, s) }

abbrev rows_journal : JournalPorts Rows ℕ
rows_journal = record {
  now = λ s. (9, s);
  perf_counter = λ s. (1, s);
  elapsed_ms = λ started_at s. (pos 3, s);
  add = λ log s. (ok tt, s ++ (log ∷ []));
}

abbrev rows_manager : TransactionManager Rows
rows_manager = record { commit = λ s. (ok tt, s); rollback = λ s. (ok tt, s) }

rows-JournalLaws : JournalLaws rows_journal rows_manager (λ s. s)
rows-JournalLaws = record {
  now_keeps = λ s. refl;
  perf_counter_keeps = λ s. refl;
  elapsed_ms_keeps = λ n s. refl;
  elapsed_ms_NonNeg = λ n s. refl;
  add_returns = λ log s. refl;
  add_adds = λ log s. refl;
  commit_returns = λ s. refl;
  commit_keeps = λ s. refl;
}

abbrev rows_ports : SearchPorts Rows whole
rows_ports = record {
  retrieve_dense =
      λ c s. (ok (record { external_id = id_a; score = record { value = 7 } } ∷ []), s);
  retrieve_lexical = λ c s. (ok [], s);
  read_views = λ is s. (ok whole_views, s);
}

rows_ports-ReadsOnly : ReadsOnly whole rows_env rows_journal rows_manager (λ s. s) rows_ports
rows_ports-ReadsOnly = record {
  uuid4 = λ s. refl;
  quiet = record {
    retrieve_dense = λ c s. refl;
    retrieve_lexical = λ c s. refl;
    read_views = λ is s. refl;
  };
}

abbrev an_error : Error → Text
an_error e = text "RepoError"

an_error-named : (e : Error) → is_blank (an_error e) ≡ false
unfolding strip
an_error-named e = refl

abbrev searched : Reply (SearchSchemaResponse whole) × Rows
searched =
    post_search whole rows_env rows_journal rows_manager an_error rows_ports 60 (λ is. is) a_body []

post_search-Journalled_example :
    Journalled (ShowsResults whole) A.search an_error (text "how") [] searched.0 searched.1
unfolding strip parse
post_search-Journalled_example =
    post_search-Journalled whole rows_env rows_journal rows_manager (λ s. s) rows_ports 60
      (λ is. is) rows_ports-ReadsOnly rows-JournalLaws an_error an_error-named a_body a_request []
      refl refl refl

abbrev talkative : (system human : Text) → Rows → Option Content × Rows
talkative system human s = (some (plain (text "so")), s)

talkative-Keeps :
    (question : Text) (grounding : List QaPairView)
    → Keeps (λ (s : Rows). s) (generate talkative question grounding)
unfolding generate
talkative-Keeps question grounding s = refl

abbrev asked : Reply AskSchemaResponse × Rows
asked =
    post_ask whole rows_env rows_journal rows_manager an_error rows_ports 60 (λ is. is)
      (generate talkative) a_body []

abbrev asked_request : CriteriaRequest
asked_request = record { query = text "how"; top_k = pos 3; category = none }

post_ask-Journalled_example :
    Journalled (ShowsSources whole) A.ask an_error (text "how") [] asked.0 asked.1
unfolding strip parse
post_ask-Journalled_example =
    post_ask-Journalled whole rows_env rows_journal rows_manager (λ s. s) rows_ports 60 (λ is. is)
      rows_ports-ReadsOnly rows-JournalLaws an_error an_error-named (generate talkative)
      talkative-Keeps a_body asked_request [] refl refl refl

abbrev told : AskSchemaResponse
told = record {
  request_id = 7;
  query = text "how";
  answer = some (text "so");
  sources = record { external_id = text "a"; question = text "q"; category = text "x" } ∷ [];
  duration_ms = pos 3;
}

post_ask-Cites_example :
    ◌≡◌ {A = ℕ} 200 200
    × (r : CriteriaRequest) × (c : SearchCriteria) × (parse (pos 3) a_body ≡ some r)
    × (to_criteria r ≡ ok c)
    × Cites whole rows_env rows_journal rows_manager an_error rows_ports 60
        (λ is. is)
        talkative
        told
        c
unfolding post_ask validated record_query generate strip text_beq text_leb
post_ask-Cites_example =
    post_ask-Cites whole rows_env rows_journal rows_manager an_error rows_ports 60 (λ is. is)
      talkative a_body [] asked.1 200 told refl

abbrev no_reports : ReportPorts Rows ℕ (QueryLogEntry ℕ)
no_reports = record {
  read_catalog_statistics = λ s. (ok (record { total_pairs = 0; pairs_per_category = [] }), s);
  read_statistics = λ p s. (ok (record { total = 0; unanswered = 0; average_latency_ms = 0 }), s);
  read_unanswered_queries = λ p page o s. (ok [], s);
  read_popular_queries = λ p page o s. (ok [], s);
  read_query_logs = λ f page o s. (ok [], s);
  count_query_logs = λ f s. (ok 0, s);
}

abbrev all_rows : Rows → Option Rows × Rows
all_rows s = (some s, s)

abbrev two_logs : Rows
two_logs = log_at 1 good 4 ∷ log_at 2 good 6 ∷ []

two_logs-IsKeyed : IsKeyed two_logs
two_logs-IsKeyed = record {
  row_of = λ i. if nat_beq i 1 then some (log_at 1 good 4) else some (log_at 2 good 6);
  keyed = (refl, (refl, tt));
}

get_query_logs-Listing_example :
    Listing 0
      (λ a b. a)
      (λ s. (9, s))
      all_rows
      no_reports
      default_params
      two_logs
      (get_query_logs 0
        (λ a b. a)
        (λ s. (9, s))
        (with_gateway 0 (λ a b. a) (λ s. (9, s)) all_rows no_reports)
        default_params
        two_logs).0
get_query_logs-Listing_example =
    get_query_logs-Listing 0 (λ a b. a) (λ s. (9, s)) all_rows no_reports default_params two_logs
      (λ rows h. let e : two_logs ≡ rows = cc h in subst IsKeyed e two_logs-IsKeyed)

abbrev upload : UploadFile Text
upload = record { filename = some (text "f.csv"); content = [] }

abbrev sync : Reply EnqueueIndexingSchema × Scope Memory
sync =
    post_sync memory_env memory_manager (publish memory_env empty_dump memory_outbox)
      (sql_task_gateway task_table) (one_row_files row_b) (some upload) with_task

abbrev queued_answer : EnqueueIndexingSchema
queued_answer = record { task_id = with_task.store.clock; status = text "queued" }

post_sync-ShowsQueued_example :
    ◌≡◌ {A = ℕ} 202 202
    × (queued_answer.status ≡ text "queued")
    × ShowsQueued queued_answer.task_id
        (columns_of task_table queued_answer.task_id sync.1.store)
        (get_task task_table queued_answer.task_id sync.1.store).0
unfolding post_sync validated run_command enqueue_indexing publish sql_task_gateway
post_sync-ShowsQueued_example =
    post_sync-ShowsQueued task_table saved_task_of task_table-ColumnLaws task_of saved_task_of
      (λ r s. rw (==_refl r.id) refl) memory_env memory_manager memory-UnitOfWork memory_outbox
      memory-KeepsTasks empty_dump (one_row_files row_b) (some upload) with_task sync.1 202
      queued_answer sync.1.store refl refl

abbrev a_redis : RedisConfig
a_redis = record {
  host = text "redis";
  port = pos 6379;
  user = text "app";
  password = text "pw";
  worker_db = pos 1;
  schedule_source_db = pos 2;
  cache_db = pos 0;
}
