-- ===== src/Tests/Storage.antt =====
-- Rows, source files and stored uploads.
use answer_service.Base.{ℕ, ◌≡◌, refl, subst, Bool, none, some, [], ◌∷◌}
use answer_service.Base.Int.{pos}
use answer_service.Base.Text.{Text, text, text_beq, strip, lstrip, is_space}
use answer_service.Base.Dict.{Dict}
use answer_service.Errors.{ok, ◌>>=◌}
use answer_service.Application.Ports.{SourceRow}
use answer_service.Application.Handlers.Sync.{to_desired_pair, content_of}
use answer_service.Indexing.Values.{source_reference, external_id, question, answer, category}
use answer_service.Indexing.Pair.{QaPair, DesiredPair, register}
use answer_service.Indexing.Task.{IndexingTask, queue, to_start, perform, start}
use answer_service.Analytics.Values.{QueryLog, search, succeeded}
use answer_service.Persistence.Made.{IsMade}
use answer_service.Persistence.Rows.{store_task, load_task, store_pair, load_pair}
use answer_service.Persistence.Rows.RoundTrip.{
  IsRun, is_queued, is_called, start_checked, written, load_task-store_task,
}
use answer_service.Persistence.Rows.Pairs.{IsSynced, is_registered, load_pair-store_pair}
use answer_service.Sources.Reader.{
  Cell, null, text_cell, moment_cell, naive, Frame, Parsers, parse, read_rows, validate, to_row,
  required_columns, is_excel, ensure_columns, missing_columns, named, to_datetime,
}
use answer_service.Sources.Reader.Readable.{Reads, IsRectangular, read_rows-validated}
use answer_service.Sources.Reader.Nulls.{IsEmptyRow, to_desired_pair-null}
use answer_service.Tests.Data.{a_source}

-- JSONB, here in the order of the program.
abbrev jsonb : (A : Type 0) → Dict Text A → Dict Text A
jsonb A d = d

abbrev queued_task : IndexingTask
unfolding queue
queued_task = (queue 3 1 a_source).0

abbrev started_task : IndexingTask
unfolding queue
started_task = record queued_task {
  status = answer_service.Indexing.Task.running;
  started_at = some 5;
}

a_source_made : IsMade source_reference a_source
unfolding source_reference strip lstrip is_space
a_source_made = record { argument = text "f.csv"; accepted = refl }

started-IsRun : IsRun started_task
unfolding perform start queue
started-IsRun =
    is_called started_task (to_start 5) (is_queued 3 1 a_source a_source_made) (start_checked 5)
      refl

load_task-store_task_example :
    load_task (written jsonb (λ A d k. refl) (store_task started_task)) ≡ ok started_task
load_task-store_task_example = load_task-store_task jsonb (λ A d k. refl) started_task started-IsRun

abbrev a_row : SourceRow
a_row = record {
  external_id = text "a";
  question = text "why";
  answer = text "yes";
  category = text "x";
  updated_at = 4;
}

abbrev a_desired : DesiredPair
a_desired = record {
  external_id = record { value = text "a" };
  content = record {
    question = record { content = text "why" };
    answer = record { content = text "yes" };
    category = record { value = text "x" };
  };
  source_updated_at = 4;
}

accepted_row : to_desired_pair a_row ≡ ok a_desired
unfolding to_desired_pair content_of external_id question answer category strip lstrip is_space
accepted_row = refl

abbrev a_pair : QaPair
unfolding register
a_pair = (register 7 a_desired.external_id a_desired.content 4).0

a_pair-IsSynced : IsSynced a_pair
unfolding register
a_pair-IsSynced = is_registered 7 a_row a_desired accepted_row

load_pair-store_pair_example : load_pair (store_pair a_pair) ≡ ok a_pair
load_pair-store_pair_example = load_pair-store_pair a_pair a_pair-IsSynced

abbrev a_log : QueryLog ℕ
a_log = record {
  id = 8;
  content = record { content = text "why" };
  kind = search;
  outcome = record { results_count = pos 1; top_score = some 2 };
  latency = record { milliseconds = pos 3 };
  execution = record { status = succeeded; error_code = none };
  category = none;
  occurred_at = 9;
}

-- A file whose second row has a text for its timestamp that is none.
abbrev a_frame : Frame Bool
a_frame = record {
  columns = required_columns;
  rows =
      (text_cell (text "a") ∷ text_cell (text "q") ∷ null ∷ null ∷ moment_cell (naive 4) ∷ [])
      ∷ (text_cell (text "b") ∷ null ∷ null ∷ null ∷ text_cell (text "soon") ∷ [])
      ∷ [];
}

abbrev a_parser : Parsers Bool
a_parser = record {
  read_excel = λ b. none;
  read_csv = λ b. some a_frame;
  fromisoformat = λ s. none;
  str_moment = λ m. [];
  str_other = λ v. [];
}

frame_parsed : {f g : Frame Bool} → ok f ≡ ok g → f ≡ g
frame_parsed h = cc h

read_rows-validated_example :
    (frame : Frame Bool) × (parse a_parser [] ≡ ok frame)
    × Reads a_parser frame (read_rows a_parser [])
unfolding parse validate is_excel ensure_columns missing_columns text_beq
read_rows-validated_example = read_rows-validated a_parser [] refl (λ f h.
    subst (λ (x : Frame Bool). IsRectangular a_parser x) (frame_parsed h)
      (record { as_long = (refl, (refl, tt)) }))

abbrev null_row : Dict Text (Cell Bool)
null_row = named required_columns (null ∷ null ∷ null ∷ null ∷ moment_cell (naive 4) ∷ [])

null_row-IsEmptyRow : IsEmptyRow a_parser null_row 4
unfolding to_datetime text_beq
null_row-IsEmptyRow = record {
  external_id = refl;
  question = refl;
  answer = refl;
  category = refl;
  updated_at = (moment_cell (naive 4), refl, refl);
}

to_desired_pair-null_example :
    (pair : DesiredPair) × ((to_row a_parser null_row >>= λ r. to_desired_pair r) ≡ ok pair)
    × (pair.external_id.value ≡ text "None")
    × (pair.content.question.content ≡ text "None")
    × (pair.content.answer.content ≡ text "None")
    × (pair.content.category.value ≡ text "None")
    × (pair.source_updated_at ≡ 4)
to_desired_pair-null_example = to_desired_pair-null a_parser null_row 4 null_row-IsEmptyRow
