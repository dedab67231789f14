-- ===== src/Sources/Reader.antt =====
-- infrastructure/adapters/source_file/polars_source_file_reader.py. The parsers of polars,
-- `datetime.fromisoformat` and `str` of a value that is no text are parameters. The file's name only
-- stands in messages and is left out.
pub mod Readable
pub mod Nulls
use answer_service.Base.{
  nat_beq, ℕ, Bool, true, false, not, ◌||◌, Option, none, some, List, [], ◌∷◌, if◌then◌else◌,
  contains, filter, length,
}
use answer_service.Base.Text.{Text, text, text_beq, text_eq}
use answer_service.Base.Dict.{Dict, get}
use answer_service.Errors.{
  Result, ok, err, foreign, ◌>>=◌, ◌>>◌, unsupported_source_format, missing_source_columns,
}
use answer_service.Application.Ports.{SourceRow}

abbrev pub Bytes : Type 0
Bytes = List ℕ

-- A datetime, in microseconds: its clock where it has no time zone, else its moment in UTC.
pub data Moment : Type 0 where
  naive : ℕ → Moment
  aware : ℕ → Moment

-- A value of a data frame; `null` is None.
pub data Cell (V : Type 0) : Type 0 where
  null : Cell V
  text_cell : Text → Cell V
  moment_cell : Moment → Cell V
  other_cell : V → Cell V

pub record Frame (V : Type 0) : Type 0 where
  pub columns : List Text
  pub rows : List (List (Cell V))

-- What the code takes from polars and from the standard library; `none` is an exception.
pub record Parsers (V : Type 0) : Type 0 where
  pub read_excel : Bytes → Option (Frame V)
  pub read_csv : Bytes → Option (Frame V)
  pub fromisoformat : Text → Option Moment
  pub str_moment : Moment → Text
  pub str_other : V → Text

abbrev pub required_columns : List Text
required_columns =
    text "external_id" ∷ text "question" ∷ text "answer" ∷ text "category" ∷ text "updated_at" ∷ []

abbrev pub xlsx_magic : Bytes
xlsx_magic = 80 ∷ 75 ∷ 3 ∷ 4 ∷ []

abbrev pub xls_magic : Bytes
xls_magic = 208 ∷ 207 ∷ 17 ∷ 224 ∷ []

-- `content.startswith(prefix)`
abbrev pub starts_with : Bytes → Bytes → Bool
starts_with content [] = true
starts_with [] (b ∷ prefix) = false
starts_with (a ∷ content) (b ∷ prefix) =
    let rest = starts_with content prefix in if nat_beq a b then rest else false

-- `_is_excel`
unfoldable pub is_excel : Bytes → Bool
is_excel content = starts_with content xlsx_magic || starts_with content xls_magic

-- `zip`, as `iter_rows(named=True)` makes a dictionary of a row.
abbrev pub named : {V : Type 0} → List Text → List V → Dict Text V
named [] cells = []
named (c ∷ columns) [] = []
named (c ∷ columns) (v ∷ cells) = (c, v) ∷ named columns cells

-- `row[column]`, a KeyError where the row has no such column.
abbrev pub found {ℓ} : {A : Type ℓ} → Option A → Result A
found none = err foreign
found (some a) = ok a

-- `moment if moment.tzinfo is not None else moment.replace(tzinfo=UTC)`
abbrev pub in_utc : Moment → ℕ
in_utc (naive n) = n
in_utc (aware n) = n

-- `_ensure_columns`, with `missing` as the required columns that the frame lacks.
unfoldable pub missing_columns : {V : Type 0} → Frame V → List Text
missing_columns frame = filter (λ c. not (contains frame.columns c)) required_columns

abbrev no_columns : List Text → Bool
no_columns [] = true
no_columns (c ∷ columns) = false

unfoldable pub ensure_columns : {V : Type 0} → Frame V → Result (Unit {0})
unfolding missing_columns
ensure_columns frame =
    if nat_beq (length (missing_columns frame)) (length required_columns)
    then err unsupported_source_format
    else if no_columns (missing_columns frame)
    then ok tt
    else err missing_source_columns

-- `_to_datetime` of what `fromisoformat` gives.
iso_datetime : Option Moment → Result ℕ
iso_datetime none = err unsupported_source_format
iso_datetime (some m) = ok (in_utc m)

module _ {V : Type 0} (parsers : Parsers V) where
  -- `_parse`
  parsed : Option (Frame V) → Result (Frame V)
  parsed none = err unsupported_source_format
  parsed (some frame) = ok frame

  unfoldable pub parse : Bytes → Result (Frame V)
  unfolding is_excel parsed
  parse content =
      parsed (if is_excel content then parsers.read_excel content else parsers.read_csv content)

  -- `str(value)`
  abbrev pub str : Cell V → Text
  str null = text "None"
  str (text_cell s) = s
  str (moment_cell m) = parsers.str_moment m
  str (other_cell v) = parsers.str_other v

  -- `_to_datetime`
  unfoldable pub to_datetime : Cell V → Result ℕ
  unfolding iso_datetime
  to_datetime (moment_cell m) = ok (in_utc m)
  to_datetime v = iso_datetime (parsers.fromisoformat (str v))

  -- `_to_row`
  unfoldable pub to_row : Dict Text (Cell V) → Result SourceRow
  unfolding to_datetime
  to_row row = do
    i ← found (get row (text "external_id"))
    q ← found (get row (text "question"))
    a ← found (get row (text "answer"))
    c ← found (get row (text "category"))
    u ← found (get row (text "updated_at"))
    moment ← to_datetime u
    ok (record {
      external_id = str i;
      question = str q;
      answer = str a;
      category = str c;
      updated_at = moment;
    })

  -- The comprehension over the rows.
  unfoldable pub to_rows : List Text → List (List (Cell V)) → Result (List SourceRow)
  unfolding to_row
  to_rows columns [] = ok []
  to_rows columns (cells ∷ rest) = do
    row ← to_row (named columns cells)
    rows ← to_rows columns rest
    ok (row ∷ rows)

  -- `validate`
  unfoldable pub validate : Bytes → Result (Unit {0})
  unfolding parse
  validate content = do frame ← parse content; ensure_columns frame

  -- `read_rows`
  unfoldable pub read_rows : Bytes → Result (List SourceRow)
  unfolding parse ensure_columns to_rows
  read_rows content = do
    frame ← parse content
    ensure_columns frame
    to_rows frame.columns frame.rows
