-- ===== src/Sources/Reader/Readable.antt =====
-- What is left to go wrong in a file that `validate` has accepted.
use answer_service.Base.{
  ℕ, suc, ◌≡◌, refl, ap, Bool, true, false, ◌⊎◌, inl, inr, Option, none, some, List, [], ◌∷◌, all,
  All, contains, length, arith, ◌==◌, Bool-cases,
}
use answer_service.Base.Text.{Text, text, text_eq}
use answer_service.Base.Dict.{get}
use answer_service.Errors.{Result, ok, err, unsupported_source_format, ◌>>=◌, ◌>>◌}
use answer_service.Application.Ports.{SourceRow}
use answer_service.Sources.Reader.{
  Bytes, Moment, Cell, null, text_cell, moment_cell, other_cell, in_utc, Frame, Parsers, named,
  missing_columns, ensure_columns, parse, str, iso_datetime, to_datetime, to_row, to_rows, validate,
  read_rows,
}

get-named :
    {V : Type 0} (columns : List Text) (cells : List V) (c : Text)
    → contains columns c ≡ true
    → length cells ≡ length columns
    → (v : V) × (get (named columns cells) c ≡ some v)
get-named [] cells c h k = cc h
get-named (d ∷ columns) [] c h k = let no : ⊥ = omega (arith, k) in elim no [ ]
get-named (d ∷ columns) (v ∷ cells) c h k = elim (Bool-cases (d == c)) [
  | inl e ↦ (v, rw e refl)
  | inr e ↦ rw e (get-named columns cells c (rw e at h) (omega (arith, k)))
]

ensure_columns_has :
    {V : Type 0} (frame : Frame V)
    → ensure_columns frame ≡ ok tt
    → (contains frame.columns (text "external_id") ≡ true)
      × (contains frame.columns (text "question") ≡ true)
      × (contains frame.columns (text "answer") ≡ true)
      × (contains frame.columns (text "category") ≡ true)
      × (contains frame.columns (text "updated_at") ≡ true)
unfolding ensure_columns missing_columns
ensure_columns_has frame h = ground arith

iso_datetime-cases :
    (o : Option Moment)
    → ((m : ℕ) × (iso_datetime o ≡ ok m)) ⊎ (iso_datetime o ≡ err unsupported_source_format)
unfolding iso_datetime
iso_datetime-cases none = inr refl
iso_datetime-cases (some m) = inl (in_utc m, refl)

module _ {V : Type 0} (parsers : Parsers V) where
  to_datetime-cases :
      (v : Cell V)
      → ((m : ℕ) × (to_datetime parsers v ≡ ok m))
        ⊎ (to_datetime parsers v ≡ err unsupported_source_format)
  unfolding to_datetime iso_datetime
  to_datetime-cases (moment_cell m) = inl (in_utc m, refl)
  to_datetime-cases null = iso_datetime-cases (parsers.fromisoformat (str parsers null))
  to_datetime-cases (text_cell s) = iso_datetime-cases (parsers.fromisoformat s)
  to_datetime-cases (other_cell v) =
      iso_datetime-cases (parsers.fromisoformat (parsers.str_other v))

  abbrev is_ok : Result ℕ → Bool
  is_ok (ok m) = true
  is_ok (err e) = false

  -- The row's timestamp can be read.
  unfoldable pub has_moment : List Text → List (Cell V) → Bool
  has_moment columns cells = elim (get (named columns cells) (text "updated_at")) [
    | none ↦ false
    | some v ↦ is_ok (to_datetime parsers v)
  ]

  -- polars' data frames: each row is as long as the list of columns.
  pub record IsRectangular (frame : Frame V) : Type 0 where
    pub as_long : All (λ (cells : List (Cell V)). length cells ≡ length frame.columns) frame.rows

  -- What reading the rows of a frame gives.
  pub data Reads (frame : Frame V) : Result (List SourceRow) → Type 0 where
    all_read :
        (rows : List SourceRow)
        → all (has_moment frame.columns) frame.rows ≡ true
        → length rows ≡ length frame.rows
        → Reads frame (ok rows)
    one_unreadable :
        all (has_moment frame.columns) frame.rows ≡ false
        → Reads frame (err unsupported_source_format)

  abbrev RowReads : (columns : List Text) → (cells : List (Cell V)) → Type 0
  RowReads columns cells =
      ((r : SourceRow) × (to_row parsers (named columns cells) ≡ ok r)
        × (has_moment columns cells ≡ true))
      ⊎ ((to_row parsers (named columns cells) ≡ err unsupported_source_format)
          × (has_moment columns cells ≡ false))

  has_moment-is_ok :
      (columns : List Text) (cells : List (Cell V)) (v : Cell V) (r : Result ℕ)
      → get (named columns cells) (text "updated_at") ≡ some v
      → to_datetime parsers v ≡ r
      → has_moment columns cells ≡ is_ok r
  unfolding has_moment
  has_moment-is_ok columns cells v r p q = rw (p, q, has_moment) refl

  to_row-cases :
      (frame : Frame V) (cells : List (Cell V))
      → ensure_columns frame ≡ ok tt
      → length cells ≡ length frame.columns
      → RowReads frame.columns cells
  unfolding to_row
  to_row-cases frame cells h k =
      let has = ensure_columns_has frame h in
      let i = get-named frame.columns cells (text "external_id") has.0 k in
      let q = get-named frame.columns cells (text "question") has.1 k in
      let a = get-named frame.columns cells (text "answer") has.2 k in
      let c = get-named frame.columns cells (text "category") has.3 k in
      let u = get-named frame.columns cells (text "updated_at") has.4 k in
      rw (i.1, q.1, a.1, c.1, u.1)
        (elim (to_datetime-cases u.0) [
          | inl m ↦ rw m.1 (inl (_, refl, has_moment-is_ok frame.columns cells u.0 _ u.1 m.1))
          | inr e ↦ rw e (inr (refl, has_moment-is_ok frame.columns cells u.0 _ u.1 e))
        ])

  with_first :
      (frame : Frame V) (cells : List (Cell V)) (rest : List (List (Cell V))) (row : SourceRow)
      {r : Result (List SourceRow)}
      → has_moment frame.columns cells ≡ true
      → Reads (record frame { rows = rest }) r
      → Reads (record frame { rows = cells ∷ rest }) (r >>= λ rows. ok (row ∷ rows))
  with_first frame cells rest row m (all_read rows a k) =
      all_read (row ∷ rows) (rw (m, a) refl) (ap suc k)
  with_first frame cells rest row m (one_unreadable a) = one_unreadable (rw (m, a) refl)

  to_rows-Reads :
      (frame : Frame V) (rows : List (List (Cell V)))
      → ensure_columns frame ≡ ok tt
      → All (λ (cells : List (Cell V)). length cells ≡ length frame.columns) rows
      → Reads (record frame { rows = rows }) (to_rows parsers frame.columns rows)
  unfolding to_rows
  to_rows-Reads frame [] h long = all_read [] refl refl
  to_rows-Reads frame (cells ∷ rest) h long = elim (to_row-cases frame cells h long.0) [
    | inl r ↦ rw r.1 (with_first frame cells rest r.0 r.2 (to_rows-Reads frame rest h long.1))
    | inr e ↦ rw e.0 (one_unreadable (rw e.1 refl))
  ]

  -- Reading the rows of a file that `validate` has accepted reads every row exactly if every
  -- timestamp can be read, and else raises UnsupportedSourceFormatError.
  pub read_rows-validated :
      (content : Bytes)
      → validate parsers content ≡ ok tt
      → ((frame : Frame V) → parse parsers content ≡ ok frame → IsRectangular frame)
      → (frame : Frame V) × (parse parsers content ≡ ok frame)
        × Reads frame (read_rows parsers content)
  unfolding validate read_rows
  read_rows-validated content h rectangular = go (parse parsers content) refl h
    where
      go :
          (p : Result (Frame V))
          → parse parsers content ≡ p
          → (p >>= λ frame. ensure_columns frame) ≡ ok tt
          → (frame : Frame V) × (parse parsers content ≡ ok frame)
            × Reads frame
                (p >>= λ frame. ensure_columns frame >> to_rows parsers frame.columns frame.rows)
      go (ok frame) e k =
          (frame, e, rw k (to_rows-Reads frame frame.rows k (rectangular frame e).as_long))
      go (err x) e k = cc k
