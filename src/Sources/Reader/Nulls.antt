-- ===== src/Sources/Reader/Nulls.antt =====
-- Empty cells: polars reads them as null, and `str` makes the text "None" of that.
use answer_service.Base.{◌≡◌, refl, ℕ, some}
use answer_service.Base.Text.{Text, text, text_eq, strip, lstrip, is_space}
use answer_service.Base.Dict.{Dict, get}
use answer_service.Errors.{ok, ◌>>=◌}
use answer_service.Application.Handlers.Sync.{to_desired_pair, content_of}
use answer_service.Indexing.Values.{external_id, question, answer, category}
use answer_service.Indexing.Pair.{DesiredPair}
use answer_service.Sources.Reader.{Cell, null, Parsers, to_row, to_datetime}

module _ {V : Type 0} (parsers : Parsers V) where
  -- A row of a data frame whose four texts are null, with a timestamp that can be read.
  pub record IsEmptyRow (row : Dict Text (Cell V)) (moment : ℕ) : Type 0 where
    pub external_id : get row (text "external_id") ≡ some null
    pub question : get row (text "question") ≡ some null
    pub answer : get row (text "answer") ≡ some null
    pub category : get row (text "category") ≡ some null
    pub updated_at :
        (u : Cell V) × (get row (text "updated_at") ≡ some u) × (to_datetime parsers u ≡ ok moment)

  -- A row whose four texts are empty is not rejected: the reader and the mapper make a pair of it,
  -- with the text "None" for its id, its question, its answer and its category.
  pub to_desired_pair-null :
      (row : Dict Text (Cell V)) (moment : ℕ)
      → IsEmptyRow row moment
      → (pair : DesiredPair) × ((to_row parsers row >>= λ r. to_desired_pair r) ≡ ok pair)
        × (pair.external_id.value ≡ text "None")
        × (pair.content.question.content ≡ text "None")
        × (pair.content.answer.content ≡ text "None")
        × (pair.content.category.value ≡ text "None")
        × (pair.source_updated_at ≡ moment)
  unfolding to_row to_desired_pair content_of external_id question answer category strip lstrip
      is_space
  to_desired_pair-null row moment h = (
    _,
    rw (h.external_id, h.question, h.answer, h.category, h.updated_at.1, h.updated_at.2) refl,
    refl,
    refl,
    refl,
    refl,
    refl,
  )
