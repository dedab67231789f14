-- ===== src/Search/Values.antt =====
-- domain/search/value_objects and domain/conversation/value_objects. A float is a value of a type `F`
-- with the operations of `Float`.
use answer_service.Base.{ℕ, Bool, true, not, Option, List, [], ◌∷◌, length, ltb, if◌then◌else◌}
use answer_service.Base.Int.{ℤ, pos, ltb_ℤ}
use answer_service.Base.Text.{Text}
use answer_service.Errors.{
  Result, ok, err, raise_if, ◌>>◌, invalid_score, top_k_out_of_range, empty_search_query,
  search_query_too_long, empty_category_filter, invalid_rank, conversation_empty_answer,
  ungrounded_answer,
}
use answer_service.Indexing.Values.{ExternalId, is_blank}

-- What the source uses of Python's float: `weight / n` for a weight of its settings and a positive
-- integer, `+`, `<=` and `math.isfinite`.
pub record Float : Type 1 where
  pub F : Type 0
  pub zero : F
  pub add : F → F → F
  pub dense_over : ℕ → F
  pub lexical_over : ℕ → F
  pub le : F → F → Bool
  pub is_finite : F → Bool

module _ (float : Float) where
  pub record Score : Type 0 where
    pub value : float.F

  unfoldable pub score : float.F → Result Score
  score v = do raise_if (not (float.is_finite v)) invalid_score; ok (record { value = v })

  pub record ScoredCandidate : Type 0 where
    pub external_id : ExternalId
    pub score : Score

  pub record Scores : Type 0 where
    pub final : Score
    pub dense : Option Score
    pub lexical : Option Score

  pub record RankedResult : Type 0 where
    pub external_id : ExternalId
    pub rank : ℕ
    pub scores : Scores

  unfoldable pub ranked_result : ExternalId → ℕ → Scores → Result RankedResult
  ranked_result i rank scores = do
    raise_if (ltb rank 1) invalid_rank
    ok (record { external_id = i; rank = rank; scores = scores })

pub record TopK : Type 0 where
  pub value : ℤ

unfoldable pub top_k : ℤ → Result TopK
top_k v = do
  raise_if (if ltb_ℤ v (pos 1) then true else ltb_ℤ (pos 20) v) top_k_out_of_range
  ok (record { value = v })

pub record SearchQuery : Type 0 where
  pub content : Text

unfoldable pub search_query : Text → Result SearchQuery
search_query s = do
  raise_if (is_blank s) empty_search_query
  raise_if (ltb 1024 (length s)) search_query_too_long
  ok (record { content = s })

pub record CategoryFilter : Type 0 where
  pub value : Text

unfoldable pub category_filter : Text → Result CategoryFilter
category_filter s = do raise_if (is_blank s) empty_category_filter; ok (record { value = s })

pub record SearchCriteria : Type 0 where
  pub query : SearchQuery
  pub top_k : TopK
  pub category : Option CategoryFilter

pub record AnswerText : Type 0 where
  pub content : Text

unfoldable pub answer_text : Text → Result AnswerText
answer_text s = do raise_if (is_blank s) conversation_empty_answer; ok (record { content = s })

pub record GroundedAnswer : Type 0 where
  pub answer : AnswerText
  pub sources : List ExternalId

unfoldable pub grounded_answer : AnswerText → List ExternalId → Result GroundedAnswer
grounded_answer t [] = err ungrounded_answer
grounded_answer t (i ∷ is) = ok (record { answer = t; sources = i ∷ is })
