-- ===== src/Web/Criteria.antt =====
-- presentation/http/v1/common/schemas.py: the body of the two endpoints that consult the catalog.
use answer_service.Base.{
  ◌≡◌, Bool, true, not, ◌&&◌, Option, none, some, length, leb, arith, if◌then◌else◌,
}
use answer_service.Base.Int.{ℤ, pos, ltb_ℤ}
use answer_service.Base.Text.{Text}
use answer_service.Errors.{
  Result, ok, err, result_map, ◌>>=◌, empty_search_query, empty_category_filter,
}
use answer_service.Indexing.Values.{is_blank, is_blank_option}
use answer_service.Search.Values.{
  top_k, search_query, CategoryFilter, category_filter, SearchCriteria,
}

pub record CriteriaRequest : Type 0 where
  pub query : Text
  pub top_k : ℤ
  pub category : Option Text

-- A JSON body of the right types; the two endpoints differ in the `top_k` that they fill in.
pub record CriteriaBody : Type 0 where
  pub query : Text
  pub top_k : Option ℤ
  pub category : Option Text

abbrev or_default : ℤ → Option ℤ → ℤ
or_default n none = n
or_default n (some k) = k

-- `min_length` and `max_length` of the query, `ge` and `le` of `top_k`.
unfoldable pub accepts : CriteriaRequest → Bool
accepts r =
    leb 1 (length r.query)
    && leb (length r.query) 1024
    && not (ltb_ℤ r.top_k (pos 1))
    && not (ltb_ℤ (pos 20) r.top_k)

-- The model of the body, where the framework accepts it.
unfoldable pub parse : (default_top_k : ℤ) → CriteriaBody → Option CriteriaRequest
unfolding accepts
parse n body =
    let r : CriteriaRequest = record {
      query = body.query;
      top_k = or_default n body.top_k;
      category = body.category;
    } in
    if accepts r then some r else none

filter_of : Option Text → Result (Option CategoryFilter)
unfolding category_filter
filter_of none = ok none
filter_of (some c) = result_map some (category_filter c)

-- `CriteriaRequest.to_criteria`
unfoldable pub to_criteria : CriteriaRequest → Result SearchCriteria
unfolding search_query top_k filter_of
to_criteria r = do
  query ← search_query r.query
  k ← top_k r.top_k
  category ← filter_of r.category
  ok (record { query = query; top_k = k; category = category })

abbrev pub filter_value : Option Text → Option CategoryFilter
filter_value none = none
filter_value (some s) = some (record { value = s })

-- Of what the framework accepts, exactly a blank query and a blank category are refused by the domain,
-- the query first: its own bounds on the length and on top_k are those of the framework. All else
-- makes criteria with the caller's words.
pub to_criteria-accepted :
    (r : CriteriaRequest)
    → accepts r ≡ true
    → to_criteria r ≡ (
        if is_blank r.query
        then err empty_search_query
        else if is_blank_option r.category
        then err empty_category_filter
        else ok (record {
          query = record { content = r.query };
          top_k = record { value = r.top_k };
          category = filter_value r.category;
        }))
unfolding accepts to_criteria filter_of search_query top_k category_filter
to_criteria-accepted r h = ground arith

pub parse-accepts :
    (n : ℤ) (body : CriteriaBody) (r : CriteriaRequest)
    → parse n body ≡ some r
    → (accepts r ≡ true) × (r.query ≡ body.query)
unfolding parse accepts
parse-accepts n body r h = ground arith
