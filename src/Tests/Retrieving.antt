-- ===== src/Tests/Retrieving.antt =====
-- The lexical retriever over a catalog of one pair.
use answer_service.Base.{true, none, List, [], ◌∷◌}
use answer_service.Base.Text.{Text, text, text_leb}
use answer_service.Search.Values.{ScoredCandidate, SearchCriteria}
use answer_service.Search.Retrievers.{FullText, Floors}
use answer_service.Tests.Data.{id_a}
use answer_service.Tests.Searches.{whole, best_1}

abbrev full_text : FullText whole Text
full_text = record {
  lexemes = λ s. s ∷ [];
  to_tsquery = λ s. s;
  matches = λ q p. true;
  ts_rank_cd = λ q p. 4;
  times = λ a b. a;
  text_le = text_leb;
}

abbrev floors : Floors whole
floors = record { lexical_relative_floor = 1; lexical_absolute_floor = 2; dense_score_floor = 0 }

abbrev criteria : SearchCriteria
criteria = record { query = record { content = text "why" }; top_k = best_1; category = none }

abbrev found : List (ScoredCandidate whole)
found = record { external_id = id_a; score = record { value = 4 } } ∷ []
