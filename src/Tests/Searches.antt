-- ===== src/Tests/Searches.antt =====
-- Fusion, search and answers, over whole numbers in place of floats.
use answer_service.Base.{
  ℕ, ◌+◌, ◌/◌, ◌≡◌, refl, true, leb, none, some, List, [], ◌∷◌, map, arith, All,
}
use answer_service.Base.Int.{pos}
use answer_service.Base.Text.{Text, text, text_beq, text_leb}
use answer_service.Base.Dict.{Dict}
use answer_service.Base.Sorting.{swap, Sorted}
use answer_service.Errors.{ok}
use answer_service.Application.Io.{Io}
use answer_service.Indexing.Values.{ExternalId}
use answer_service.Search.Values.{
  Float, ScoredCandidate, RankedResult, TopK, SearchCriteria, AnswerText, GroundedAnswer,
}
use answer_service.Search.Fusion.{fuse}
use answer_service.Search.Fusion.Order.{FloatLaws}
use answer_service.Search.Fusion.Ranking.{ranks_before, unranked, fuse-deterministic}
use answer_service.Search.Hybrid.{QaPairView, SearchPorts, SearchHit, search}
use answer_service.Search.Hybrid.Grounding.{Shows, search-Sorted}
use answer_service.Tests.Data.{id_a, id_b}

abbrev pub whole : Float
whole = record {
  F = ℕ;
  zero = 0;
  add = λ a b. a + b;
  dense_over = λ n. 10000 / n;
  lexical_over = λ n. 5000 / n;
  le = leb;
  is_finite = λ a. true;
}

whole-FloatLaws : FloatLaws whole
whole-FloatLaws = record {
  total = λ a b p q. ground arith;
  trans = λ a b c p q r h k. ground arith;
}

abbrev candidate : ExternalId → ScoredCandidate whole
candidate i = record { external_id = i; score = record { value = 7 } }

abbrev dense : List (ScoredCandidate whole)
dense = candidate id_b ∷ candidate id_a ∷ []

abbrev lexical : List (ScoredCandidate whole)
lexical = candidate id_a ∷ []

abbrev pub best_1 : TopK
best_1 = record { value = pos 1 }

abbrev backwards : List ExternalId → List ExternalId
backwards (i ∷ j ∷ []) = j ∷ i ∷ []
backwards is = is

abbrev ranked : List (RankedResult whole)
ranked =
    record {
      external_id = id_a;
      rank = 1;
      scores = record {
        final = record { value = 10000 / 62 + 5000 / 61 };
        dense = some (record { value = 7 });
        lexical = some (record { value = 7 });
      };
    }
    ∷ []

fuse-deterministic_example :
    fuse whole 60 (λ is. is) dense lexical best_1 ≡ fuse whole 60 backwards dense lexical best_1
unfolding fuse text_beq
fuse-deterministic_example =
    fuse-deterministic whole whole-FloatLaws 60 dense lexical (λ is. is) backwards best_1
      (swap id_b id_a [])

abbrev view_a : QaPairView
view_a = record {
  external_id = text "a";
  question = text "q";
  answer = text "yes";
  category = text "x";
}

abbrev pub whole_views : Dict ExternalId QaPairView
whole_views = (id_a, view_a) ∷ []

-- Retrieves the two lists, over a catalog that has lost the pair b.
abbrev ports : SearchPorts ℕ whole
ports = record {
  retrieve_dense = λ c s. (ok dense, s);
  retrieve_lexical = λ c s. (ok lexical, s);
  read_views = λ is s. (ok whole_views, s);
}

abbrev criteria : SearchCriteria
criteria = record {
  query = record { content = text "how" };
  top_k = record { value = pos 5 };
  category = none;
}

abbrev hit_a : SearchHit whole
hit_a = record {
  result = record {
    external_id = id_a;
    rank = 1;
    scores = record {
      final = record { value = 10000 / 62 + 5000 / 61 };
      dense = some (record { value = 7 });
      lexical = some (record { value = 7 });
    };
  };
  pair = view_a;
}

search-Sorted_example :
    Sorted (ranks_before whole) (unranked whole hit_a.result ∷ [])
    × (found : List (RankedResult whole)) × (views : Dict ExternalId QaPairView) × (s' : ℕ)
    × (ports.read_views (map (λ r. r.external_id) found) s' ≡ (ok views, 0))
    × All (Shows whole views) (hit_a ∷ [])
unfolding search text_beq text_leb
search-Sorted_example =
    search-Sorted whole whole-FloatLaws ports 60 (λ is. is) criteria 0 0 (hit_a ∷ []) refl

abbrev generate : Text → List QaPairView → Io ℕ AnswerText
generate q vs s = (ok (record { content = text "so" }), s)

abbrev answer_a : GroundedAnswer
answer_a = record { answer = record { content = text "so" }; sources = id_a ∷ [] }
