-- ===== src/Search/Hybrid.antt =====
-- application/common/services/hybrid_search.py, and the two queries over it:
-- application/queries/search/search_qa_pairs and application/queries/conversation/ask_question.
pub mod Grounding
pub mod Answers
pub mod Quiet
use answer_service.Base.{
  ℕ, ◌≡◌, Bool, true, false, Option, none, some, List, [], ◌∷◌, map, length, Eq, ◌==◌,
}
use answer_service.Base.Text.{Text}
use answer_service.Base.Dict.{Dict, get}
use answer_service.Errors.{Result, ok, err}
use answer_service.Errors as E
use answer_service.Application.Io.{Io, pure, raise, lift, ◌>>=◌, ◌>>◌}
use answer_service.Indexing.Values.{ExternalId, external_id, external_id_eq}
use answer_service.Search.Values.{
  Float, ScoredCandidate, RankedResult, SearchCriteria, SearchQuery, AnswerText, GroundedAnswer,
  grounded_answer,
}
use answer_service.Search.Fusion.{fuse}

-- QAPairView (ports/gateways/qa_catalog_query_gateway.py)
pub record QaPairView : Type 0 where
  pub external_id : Text
  pub question : Text
  pub answer : Text
  pub category : Text

-- ports/search and `QACatalogQueryGateway.read_views`
pub record SearchPorts (S : Type 0) (float : Float) : Type 0 where
  pub retrieve_dense : SearchCriteria → Io S (List (ScoredCandidate float))
  pub retrieve_lexical : SearchCriteria → Io S (List (ScoredCandidate float))
  pub read_views : List ExternalId → Io S (Dict ExternalId QaPairView)

module _ (float : Float) where
  pub record SearchHit : Type 0 where
    pub result : RankedResult float
    pub pair : QaPairView

  -- The response of AskQuestionHandler.
  pub record AskQuestionResponse : Type 0 where
    pub answer : Option GroundedAnswer
    pub grounding : List SearchHit

  -- `results_count` and `top_score` of both responses, over their hits.
  abbrev pub results_count : List SearchHit → ℕ
  results_count hits = length hits

  unfoldable pub top_score : List SearchHit → Option float.F
  top_score [] = none
  top_score (h ∷ hs) = some h.result.scores.final.value

  abbrev pub hit_if : Option QaPairView → RankedResult float → List SearchHit → List SearchHit
  hit_if none r rest = rest
  hit_if (some v) r rest = record { result = r; pair = v } ∷ rest

  -- The tuple comprehension: the ranked results that the catalog still has.
  unfoldable pub hits_of : Dict ExternalId QaPairView → List (RankedResult float) → List SearchHit
  hits_of views [] = []
  hits_of views (r ∷ rs) = hit_if (get views r.external_id) r (hits_of views rs)

  module _ {S : Type 0} (ports : SearchPorts S float) (k : ℕ)
      (order : List ExternalId → List ExternalId) where
    -- `HybridSearchService.search`; `asyncio.gather` starts the dense retriever first.
    unfoldable pub search : SearchCriteria → Io S (List SearchHit)
    unfolding fuse hits_of
    search criteria = do
      dense ← ports.retrieve_dense criteria
      lexical ← ports.retrieve_lexical criteria
      ranked ← lift (fuse float k order dense lexical criteria.top_k)
      views ← ports.read_views (map (λ r. r.external_id) ranked)
      pure (hits_of views ranked)

    -- `SearchQAPairsHandler.handle`
    unfoldable pub search_qa_pairs : SearchCriteria → Io S (SearchQuery × List SearchHit)
    unfolding search
    search_qa_pairs criteria = do hits ← search criteria; pure (criteria.query, hits)

    source_ids : List SearchHit → Result (List ExternalId)
    unfolding external_id
    source_ids [] = ok []
    source_ids (h ∷ hs) =
        E.◌>>=◌ (external_id h.pair.external_id) (λ i. E.◌>>=◌ (source_ids hs) (λ is. ok (i ∷ is)))

    module _ (generate : Text → List QaPairView → Io S AnswerText) where
      answer_from : SearchCriteria → List SearchHit → Io S AskQuestionResponse
      unfolding source_ids grounded_answer
      answer_from criteria [] = pure (record { answer = none; grounding = [] })
      answer_from criteria (h ∷ hs) = do
        answer ← generate criteria.query.content (map (λ x. x.pair) (h ∷ hs))
        sources ← lift (source_ids (h ∷ hs))
        grounded ← lift (grounded_answer answer sources)
        pure (record { answer = some grounded; grounding = h ∷ hs })

      -- `AskQuestionHandler.handle`
      unfoldable pub ask_question : SearchCriteria → Io S AskQuestionResponse
      unfolding search answer_from
      ask_question criteria = do grounding ← search criteria; answer_from criteria grounding
