-- ===== src/Search/Hybrid/Quiet.antt =====
-- A consultation changes nothing that the retrievers and the generator leave alone.
use answer_service.Base.{ℕ, refl, List, [], ◌∷◌, map}
use answer_service.Base.Text.{Text}
use answer_service.Application.Io.{Io, lift, Keeps, >>=-Keeps}
use answer_service.Indexing.Values.{ExternalId}
use answer_service.Search.Values.{Float, SearchCriteria, AnswerText, grounded_answer}
use answer_service.Search.Fusion.{fuse}
use answer_service.Search.Hybrid.{
  QaPairView, SearchPorts, SearchHit, search, search_qa_pairs, source_ids, answer_from,
  ask_question,
}

module _ {S R : Type 0} (float : Float) (observe : S → R) (ports : SearchPorts S float) where
  -- The retrievers and the catalog's views only read.
  pub record ReadsQuietly : Type 0 where
    pub retrieve_dense : (c : SearchCriteria) → Keeps observe (ports.retrieve_dense c)
    pub retrieve_lexical : (c : SearchCriteria) → Keeps observe (ports.retrieve_lexical c)
    pub read_views : (is : List ExternalId) → Keeps observe (ports.read_views is)

module _ {S R : Type 0} (float : Float) (observe : S → R) (ports : SearchPorts S float) (k : ℕ)
    (order : List ExternalId → List ExternalId) (quiet : ReadsQuietly float observe ports) where
  search-Keeps : (c : SearchCriteria) → Keeps observe (search float ports k order c)
  unfolding search
  search-Keeps c = >>=-Keeps observe (ports.retrieve_dense c) _ (quiet.retrieve_dense c) λ dense.
      >>=-Keeps observe (ports.retrieve_lexical c) _ (quiet.retrieve_lexical c) λ lexical.
        >>=-Keeps observe (lift (fuse float k order dense lexical c.top_k)) _ (λ s. refl)
          λ ranked.
            >>=-Keeps observe (ports.read_views (map (λ r. r.external_id) ranked)) _
              (quiet.read_views _) (λ views s. refl)

  pub search_qa_pairs-Keeps :
      (c : SearchCriteria) → Keeps observe (search_qa_pairs float ports k order c)
  unfolding search_qa_pairs
  search_qa_pairs-Keeps c =
      >>=-Keeps observe (search float ports k order c) _ (search-Keeps c) (λ hits s. refl)

  module _ (generate : Text → List QaPairView → Io S AnswerText)
      (generate_keeps : (question : Text) (grounding : List QaPairView)
        → Keeps observe (generate question grounding)) where
    answer_from-Keeps :
        (c : SearchCriteria) (hits : List (SearchHit float))
        → Keeps observe (answer_from float ports k order generate c hits)
    unfolding answer_from
    answer_from-Keeps c [] = λ s. refl
    answer_from-Keeps c (h ∷ hs) =
        >>=-Keeps observe (generate c.query.content (map (λ x. x.pair) (h ∷ hs))) _
          (generate_keeps _ _)
          λ answer.
            >>=-Keeps observe (lift (source_ids float ports k order (h ∷ hs))) _ (λ s. refl)
              λ sources.
                >>=-Keeps observe (lift (grounded_answer answer sources)) _ (λ s. refl)
                  (λ grounded s. refl)

    pub ask_question-Keeps :
        (c : SearchCriteria) → Keeps observe (ask_question float ports k order generate c)
    unfolding ask_question
    ask_question-Keeps c =
        >>=-Keeps observe (search float ports k order c) _ (search-Keeps c) (answer_from-Keeps c)
