-- ===== src/Web/Consulting.antt =====
-- routes/search/search_qa_pairs and routes/conversation/ask_question: handlers.py and schemas.py.
pub mod Recorded
pub mod Journalled
pub mod Cited
use answer_service.Base.{ℕ, Bool, Option, none, some, List, [], ◌∷◌, map, length, filter, contains}
use answer_service.Base.Int.{ℤ, pos}
use answer_service.Base.Text.{Text, text_eq}
use answer_service.Errors.{Error, Result}
use answer_service.Application.Io.{Io, pure, lift, ◌>>=◌}
use answer_service.Application.Ports.{Environment, TransactionManager}
use answer_service.Indexing.Values.{ExternalId}
use answer_service.Analytics.Values.{QueryKind}
use answer_service.Analytics.Values as A
use answer_service.Analytics.Journal.{RecordableQuery, JournalPorts, record_query}
use answer_service.Search.Values.{
  Float, Score, CategoryFilter, SearchCriteria, SearchQuery, AnswerText, GroundedAnswer,
}
use answer_service.Search.Hybrid.{
  QaPairView, SearchPorts, SearchHit, AskQuestionResponse, results_count, top_score,
  search_qa_pairs, ask_question,
}
use answer_service.Web.Criteria.{CriteriaBody, CriteriaRequest, parse, to_criteria}
use answer_service.Web.Replies.{Reply, validated}

abbrev pub category_value : Option CategoryFilter → Option Text
category_value none = none
category_value (some c) = some c.value

-- SearchQAPairsQuery and AskQuestionQuery, as the journal sees them.
unfoldable pub recordable : QueryKind → (request_id : ℕ) → SearchCriteria → RecordableQuery
recordable kind request_id criteria = record {
  request_id = request_id;
  journalled_text = criteria.query.content;
  journalled_kind = kind;
  journalled_category = category_value criteria.category;
}

-- SourceSchema
pub record SourceSchema : Type 0 where
  pub external_id : Text
  pub question : Text
  pub category : Text

-- AskSchemaResponse
pub record AskSchemaResponse : Type 0 where
  pub request_id : ℕ
  pub query : Text
  pub answer : Option Text
  pub sources : List SourceSchema
  pub duration_ms : ℤ

module _ (float : Float) where
  -- ScoresSchema
  pub record ScoresSchema : Type 0 where
    pub final : float.F
    pub dense : Option float.F
    pub lexical : Option float.F

  -- SearchResultSchema
  pub record SearchResultSchema : Type 0 where
    pub external_id : Text
    pub rank : ℕ
    pub question : Text
    pub answer : Text
    pub category : Text
    pub scores : ScoresSchema

  -- SearchSchemaResponse
  pub record SearchSchemaResponse : Type 0 where
    pub request_id : ℕ
    pub query : Text
    pub total : ℕ
    pub duration_ms : ℤ
    pub results : List SearchResultSchema

  abbrev score_value : Option (Score float) → Option float.F
  score_value none = none
  score_value (some s) = some s.value

  -- `SearchResultSchema.of`
  unfoldable pub result_schema : SearchHit float → SearchResultSchema
  result_schema hit = record {
    external_id = hit.pair.external_id;
    rank = hit.result.rank;
    question = hit.pair.question;
    answer = hit.pair.answer;
    category = hit.pair.category;
    scores = record {
      final = hit.result.scores.final.value;
      dense = score_value hit.result.scores.dense;
      lexical = score_value hit.result.scores.lexical;
    };
  }

  -- `SearchSchemaResponse.of`
  unfoldable pub search_schema :
      (request_id : ℕ)
      → SearchQuery × List (SearchHit float)
      → (duration_ms : ℤ) → SearchSchemaResponse
  unfolding result_schema
  search_schema request_id (query, hits) duration_ms = record {
    request_id = request_id;
    query = query.content;
    total = length hits;
    duration_ms = duration_ms;
    results = map result_schema hits;
  }

  -- The set of the cited ids, as a list.
  abbrev pub cited : Option GroundedAnswer → List Text
  cited none = []
  cited (some a) = map (λ i. i.value) a.sources

  abbrev pub answer_content : Option GroundedAnswer → Option Text
  answer_content none = none
  answer_content (some a) = some a.answer.content

  abbrev pub source_schema : SearchHit float → SourceSchema
  source_schema hit = record {
    external_id = hit.pair.external_id;
    question = hit.pair.question;
    category = hit.pair.category;
  }

  -- `AskSchemaResponse.of`
  unfoldable pub ask_schema :
      (request_id : ℕ) (question : Text)
      → AskQuestionResponse float
      → (duration_ms : ℤ) → AskSchemaResponse
  ask_schema request_id question response duration_ms = record {
    request_id = request_id;
    query = question;
    answer = answer_content response.answer;
    sources =
        map source_schema (
          filter (λ hit. contains (cited response.answer) hit.pair.external_id) response.grounding);
    duration_ms = duration_ms;
  }

  module _ {S : Type 0} (env : Environment S) (journal : JournalPorts S float.F)
      (manager : TransactionManager S) (type_name : Error → Text) (ports : SearchPorts S float)
      (k : ℕ) (order : List ExternalId → List ExternalId) where
    abbrev read : {A : Type 0} → (S → A × S) → Io S A
    read f s = (Result.ok (f s).0, (f s).1)

    -- `sender.send` of the query: the recording pipeline around SearchQAPairsHandler.
    unfoldable pub send_search :
        (request_id : ℕ) → SearchCriteria → Io S (SearchQuery × List (SearchHit float))
    unfolding recordable search_qa_pairs
    send_search request_id criteria =
        record_query journal manager
          (λ (r : SearchQuery × List (SearchHit float)). pos (results_count float r.1))
          (λ r. top_score float r.1) type_name
          (λ request. search_qa_pairs float ports k order criteria)
          (recordable A.search request_id criteria)

    -- `search_qa_pairs_handler`
    unfoldable pub search_handler : CriteriaRequest → Io S (SearchSchemaResponse)
    unfolding send_search search_schema to_criteria
    search_handler request = do
      started_at ← read journal.perf_counter
      criteria ← lift (to_criteria request)
      request_id ← read env.uuid4
      response ← send_search request_id criteria
      took ← read (journal.elapsed_ms started_at)
      pure (search_schema request_id response took)

    -- POST /api/v1/search
    unfoldable pub post_search : CriteriaBody → S → Reply SearchSchemaResponse × S
    unfolding search_handler parse
    post_search body = validated 200 (parse (pos 5) body) search_handler

    module _ (generate : Text → List QaPairView → Io S AnswerText) where
      -- `sender.send` of the query: the recording pipeline around AskQuestionHandler.
      unfoldable pub send_ask : (request_id : ℕ) → SearchCriteria → Io S (AskQuestionResponse float)
      unfolding recordable ask_question
      send_ask request_id criteria =
          record_query journal manager
            (λ (r : AskQuestionResponse float). pos (results_count float r.grounding))
            (λ r. top_score float r.grounding) type_name
            (λ request. ask_question float ports k order generate criteria)
            (recordable A.ask request_id criteria)

      -- `ask_question_handler`
      unfoldable pub ask_handler : CriteriaRequest → Io S AskSchemaResponse
      unfolding send_ask ask_schema to_criteria
      ask_handler request = do
        started_at ← read journal.perf_counter
        criteria ← lift (to_criteria request)
        request_id ← read env.uuid4
        response ← send_ask request_id criteria
        took ← read (journal.elapsed_ms started_at)
        pure (ask_schema request_id request.query response took)

      -- POST /api/v1/ask
      unfoldable pub post_ask : CriteriaBody → S → Reply AskSchemaResponse × S
      unfolding ask_handler parse
      post_ask body = validated 200 (parse (pos 3) body) ask_handler
