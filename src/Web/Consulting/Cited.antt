-- ===== src/Web/Consulting/Cited.antt =====
-- What a question over HTTP is told, with the chat model behind it.
use answer_service.Base.{
  ℕ, ◌≡◌, ◌<◌, refl, subst, ap, true, false, Option, none, some, List, [], ◌∷◌, map, length, filter,
  contains, All, All-imp, ==_refl, arith,
}
use answer_service.Base.Int.{ℤ, pos}
use answer_service.Base.Text.{Text, text_eq}
use answer_service.Errors.{Error, Result, ok}
use answer_service.Application.Io.{lift, >>=-eq-ok}
use answer_service.Application.Ports.{Environment, TransactionManager}
use answer_service.Indexing.Values.{ExternalId, is_blank}
use answer_service.Analytics.Values as A
use answer_service.Analytics.Journal.{JournalPorts}
use answer_service.Analytics.Journal.Served.{record_query-eq-ok}
use answer_service.Search.Values.{Float, SearchCriteria, GroundedAnswer}
use answer_service.Search.Generator.{Content, generate, generate-NonBlank}
use answer_service.Search.Hybrid.{
  SearchPorts, SearchHit, AskQuestionResponse, results_count, top_score, search, ask_question,
}
use answer_service.Search.Hybrid.Answers.{Written, ask_question-Written}
use answer_service.Search.Hybrid.Grounding.{Grounded, ask_question-Grounded}
use answer_service.Web.Criteria.{CriteriaBody, CriteriaRequest, parse, to_criteria}
use answer_service.Web.Replies.{shown, validated-shown}
use answer_service.Web.Consulting.{
  AskSchemaResponse, recordable, source_schema, ask_schema, send_ask, ask_handler, post_ask,
}

ok_eq : {A : Type 0} {x y : A} → ok x ≡ ok y → x ≡ y
ok_eq h = cc h

module _ {A : Type 0} (f : A → Text) where
  contains-map : (xs : List A) → All (λ x. contains (map f xs) (f x) ≡ true) xs
  contains-map [] = tt
  contains-map (x ∷ xs) = (
    rw (==_refl (f x)) refl,
    All-imp (λ y. contains (map f (x ∷ xs)) (f y) ≡ true) (λ y h. ground (arith, h)) xs
        (contains-map xs),
  )

  filter-contains :
      (xs : List A) (ts : List Text)
      → All (λ x. contains ts (f x) ≡ true) xs
      → filter (λ x. contains ts (f x)) xs ≡ xs
  filter-contains [] ts h = refl
  filter-contains (x ∷ xs) ts (h, a) = rw h (ap (λ l. x ∷ l) (filter-contains xs ts a))

module _ (float : Float) where
  -- The sources that are shown of a grounded answer are all the pairs that were found, in their order.
  pub ask_schema-sources :
      (request_id : ℕ) (question : Text) (answer : Option GroundedAnswer)
      (hits : List (SearchHit float)) (took : ℤ)
      → Grounded float answer hits
      → (let x =
            ask_schema float request_id question
              (record { answer = answer; grounding = hits })
              took in
          x.sources ≡ map (source_schema float) hits)
  unfolding ask_schema
  ask_schema-sources i question none hits took empty = rw empty refl
  ask_schema-sources i question (some a) hits took (same, several) =
      ap (map (source_schema float)) (
        rw same (
          filter-contains (λ hit. hit.pair.external_id) hits _
            (contains-map (λ hit. hit.pair.external_id) hits)))

module _ {S : Type 0} (float : Float) (env : Environment S) (journal : JournalPorts S float.F)
    (manager : TransactionManager S) (type_name : Error → Text) (ports : SearchPorts S float)
    (k : ℕ) (order : List ExternalId → List ExternalId)
    (chat_model : (system human : Text) → S → Option Content × S) where
  abbrev pub Answered : Option Text → List (SearchHit float) → Type 0
  Answered none hits = hits ≡ []
  Answered (some words) hits = (is_blank words ≡ false) × (0 < length hits)

  -- The answer with its sources: a text that is not blank over the pairs that were found, all of them
  -- and in their order, of which there is one at least, or no answer and no source.
  pub record Cites (x : AskSchemaResponse) (c : SearchCriteria) : Type 0 where
    pub before : S
    pub after : S
    pub hits : List (SearchHit float)
    pub found : search float ports k order c before ≡ (ok hits, after)
    pub sources : x.sources ≡ map (source_schema float) hits
    pub answered : Answered x.answer hits

  ask_schema-Cites :
      (c : SearchCriteria) (s t : S) (request_id : ℕ) (question : Text) (took : ℤ)
      (r : AskQuestionResponse float)
      → ask_question float ports k order (generate chat_model) c s ≡ (ok r, t)
      → Cites (ask_schema float request_id question r took) c
  unfolding ask_schema
  ask_schema-Cites c s t i question took r h =
      let (u, found, written) =
        ask_question-Written float ports k order (generate chat_model)
          (λ a. is_blank a.content ≡ false) (generate-NonBlank chat_model) c s t r h in
      let grounded = ask_question-Grounded float ports k order (generate chat_model) c s t r h in
      cites r.answer r.grounding u found written grounded
    where
      cites :
          (answer : Option GroundedAnswer) (hits : List (SearchHit float)) (u : S)
          → search float ports k order c s ≡ (ok hits, u)
          → Written (λ a. is_blank a.content ≡ false) answer
          → Grounded float answer hits
          → Cites
              (ask_schema float i question (record { answer = answer; grounding = hits }) took)
              c
      cites none hits u found written empty = record {
        before = s;
        after = u;
        hits = hits;
        found = found;
        sources = ask_schema-sources float i question none hits took empty;
        answered = empty;
      }
      cites (some a) hits u found written (same, several) = record {
        before = s;
        after = u;
        hits = hits;
        found = found;
        sources = ask_schema-sources float i question (some a) hits took (same, several);
        answered = (written, several);
      }

  ask_handler-Cites :
      (r : CriteriaRequest) (s t : S) (x : AskSchemaResponse)
      → ask_handler float env journal manager type_name ports k order (generate chat_model) r s
        ≡ (ok x, t)
      → (c : SearchCriteria) × (to_criteria r ≡ ok c) × Cites x c
  unfolding ask_handler send_ask
  ask_handler-Cites r s t x h =
      let (started_at, s₁) = journal.perf_counter s in
      let (c, s₂, made, h₁) = >>=-eq-ok (lift (to_criteria r)) _ s₁ h in
      let (i, s₃) = env.uuid4 s₂ in
      let (response, s₄, sent, h₂) =
        >>=-eq-ok
          (send_ask float env journal manager type_name ports k order (generate chat_model) i c) _
          s₃ h₁ in
      let took = (journal.elapsed_ms started_at s₄).0 in
      let same : ask_schema float i r.query response took ≡ x =
        ok_eq (ap (λ (q : Result AskSchemaResponse × S). q.0) h₂) in
      let (u, served) =
        record_query-eq-ok journal manager
          (λ (q : AskQuestionResponse float). pos (results_count float q.grounding))
          (λ q. top_score float q.grounding) type_name
          (λ request. ask_question float ports k order (generate chat_model) c)
          (recordable A.ask i c) s₃ s₄ response sent in
      let answered = ask_question float ports k order (generate chat_model) c u in
      (
        c,
        ap (λ (q : Result SearchCriteria × S). q.0) made,
        subst (λ y. Cites y c) same
            (ask_schema-Cites c u answered.1 i r.query took response
              (ap (λ e. (e, answered.1)) served)),
      )

  -- A question whose answer is 200 is told a text that is not blank with its sources, which are all
  -- the pairs that one retrieval by its criteria found, in their order, and one at least; or no answer
  -- and no source, where that retrieval found nothing.
  pub post_ask-Cites :
      (body : CriteriaBody) (s t : S) (code : ℕ) (x : AskSchemaResponse)
      → post_ask float env journal manager type_name ports k order (generate chat_model) body s
        ≡ (shown code x, t)
      → (code ≡ 200)
        × (r : CriteriaRequest) × (c : SearchCriteria) × (parse (pos 3) body ≡ some r)
        × (to_criteria r ≡ ok c)
        × Cites x c
  unfolding post_ask
  post_ask-Cites body s t code x h =
      let (same, r, parsed, returned) =
        validated-shown 200 code (parse (pos 3) body)
          (ask_handler float env journal manager type_name ports k order (generate chat_model)) s t
          x h in
      let (c, made, cites) = ask_handler-Cites r s t x returned in (same, r, c, parsed, made, cites)
