-- ===== src/Web/Consulting/Journalled.antt =====
-- What a search and a question over HTTP leave in the journal, and the id under which their caller
-- finds them there.
use answer_service.Base.{ℕ, ◌≡◌, sym, subst, ◌∙◌, ap, false, some, List, length, length-map, arith}
use answer_service.Base.Int.{ℤ, pos}
use answer_service.Base.Text.{Text, text_eq}
use answer_service.Errors.{Error}
use answer_service.Application.Io.{Io, Keeps}
use answer_service.Application.Ports.{Environment, TransactionManager}
use answer_service.Indexing.Values.{ExternalId, is_blank, is_blank_option}
use answer_service.Analytics.Values.{QueryLog}
use answer_service.Analytics.Values as A
use answer_service.Analytics.Journal.{JournalPorts}
use answer_service.Analytics.Journal.Rows.{JournalLaws, Leaves, record_query-Leaves}
use answer_service.Search.Values.{Float, SearchCriteria, SearchQuery, AnswerText}
use answer_service.Search.Hybrid.{
  QaPairView, SearchPorts, SearchHit, AskQuestionResponse, results_count, top_score,
  search_qa_pairs, ask_question,
}
use answer_service.Search.Hybrid.Quiet.{ReadsQuietly, search_qa_pairs-Keeps, ask_question-Keeps}
use answer_service.Web.Criteria.{CriteriaBody, CriteriaRequest, parse, parse-accepts}
use answer_service.Web.Replies.{validated}
use answer_service.Web.Consulting.{
  SearchSchemaResponse, AskSchemaResponse, recordable, search_schema, send_search, search_handler,
  post_search, source_schema, ask_schema, send_ask, ask_handler, post_ask,
}
use answer_service.Web.Consulting.Cited.{ask_schema-sources}
use answer_service.Search.Hybrid.Grounding.{Grounded, ask_question-Grounded}
use answer_service.Analytics.Journal.Served.{record_query-eq-ok}
use answer_service.Errors.{ok}
use answer_service.Web.Consulting.Recorded.{
  Journalled, criteria_of, to_criteria-criteria_of, recordable-IsJournallable, finish-Journalled,
}

module _ (float : Float) where
  -- The row has the id that is shown, and counts the results that are shown.
  abbrev pub ShowsResults : SearchSchemaResponse float → QueryLog float.F → Type 0
  ShowsResults x log = (log.id ≡ x.request_id) × (log.outcome.results_count ≡ pos x.total)

  -- The row has the id that is shown, and counts the sources that are shown.
  abbrev pub ShowsSources : AskSchemaResponse → QueryLog float.F → Type 0
  ShowsSources x log =
      (log.id ≡ x.request_id) × (log.outcome.results_count ≡ pos (length x.sources))

module _ {S : Type 0} (float : Float) (env : Environment S) (journal : JournalPorts S float.F)
    (manager : TransactionManager S) (rows : S → List (QueryLog float.F))
    (ports : SearchPorts S float) where
  -- The id generator and the retrievers read, and leave the journal alone.
  pub record ReadsOnly : Type 0 where
    pub uuid4 : (s : S) → rows (env.uuid4 s).1 ≡ rows s
    pub quiet : ReadsQuietly float rows ports

  module _ (k : ℕ) (order : List ExternalId → List ExternalId) (reads : ReadsOnly) where
    module _ (laws : JournalLaws journal manager rows) (type_name : Error → Text)
        (named : (e : Error) → is_blank (type_name e) ≡ false) where
      -- The rows before a route that has read the clock and the id generator.
      rows_asked : (s : S) → rows (env.uuid4 (journal.perf_counter s).1).1 ≡ rows s
      rows_asked s = reads.uuid4 (journal.perf_counter s).1 ∙ laws.perf_counter_keeps s

      -- A search whose words and category are not blank is told and journalled as one: under the id
      -- that its answer shows, the journal has one row more, with its words and the number of its
      -- results; a search that raised an error of the service has a row that names the error. Only an
      -- exception that is not the service's own leaves no row.
      pub post_search-Journalled :
          (body : CriteriaBody) (r : CriteriaRequest) (s : S)
          → parse (pos 5) body ≡ some r
          → is_blank r.query ≡ false
          → is_blank_option r.category ≡ false
          → Journalled
              (ShowsResults float)
              A.search
              type_name
              body.query
              (rows s)
              (post_search float env journal manager type_name ports k order body s).0
              (rows (post_search float env journal manager type_name ports k order body s).1)
      unfolding post_search search_handler send_search search_schema validated
      post_search-Journalled body r s parsed worded labelled =
          let (accepted, same) = parse-accepts (pos 5) body r parsed in
          let c = criteria_of r in
          let (started_at, s₁) = journal.perf_counter s in
          let (i, u) = env.uuid4 s₁ in
          let hits_counted : SearchQuery × List (SearchHit float) → ℤ =
            λ response. pos (results_count float response.1) in
          let sent =
            record_query-Leaves journal manager rows laws hits_counted
              (λ response. top_score float response.1) type_name (λ response. ground arith) named
              (recordable A.search i c)
              (recordable-IsJournallable A.search i r accepted worded labelled)
              (λ request. search_qa_pairs float ports k order c)
              (search_qa_pairs-Keeps float rows ports k order reads.quiet c) u in
          subst
            (λ (w : Text).
              Journalled (ShowsResults float) A.search type_name w (rows s)
                (post_search float env journal manager type_name ports k order body s).0
                (rows (post_search float env journal manager type_name ports k order body s).1))
            same
            (rw (parsed, to_criteria-criteria_of r accepted worded labelled)
              (finish-Journalled journal manager rows laws type_name hits_counted A.search
                (λ i response took. search_schema float i response took) (ShowsResults float)
                (λ response. Unit) (λ i response took log good id counted. (id, counted)) started_at
                i c (send_search float env journal manager type_name ports k order i c u) (rows s)
                (subst
                  (λ b.
                    Leaves rows hits_counted type_name (recordable A.search i c) b
                      (send_search float env journal manager type_name ports k order i c u))
                  (rows_asked s) sent)
                (λ response e. tt)))

      module _ (generate : Text → List QaPairView → Io S AnswerText)
          (generate_keeps : (question : Text) (grounding : List QaPairView)
            → Keeps rows (generate question grounding)) where
        ask_schema-ShowsSources :
            (question : Text) (i : ℕ) (response : AskQuestionResponse float) (took : ℤ)
            (log : QueryLog float.F)
            → Grounded float response.answer response.grounding
            → log.id ≡ i
            → log.outcome.results_count ≡ pos (results_count float response.grounding)
            → ShowsSources float (ask_schema float i question response took) log
        unfolding ask_schema
        ask_schema-ShowsSources question i response took log grounded id counted =
            let hits = response.grounding in
            let shown_all =
              ask_schema-sources float i question response.answer hits took grounded in
            (
              id,
              counted
                  ∙ ap pos
                      (sym (length-map (source_schema float) hits) ∙ ap length (sym shown_all)),
            )

        -- What is sent back of a question is grounded.
        send_ask-Grounded :
            (i : ℕ) (c : SearchCriteria) (u : S) (response : AskQuestionResponse float)
            → (send_ask float env journal manager type_name ports k order generate i c u).0
              ≡ ok response
            → Grounded float response.answer response.grounding
        unfolding send_ask
        send_ask-Grounded i c u response sent =
            let out = send_ask float env journal manager type_name ports k order generate i c u in
            let (v, served) =
              record_query-eq-ok journal manager
                (λ (q : AskQuestionResponse float). pos (results_count float q.grounding))
                (λ q. top_score float q.grounding) type_name
                (λ request. ask_question float ports k order generate c) (recordable A.ask i c) u
                out.1 response (ap (λ e. (e, out.1)) sent) in
            let answered = ask_question float ports k order generate c v in
            ask_question-Grounded float ports k order generate c v answered.1 response
              (ap (λ e. (e, answered.1)) served)

        -- A question is told and journalled as a search is, as a question: its row counts exactly the
        -- sources that its answer shows.
        pub post_ask-Journalled :
            (body : CriteriaBody) (r : CriteriaRequest) (s : S)
            → parse (pos 3) body ≡ some r
            → is_blank r.query ≡ false
            → is_blank_option r.category ≡ false
            → Journalled
                (ShowsSources float)
                A.ask
                type_name
                body.query
                (rows s)
                (post_ask float env journal manager type_name ports k order generate body s).0
                (rows
                  (post_ask float env journal manager type_name ports k order generate body s).1)
        unfolding post_ask ask_handler send_ask ask_schema validated
        post_ask-Journalled body r s parsed worded labelled =
            let (accepted, same) = parse-accepts (pos 3) body r parsed in
            let c = criteria_of r in
            let (started_at, s₁) = journal.perf_counter s in
            let (i, u) = env.uuid4 s₁ in
            let hits_counted : AskQuestionResponse float → ℤ =
              λ response. pos (results_count float response.grounding) in
            let sent =
              record_query-Leaves journal manager rows laws hits_counted
                (λ response. top_score float response.grounding) type_name
                (λ response. ground arith) named (recordable A.ask i c)
                (recordable-IsJournallable A.ask i r accepted worded labelled)
                (λ request. ask_question float ports k order generate c)
                (ask_question-Keeps float rows ports k order reads.quiet generate generate_keeps c)
                u in
            subst
              (λ (w : Text).
                Journalled (ShowsSources float) A.ask type_name w (rows s)
                  (post_ask float env journal manager type_name ports k order generate body s).0
                  (rows
                    (post_ask float env journal manager type_name ports k order generate body s).1))
              same
              (rw (parsed, to_criteria-criteria_of r accepted worded labelled)
                (finish-Journalled journal manager rows laws type_name hits_counted A.ask
                  (λ i response took. ask_schema float i r.query response took) (ShowsSources float)
                  (λ response. Grounded float response.answer response.grounding)
                  (ask_schema-ShowsSources r.query) started_at i c
                  (send_ask float env journal manager type_name ports k order generate i c u)
                  (rows s)
                  (subst
                    (λ b.
                      Leaves rows hits_counted type_name (recordable A.ask i c) b
                        (send_ask float env journal manager type_name ports k order generate i c u))
                    (rows_asked s) sent)
                  (send_ask-Grounded i c u)))
