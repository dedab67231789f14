-- ===== src/Web/Consulting/Recorded.antt =====
-- What a consultation over HTTP leaves in the journal, and the id under which its caller finds it.
use answer_service.Base.{
  ℕ, ◌≡◌, inl, inr, refl, sym, subst, ◌∙◌, true, false, Option, none, some, List, [], ◌∷◌, ◌++◌,
  length, ltb, arith,
}
use answer_service.Base.Int.{ℤ, pos}
use answer_service.Base.Text.{Text}
use answer_service.Errors.{Error, foreign, Result, ok, err}
use answer_service.Errors.Status.{service, handle}
use answer_service.Application.Io.{Io, continue}
use answer_service.Application.Ports.{TransactionManager}
use answer_service.Indexing.Values.{is_blank, is_blank_option}
use answer_service.Analytics.Values.{QueryKind, succeeded, QueryLog}
use answer_service.Analytics.Journal.{JournalPorts}
use answer_service.Analytics.Journal.Rows.{JournalLaws, IsJournallable, Leaves}
use answer_service.Search.Values.{SearchCriteria}
use answer_service.Web.Criteria.{
  CriteriaRequest, accepts, to_criteria, filter_value, to_criteria-accepted,
}
use answer_service.Web.Replies.{Reply, shown, refused, reply_of}
use answer_service.Web.Consulting.{category_value, recordable}

category_value-labelled :
    (c : Option Text)
    → is_blank_option c ≡ false
    → is_blank_option (category_value (filter_value c)) ≡ false
category_value-labelled none h = refl
category_value-labelled (some s) h = h

accepts-short : (r : CriteriaRequest) → accepts r ≡ true → ltb 1024 (length r.query) ≡ false
unfolding accepts
accepts-short r h = ground arith

-- The criteria of a body whose words and category are not blank.
abbrev pub criteria_of : CriteriaRequest → SearchCriteria
criteria_of r = record {
  query = record { content = r.query };
  top_k = record { value = r.top_k };
  category = filter_value r.category;
}

pub to_criteria-criteria_of :
    (r : CriteriaRequest)
    → accepts r ≡ true
    → is_blank r.query ≡ false
    → is_blank_option r.category ≡ false
    → to_criteria r ≡ ok (criteria_of r)
to_criteria-criteria_of r accepted worded labelled =
    rw (to_criteria-accepted r accepted, worded, labelled) refl

pub recordable-IsJournallable :
    (kind : QueryKind) (i : ℕ) (r : CriteriaRequest)
    → accepts r ≡ true
    → is_blank r.query ≡ false
    → is_blank_option r.category ≡ false
    → IsJournallable (recordable kind i (criteria_of r))
unfolding recordable
recordable-IsJournallable kind i r accepted worded labelled = record {
  worded = worded;
  short = accepts-short r accepted;
  labelled = category_value-labelled r.category labelled;
}

module _ {F A : Type 0} (Shows : A → QueryLog F → Type 0) (kind : QueryKind)
    (type_name : Error → Text) (words : Text) (before : List (QueryLog F)) where
  -- What the caller is told and what the journal then holds: an answer that shows what a row says, or
  -- the answer to an error that a row names, or to an exception that is not the service's own, and no
  -- row.
  pub data Journalled : Reply A → List (QueryLog F) → Type 0 where
    found :
        (x : A) (log : QueryLog F)
        → Shows x log
        → log.content.content ≡ words
        → log.kind ≡ kind
        → log.execution.status ≡ succeeded
        → Journalled (shown 200 x) (before ++ (log ∷ []))
    raised :
        (e : Error) (log : QueryLog F)
        → log.content.content ≡ words
        → log.kind ≡ kind
        → log.execution.error_code ≡ some (record { value = type_name e })
        → log.outcome.results_count ≡ pos 0
        → Journalled (refused (handle (service e))) (before ++ (log ∷ []))
    unknown : Journalled (refused (handle (service foreign))) before

module _ {S F Response A : Type 0} (journal : JournalPorts S F) (manager : TransactionManager S)
    (rows : S → List (QueryLog F)) (laws : JournalLaws journal manager rows)
    (type_name : Error → Text) (count : Response → ℤ) (kind : QueryKind)
    (schema : (request_id : ℕ) → Response → (duration_ms : ℤ) → A) (Shows : A → QueryLog F → Type 0)
    (Good : Response → Type 0)
    (shows : (i : ℕ) (r : Response) (took : ℤ) (log : QueryLog F)
      → Good r
      → log.id ≡ i
      → log.outcome.results_count ≡ count r
      → Shows (schema i r took) log) where
  -- The rest of a route, once the query has been sent.
  abbrev pub finish : (started_at request_id : ℕ) → Response → Io S A
  finish started_at request_id response s =
      let (took, t) = journal.elapsed_ms started_at s in (ok (schema request_id response took), t)

  pub finish-Journalled :
      (started_at i : ℕ) (c : SearchCriteria) (m : Result Response × S) (before : List (QueryLog F))
      → Leaves rows count type_name (recordable kind i c) before m
      → ((r : Response) → m.0 ≡ ok r → Good r)
      → (let (r, t) = continue m.0 (finish started_at i) m.1 in
          Journalled Shows kind type_name c.query.content before (reply_of 200 r) (rows t))
  unfolding recordable
  finish-Journalled started_at i c (ok r, t) before (inl row) good =
      let (status, counted) = row.outcome in
      subst (Journalled Shows kind type_name c.query.content before _)
        (sym (laws.elapsed_ms_keeps started_at t ∙ row.added))
        (found (schema i r (journal.elapsed_ms started_at t).0) row.log
          (shows i r (journal.elapsed_ms started_at t).0 row.log (good r refl) row.same_id counted)
          row.same_words row.same_kind status)
  finish-Journalled started_at i c (ok r, t) before (inr (e, kept)) good =
      let no : ⊥ = cc e in elim no [ ]
  finish-Journalled started_at i c (err e, t) before (inl row) good =
      let (status, code, counted) = row.outcome in
      subst (Journalled Shows kind type_name c.query.content before _) (sym row.added)
        (raised e row.log row.same_words row.same_kind code counted)
  finish-Journalled started_at i c (err e, t) before (inr (same, kept)) good =
      let other : e ≡ foreign = cc same in
      subst
        (λ x.
          Journalled Shows kind type_name c.query.content before (refused (handle (service x)))
            (rows t))
        (sym other)
        (subst (Journalled Shows kind type_name c.query.content before _) (sym kept) unknown)
