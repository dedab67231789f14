-- ===== src/Analytics/Journal/Rows.antt =====
-- The row that a served query leaves in the journal.
use answer_service.Base.{
  ℕ, ◌≡◌, ◌⊎◌, inl, inr, refl, subst, ◌∙◌, ap, false, Option, none, some, length, ltb, List, [],
  ◌∷◌, ◌++◌,
}
use answer_service.Base.Int.{ℤ, pos, ltb_ℤ}
use answer_service.Base.Text.{Text}
use answer_service.Errors.{Error, foreign, Result, ok, err}
use answer_service.Errors.Hierarchy.{caught-or-foreign, not-caught-foreign}
use answer_service.Application.Io.{Io, continue, try_result}
use answer_service.Application.Ports.{TransactionManager}
use answer_service.Indexing.Values.{is_blank, is_blank_option}
use answer_service.Analytics.Values.{
  latency, CategoryLabel, category_label, error_code, query_text, succeeded, failed, QueryExecution,
  query_execution, QueryOutcome, query_outcome, QueryLog,
}
use answer_service.Analytics.Journal.{
  RecordableQuery, JournalPorts, LogParts, read, label_of, parts_of, new_log, store_log, write_log,
  write, record_success, record_failure, on_failure, on_success, record_query,
}

-- A request whose words and category pass the value objects of the journal.
pub record IsJournallable (request : RecordableQuery) : Type 0 where
  pub worded : is_blank request.journalled_text ≡ false
  pub short : ltb 1024 (length request.journalled_text) ≡ false
  pub labelled : is_blank_option request.journalled_category ≡ false

module _ {F : Type 0} where
  -- The row says of the request what it was, and of its outcome how it went.
  abbrev pub IsRowOf :
      {Response : Type 0} → (Response → ℤ) → (Error → Text) → Result Response → QueryLog F → Type 0
  IsRowOf count type_name (ok r) log =
      (log.execution.status ≡ succeeded) × (log.outcome.results_count ≡ count r)
  IsRowOf count type_name (err e) log =
      (log.execution.status ≡ failed)
      × (log.execution.error_code ≡ some (record { value = type_name e }))
      × (log.outcome.results_count ≡ pos 0)

  -- One row more: that of the request, under its id and with its words.
  pub record AddsRow {Response : Type 0} (count : Response → ℤ) (type_name : Error → Text)
      (request : RecordableQuery) (result : Result Response) (before after : List (QueryLog F))
      : Type 0 where
    pub log : QueryLog F
    pub added : after ≡ before ++ (log ∷ [])
    pub same_id : log.id ≡ request.request_id
    pub same_words : log.content.content ≡ request.journalled_text
    pub same_kind : log.kind ≡ request.journalled_kind
    pub outcome : IsRowOf count type_name result log

  -- One row more, or an exception that is not the service's own and no row.
  abbrev pub Leaves :
      {S Response : Type 0}
      → (S → List (QueryLog F))
      → (Response → ℤ)
      → (Error → Text)
      → RecordableQuery
      → List (QueryLog F)
      → Result Response × S
      → Type 0
  Leaves rows count type_name request before (r, t) =
      AddsRow count type_name request r before (rows t) ⊎ ((r ≡ err foreign) × (rows t ≡ before))

module _ {S F : Type 0} (ports : JournalPorts S F) (manager : TransactionManager S)
    (rows : S → List (QueryLog F)) where
  -- A journal that can be written, and clocks that leave it alone; perf_counter never goes back.
  pub record JournalLaws : Type 0 where
    pub now_keeps : (s : S) → rows (ports.now s).1 ≡ rows s
    pub perf_counter_keeps : (s : S) → rows (ports.perf_counter s).1 ≡ rows s
    pub elapsed_ms_keeps : (n : ℕ) (s : S) → rows (ports.elapsed_ms n s).1 ≡ rows s
    pub elapsed_ms_NonNeg : (n : ℕ) (s : S) → ltb_ℤ (ports.elapsed_ms n s).0 (pos 0) ≡ false
    pub add_returns : (log : QueryLog F) (s : S) → (ports.add log s).0 ≡ ok tt
    pub add_adds : (log : QueryLog F) (s : S) → rows (ports.add log s).1 ≡ rows s ++ (log ∷ [])
    pub commit_returns : (s : S) → (manager.commit s).0 ≡ ok tt
    pub commit_keeps : (s : S) → rows (manager.commit s).1 ≡ rows s

  parts_of-ok :
      (request : RecordableQuery) (ms : ℤ)
      → IsJournallable request
      → ltb_ℤ ms (pos 0) ≡ false
      → (parts : LogParts ports manager) × (parts_of ports manager request ms ≡ ok parts)
        × (parts.content.content ≡ request.journalled_text)
  unfolding parts_of label_of category_label query_text latency
  parts_of-ok request ms fit h = go request.journalled_category fit.labelled
    where
      parts_with : Option CategoryLabel → LogParts ports manager
      parts_with c = record {
        content = record { content = request.journalled_text };
        took = record { milliseconds = ms };
        category = c;
      }

      go :
          (c : Option Text)
          → is_blank_option c ≡ false
          → (parts : LogParts ports manager) × (parts_of ports manager
                (record request { journalled_category = c })
                ms
              ≡ ok parts)
            × (parts.content.content ≡ request.journalled_text)
      go none k = rw (fit.worded, fit.short, h) (parts_with none, refl, refl)
      go (some c) k =
          rw (fit.worded, fit.short, h, k) (parts_with (some (record { value = c })), refl, refl)

  module _ (laws : JournalLaws) where
    -- What `_write` does to such a journal.
    write-adds :
        (request : RecordableQuery) (outcome : QueryOutcome F) (x : QueryExecution) (ms : ℤ) (s : S)
        → IsJournallable request
        → ltb_ℤ ms (pos 0) ≡ false
        → ((write ports manager request outcome x ms s).0 ≡ ok tt)
          × (log : QueryLog F) × (rows (write ports manager request outcome x ms s).1
              ≡ rows s ++ (log ∷ []))
          × (log.id ≡ request.request_id)
          × (log.content.content ≡ request.journalled_text)
          × (log.kind ≡ request.journalled_kind)
          × (log.outcome ≡ outcome)
          × (log.execution ≡ x)
    unfolding write write_log store_log new_log read
    write-adds request outcome x ms s fit h =
        let (parts, made, worded) = parts_of-ok request ms fit h in
        let log = new_log ports manager request outcome x parts (ports.now s).0 in
        let u = (ports.now s).1 in
        rw (made, laws.add_returns log u, laws.commit_returns (ports.add log u).1)
          (
            refl,
            log,
            laws.commit_keeps (ports.add log u).1
                ∙ laws.add_adds log u
                ∙ ap (λ l. l ++ (log ∷ [])) (laws.now_keeps s),
            refl,
            worded,
            refl,
            refl,
            refl,
          )

    module _ {Response : Type 0} (results_count : Response → ℤ) (top_score : Response → Option F)
        (type_name : Error → Text)
        (counted : (r : Response) → ltb_ℤ (results_count r) (pos 0) ≡ false)
        (named : (e : Error) → is_blank (type_name e) ≡ false) (request : RecordableQuery)
        (fit : IsJournallable request) where
      abbrev Adds : Result Response → List (QueryLog F) → Result Response × S → Type 0
      Adds result before (r, t) =
          (r ≡ result) × AddsRow results_count type_name request result before (rows t)

      on_success-Adds :
          (started_at : ℕ) (r : Response) (s : S)
          → Adds
              (ok r)
              (rows s)
              (on_success ports manager results_count top_score type_name request started_at r s)
      unfolding on_success record_success query_outcome query_execution read
      on_success-Adds started_at r s =
          let (ms, s') = ports.elapsed_ms started_at s in
          let (wrote, log, added, same_id, words, kind, outcome, x) =
            write-adds request (record { results_count = results_count r; top_score = top_score r })
              (record { status = succeeded; error_code = none }) ms s' fit
              (laws.elapsed_ms_NonNeg started_at s) in
          rw (counted r, wrote)
            (
              refl,
              record {
                log = log;
                added = added ∙ ap (λ l. l ++ (log ∷ [])) (laws.elapsed_ms_keeps started_at s);
                same_id = same_id;
                same_words = words;
                same_kind = kind;
                outcome = (
                  ap (λ (q : QueryExecution). q.status) x,
                  ap (λ (q : QueryOutcome F). q.results_count) outcome,
                );
              },
            )

      on_failure-Adds :
          (started_at : ℕ) (e : Error) (s : S)
          → Adds
              (err e)
              (rows s)
              (on_failure ports manager results_count top_score type_name request started_at e s)
      unfolding on_failure record_failure query_outcome query_execution error_code read
      on_failure-Adds started_at e s =
          let (ms, s') = ports.elapsed_ms started_at s in
          let (wrote, log, added, same_id, words, kind, outcome, x) =
            write-adds request (record { results_count = pos 0; top_score = none })
              (record { status = failed; error_code = some (record { value = type_name e }) }) ms s'
              fit (laws.elapsed_ms_NonNeg started_at s) in
          rw (named e, wrote)
            (
              refl,
              record {
                log = log;
                added = added ∙ ap (λ l. l ++ (log ∷ [])) (laws.elapsed_ms_keeps started_at s);
                same_id = same_id;
                same_words = words;
                same_kind = kind;
                outcome = (
                  ap (λ (q : QueryExecution). q.status) x,
                  ap (λ (q : QueryExecution). q.error_code) x,
                  ap (λ (q : QueryOutcome F). q.results_count) outcome,
                );
              },
            )

      since :
          (result : Result Response) {before before' after : List (QueryLog F)}
          → before ≡ before'
          → AddsRow results_count type_name request result before after
          → AddsRow results_count type_name request result before' after
      since result {after = after} e =
          subst (λ b. AddsRow results_count type_name request result b after) e

      served :
          (started_at : ℕ) (r : Result Response) (s : S) (before : List (QueryLog F))
          → rows s ≡ before
          → Leaves rows results_count type_name request before (
              let m =
                try_result r
                  (λ e.
                    on_failure ports manager results_count top_score type_name request started_at e)
                  s in
              continue m.0
                (on_success ports manager results_count top_score type_name request started_at)
                m.1)
      served started_at (ok r) s before k =
          let (returned, row) = on_success-Adds started_at r s in
          rw returned (inl (since (ok r) k row))
      served started_at (err e) s before k = elim (caught-or-foreign e) [
        | inl app ↦
            let (raised, row) = on_failure-Adds started_at e s in
            rw (app, raised) (inl (since (err e) k row))
        | inr other ↦ rw (other, not-caught-foreign) (inr (refl, k))
      ]

      -- A recorded query that leaves the journal alone leaves one row more, whether it returns or
      -- raises an error of the service; one that raises another exception leaves none.
      pub record_query-Leaves :
          (handle_next : RecordableQuery → Io S Response)
          → ((s : S) → rows (handle_next request s).1 ≡ rows s)
          → (s : S)
          → Leaves rows results_count type_name request
              (rows s)
              (record_query ports manager results_count top_score type_name handle_next request s)
      unfolding record_query read
      record_query-Leaves handle_next keeps s =
          let (started_at, u) = ports.perf_counter s in
          served started_at (handle_next request u).0 (handle_next request u).1 (rows s)
            (keeps u ∙ laws.perf_counter_keeps s)
