-- ===== src/Analytics/Journal/Served.antt =====
-- A recorded query that returns has been served by its handler.
use answer_service.Base.{ℕ, ◌≡◌, ◌∙◌, ap, Bool, true, false, Option}
use answer_service.Base.Int.{ℤ}
use answer_service.Base.Text.{Text}
use answer_service.Errors.{Error, Result, ok, err}
use answer_service.Errors.Hierarchy.{caught}
use answer_service.Application.Io.{Io, on_caught, try_result, try_app_error, raise, >>=-eq-ok}
use answer_service.Application.Ports.{TransactionManager}
use answer_service.Analytics.Journal.{
  RecordableQuery, JournalPorts, read, record_success, record_failure, on_failure, on_success,
  record_query,
}

module _ {S F Response : Type 0} (ports : JournalPorts S F) (manager : TransactionManager S)
    (results_count : Response → ℤ) (top_score : Response → Option F)
    (type_name : Error → Text) where
  on_failure-raises :
      (request : RecordableQuery) (started_at : ℕ) (e : Error) (s : S) {a : Response} {t : S}
      → on_failure ports manager results_count top_score type_name request started_at e s
        ≡ (ok a, t)
      → ⊥
  unfolding on_failure read
  on_failure-raises request started_at e s h =
      let (_, s', _, k) =
        >>=-eq-ok
          (record_failure ports manager results_count top_score type_name request e
            (ports.elapsed_ms started_at s).0)
          (λ _. raise e) (ports.elapsed_ms started_at s).1 h in
      cc (ap (λ (q : Result Response × S). q.0) k)

  tried :
      (request : RecordableQuery) (started_at : ℕ) (r : Result Response) (s : S) {a : Response}
      {t : S}
      → try_result r
          (λ e. on_failure ports manager results_count top_score type_name request started_at e)
          s
        ≡ (ok a, t)
      → r ≡ ok a
  tried request started_at (ok b) s h = ap (λ (q : Result Response × S). q.0) h
  tried request started_at (err e) s h = failed (caught e) h
    where
      failed :
          (app : Bool) {a : Response} {t : S}
          → on_caught app e
              (on_failure ports manager results_count top_score type_name request started_at e)
              s
            ≡ (ok a, t)
          → err e ≡ ok a
      failed true h = elim (on_failure-raises request started_at e s h) [ ]
      failed false h = ap (λ (q : Result Response × S). q.0) h

  -- The response is the one that the handler returned.
  pub record_query-eq-ok :
      (handle_next : RecordableQuery → Io S Response) (request : RecordableQuery) (s t : S)
      (response : Response)
      → record_query ports manager results_count top_score type_name handle_next request s
        ≡ (ok response, t)
      → (s' : S) × ((handle_next request s').0 ≡ ok response)
  unfolding record_query on_success read
  record_query-eq-ok handle_next request s t response h =
      let (started_at, s₁) = ports.perf_counter s in
      let (r, s₂, served, k) =
        >>=-eq-ok
          (try_app_error (handle_next request)
            (λ e. on_failure ports manager results_count top_score type_name request started_at e))
          (λ r. on_success ports manager results_count top_score type_name request started_at r) s₁
          h in
      let (_, s₄, _, last) =
        >>=-eq-ok
          (record_success ports manager results_count top_score type_name request r
            (ports.elapsed_ms started_at s₂).0)
          (λ _ u. (ok r, u)) (ports.elapsed_ms started_at s₂).1 k in
      (
        s₁,
        tried request started_at (handle_next request s₁).0 (handle_next request s₁).1 served
            ∙ ap (λ (q : Result Response × S). q.0) last,
      )
