-- ===== src/Analytics/Journal/Transparent.antt =====
-- The journal is not seen by the caller.
use answer_service.Base.{ℕ, ◌≡◌, refl, ◌∙◌, true, false, Option, arith, ◌⊎◌, inl, inr, Bool-cases}
use answer_service.Base.Int.{ℤ, pos, ltb_ℤ}
use answer_service.Base.Text.{Text}
use answer_service.Errors.{Error, Result, ok, err, Result-cases}
use answer_service.Errors.Hierarchy.{caught}
use answer_service.Application.Io.{Io, lift, continue, try_result, try_app_error, ◌>>=◌}
use answer_service.Application.Ports.{TransactionManager}
use answer_service.Indexing.Values.{is_blank}
use answer_service.Analytics.Values.{
  latency, category_label, error_code, query_text, QueryExecution, query_execution, QueryOutcome,
  query_outcome, QueryLog,
}
use answer_service.Analytics.Journal.{
  RecordableQuery, JournalPorts, read, label_of, parts_of, new_log, store_log, write_log, write,
  record_success, record_failure, on_failure, on_success, record_query,
}

-- A part of the code that raises no exception of another library.
abbrev pub RaisesAppErrors : {S A : Type 0} → Io S A → Type 0
RaisesAppErrors {S} m = (s : S) (e : Error) → (m s).0 ≡ err e → caught e ≡ true

module _ {S A B : Type 0} where
  bind-RaisesAppErrors :
      (m : Io S A) (f : A → Io S B)
      → RaisesAppErrors m
      → ((a : A) → RaisesAppErrors (f a))
      → RaisesAppErrors (m >>= f)
  bind-RaisesAppErrors m f h k s e = go (m s).0 refl
    where
      go : (r : Result A) → (m s).0 ≡ r → (continue r f (m s).1).0 ≡ err e → caught e ≡ true
      go (ok a) q p = k a (m s).1 e p
      go (err x) q p = h s e (q ∙ cc p)

no-err : {A B : Type 0} {a : A} {e : Error} → ok a ≡ err e → B
no-err {B = B} h = let no : ⊥ = cc h in elim no [ ]

err_eq : {B : Type 0} {x e : Error} → ◌≡◌ {A = Result B} (err x) (err e) → x ≡ e
err_eq p = cc p

module _ {S F : Type 0} (ports : JournalPorts S F) (manager : TransactionManager S) where
  parts_of-caught :
      (request : RecordableQuery) (ms : ℤ) (e : Error)
      → parts_of ports manager request ms ≡ err e
      → caught e ≡ true
  unfolding parts_of label_of category_label query_text latency caught
  parts_of-caught request ms e h = ground (arith)

  -- A rollback has raised this error, and nothing has caught it.
  abbrev pub Unrolled : {A : Type 0} → Result A → Type 0
  Unrolled r = (e : Error) × (u : S) × ((manager.rollback u).0 ≡ err e) × (r ≡ err e)

  module _ (add_app : (log : QueryLog F) → RaisesAppErrors (ports.add log))
      (commit_app : RaisesAppErrors manager.commit) where
    store_log-RaisesAppErrors : (log : QueryLog F) → RaisesAppErrors (store_log ports manager log)
    unfolding store_log
    store_log-RaisesAppErrors log =
        bind-RaisesAppErrors (ports.add log) (λ _. manager.commit) (add_app log) (λ _. commit_app)

    write_log-RaisesAppErrors :
        (request : RecordableQuery) (outcome : QueryOutcome F) (x : QueryExecution) (ms : ℤ)
        → RaisesAppErrors (write_log ports manager request outcome x ms)
    unfolding write_log read
    write_log-RaisesAppErrors request outcome x ms =
        bind-RaisesAppErrors (lift (parts_of ports manager request ms))
          (λ parts. read ports manager ports.now >>= λ now.
            store_log ports manager (new_log ports manager request outcome x parts now))
          (λ s. parts_of-caught request ms)
          (λ parts s.
            store_log-RaisesAppErrors
              (new_log ports manager request outcome x parts (ports.now s).0) (ports.now s).1)

    try-returns :
        (m : Io S (Unit {0}))
        → RaisesAppErrors m
        → (s : S)
        → ((try_app_error m (λ e. manager.rollback) s).0 ≡ ok tt)
          ⊎ Unrolled (try_app_error m (λ e. manager.rollback) s).0
    try-returns m h s = go (m s).0 (h s)
      where
        go :
            (r : Result (Unit {0}))
            → ((e : Error) → r ≡ err e → caught e ≡ true)
            → (let out = (try_result r (λ e. manager.rollback) (m s).1).0 in
                (out ≡ ok tt) ⊎ Unrolled out)
        go (ok a) k = inl refl
        go (err x) k = rw (k x refl) (elim (Result-cases (manager.rollback (m s).1).0) [
          | inl (_, e) ↦ inl e
          | inr (y, e) ↦ inr (y, (m s).1, e, e)
        ])

    write-returns :
        (request : RecordableQuery) (outcome : QueryOutcome F) (x : QueryExecution) (ms : ℤ) (s : S)
        → ((write ports manager request outcome x ms s).0 ≡ ok tt)
          ⊎ Unrolled (write ports manager request outcome x ms s).0
    unfolding write
    write-returns request outcome x ms =
        try-returns (write_log ports manager request outcome x ms)
          (write_log-RaisesAppErrors request outcome x ms)

    -- What follows a write, whose value is not used.
    after_write :
        {A : Type 0} (m : Result (Unit {0}) × S) (r : Result A)
        → (m.0 ≡ ok tt) ⊎ Unrolled m.0
        → (let out = (continue m.0 (λ _ t. (r, t)) m.1).0 in (out ≡ r) ⊎ Unrolled out)
    after_write m r (inl e) = inl (rw e refl)
    after_write m r (inr (x, u, h, e)) = inr (x, u, h, rw e refl)

    module _ {Response : Type 0} (results_count : Response → ℤ) (top_score : Response → Option F)
        (type_name : Error → Text)
        (counted : (r : Response) → ltb_ℤ (results_count r) (pos 0) ≡ false)
        (named : (e : Error) → is_blank (type_name e) ≡ false) where
      record_success-returns :
          (request : RecordableQuery) (r : Response) (ms : ℤ) (s : S)
          → (let out =
                (record_success ports manager results_count top_score type_name request r ms s).0 in
              (out ≡ ok tt) ⊎ Unrolled out)
      unfolding record_success query_outcome query_execution
      record_success-returns request r ms s = rw (counted r) (write-returns request _ _ ms s)

      record_failure-returns :
          (request : RecordableQuery) (e : Error) (ms : ℤ) (s : S)
          → (let out =
                (record_failure ports manager results_count top_score type_name request e ms s).0 in
              (out ≡ ok tt) ⊎ Unrolled out)
      unfolding record_failure query_outcome query_execution error_code
      record_failure-returns request e ms s = rw (named e) (write-returns request _ _ ms s)

      on_failure-raises :
          (request : RecordableQuery) (started_at : ℕ) (e : Error) (s : S)
          → (let out =
                (on_failure ports manager results_count top_score type_name request started_at e
                  s).0 in
              (out ≡ err e) ⊎ Unrolled out)
      unfolding on_failure read
      on_failure-raises request started_at e s =
          after_write
            (record_failure ports manager results_count top_score type_name request e
              (ports.elapsed_ms started_at s).0 (ports.elapsed_ms started_at s).1)
            (err e)
            (record_failure-returns request e (ports.elapsed_ms started_at s).0
              (ports.elapsed_ms started_at s).1)

      on_success-returns :
          (request : RecordableQuery) (started_at : ℕ) (r : Response) (s : S)
          → (let out =
                (on_success ports manager results_count top_score type_name request started_at r
                  s).0 in
              (out ≡ ok r) ⊎ Unrolled out)
      unfolding on_success read
      on_success-returns request started_at r s =
          after_write
            (record_success ports manager results_count top_score type_name request r
              (ports.elapsed_ms started_at s).0 (ports.elapsed_ms started_at s).1)
            (ok r)
            (record_success-returns request r (ports.elapsed_ms started_at s).0
              (ports.elapsed_ms started_at s).1)

      -- Where adding a row and committing raise only the service's own errors and no class name is
      -- blank: a recorded query returns or raises exactly what the query itself returns or raises,
      -- whether its row could be written or not, unless a rollback raises, whose error then stands in
      -- place of the query's.
      pub record_query-Transparent :
          (handle_next : RecordableQuery → Io S Response) (request : RecordableQuery) (s : S)
          → (let out =
                (record_query ports manager results_count top_score type_name handle_next request
                  s).0 in
              (out ≡ (handle_next request (ports.perf_counter s).1).0) ⊎ Unrolled out)
      unfolding record_query read
      record_query-Transparent handle_next request s =
          go (handle_next request (ports.perf_counter s).1).0
            (handle_next request (ports.perf_counter s).1).1
        where
          started_at : ℕ
          started_at = (ports.perf_counter s).0

          go :
              (r : Result Response) (s' : S)
              → (let m =
                    try_result r
                      (λ e.
                        on_failure ports manager results_count top_score type_name request
                          started_at e)
                      s' in
                  let out =
                    (continue m.0
                      (on_success ports manager results_count top_score type_name request
                        started_at)
                      m.1).0 in
                  (out ≡ r) ⊎ Unrolled out)
          go (ok r) s' = on_success-returns request started_at r s'
          go (err e) s' = elim (Bool-cases (caught e)) [
            | inr foreign ↦ rw foreign (inl refl)
            | inl app ↦ elim (on_failure-raises request started_at e s') [
              | inl raised ↦ rw (app, raised) (inl refl)
              | inr (x, u, h, replaced) ↦ rw (app, replaced) (inr (x, u, h, refl))
            ]
          ]
