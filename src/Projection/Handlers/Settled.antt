-- ===== src/Projection/Handlers/Settled.antt =====
-- What working off one projection message leaves in the index.
use answer_service.Base.{
  ◌≡◌, refl, sym, ◌∙◌, ap, subst, false, Option, none, some, [], ◌==◌, if◌then◌else◌, Bool-cases,
  inl, inr, arith,
}
use answer_service.Base.Text.{Text, text_eq, text_beq_iff}
use answer_service.Errors.{Result, ok}
use answer_service.Application.Io.{Io, lift, >>=-eq-ok}
use answer_service.Application.Scope.{Scope, open_scope, on_store, on_store-eq-ok}
use answer_service.Application.Ports.{
  Environment, TransactionManager, CatalogGateway, OutboxGateway,
}
use answer_service.Application.Pipelines.Draining.{run_command-eq-ok}
use answer_service.Application.Outbox.{Dump, publish}
use answer_service.Indexing.Values.{ExternalId, external_id, external_id_eq}
use answer_service.Indexing.Event.{
  EventBody, qa_pair_added, qa_pair_content_updated, qa_pair_removed, indexing_task_queued,
  indexing_started, indexing_completed, indexing_failed,
}
use answer_service.Indexing.Pair.{QaPair}
use answer_service.Projection.Writer.{VectorStore, point_id_of, upsert, delete, wrapped-ok}
use answer_service.Projection.Handlers.{
  project_pair, upsert_qa_pair, remove_qa_pair, send, run_projection, upsert_qa_pair_task,
  remove_qa_pair_task, in_scope, project,
}
use answer_service.Projection.Laws.{Point, point_of, IndexLaws, refreshed, entry_after}

external_id-again : (i : ExternalId) {j : ExternalId} → external_id i.value ≡ ok j → j ≡ i
unfolding external_id
external_id-again i h = ground arith

module _ {S : Type 0} (env : Environment S) (manager : TransactionManager S) (dump : Dump)
    (outbox : OutboxGateway S) (catalog : CatalogGateway S) (vectors : VectorStore S)
    (live : S → ExternalId → Option QaPair) (point : S → Text → Option Point)
    (laws : IndexLaws manager catalog vectors live point) where
  -- A command of a fresh scope whose handler only calls gateways: its handler, then the commit.
  send-eq-ok :
      (handler : ExternalId → Io S (Unit {0})) (i : ExternalId) (s : S) (t : Scope S)
      → send env manager dump outbox handler i (open_scope s) ≡ (ok tt, t)
      → (v : S) × (handler i s ≡ (ok tt, v)) × (t.store ≡ (manager.commit v).1)
  unfolding send publish
  send-eq-ok handler i s t h =
      let (v, u, handled, published, committed) =
        run_command-eq-ok manager (publish env dump outbox) (λ j. on_store (handler j)) i
          (open_scope s) t tt h in
      let (inner, kept) = on_store-eq-ok (handler i) (open_scope s) v handled in
      let written : publish env dump outbox [] (record v { events = [] }) ≡ (ok tt, u) =
        rw kept at published in
      (
        v.store,
        inner,
        committed
            ∙ ap (λ (q : Result (Unit {0}) × Scope S). (manager.commit q.1.store).1) (sym written),
      )

  run_projection-eq-ok :
      (handler : ExternalId → Io S (Unit {0})) (i : ExternalId) (s t : S)
      → in_scope (run_projection env manager dump outbox handler i.value) s ≡ (ok tt, t)
      → (v : S) × (handler i s ≡ (ok tt, v)) × (t ≡ (manager.commit v).1)
  unfolding in_scope run_projection
  run_projection-eq-ok handler i s t h =
      let m = run_projection env manager dump outbox handler i.value in
      let (j, w, checked, sent) =
        >>=-eq-ok (lift (external_id i.value)) (λ k. send env manager dump outbox handler k)
          (open_scope s) {b = tt} {s' = (m (open_scope s)).1}
          (λ k. (ap (λ (q : Result (Unit {0}) × S). q.0) h k, (m (open_scope s)).1)) in
      let same : j ≡ i =
        external_id-again i (ap (λ (q : Result ExternalId × Scope S). q.0) checked) in
      let start : open_scope s ≡ w = ap (λ (q : Result ExternalId × Scope S). q.1) checked in
      let (v, handled, committed) =
        send-eq-ok handler i s (m (open_scope s)).1 (rw (same, sym start) at sent) in
      (v, handled, sym (ap (λ (q : Result (Unit {0}) × S). q.1) h) ∙ committed)

  abbrev pub entry : S → ExternalId → Option Point
  entry s i = point s (point_id_of vectors i)

  -- The catalog is as it was, and each entry of the index is what the message makes of it.
  pub record Effect (b : EventBody) (s t : S) : Type 0 where
    pub same_catalog : live t ≡ live s
    pub entries : (i : ExternalId) → entry t i ≡ entry_after (live s i) i b (entry s i)

  test_ids : (i j : ExternalId) → (vectors.uuid5 i.value == vectors.uuid5 j.value) ≡ (i == j)
  test_ids i j = grind (
    arith,
    text_beq_iff (vectors.uuid5 i.value) (vectors.uuid5 j.value),
    text_beq_iff i.value j.value,
    laws.uuid5-injective i.value j.value,
  )

  -- An entry that the message does not hit stays; one that it hits is the pair's own.
  untouched : (pair : Option QaPair) (o : Option Point) → refreshed pair false o ≡ o
  untouched none o = refl
  untouched (some p) o = refl

  project_pair-Effect :
      (i : ExternalId) (s r v : S) (o : Option QaPair)
      → project_pair catalog vectors o r ≡ (ok tt, v)
      → o ≡ live s i
      → live r ≡ live s
      → point r ≡ point s
      → (live v ≡ live s)
        × ((j : ExternalId) → entry v j ≡ refreshed (live s j) (i == j) (entry s j))
  unfolding project_pair upsert point_id_of point_of
  project_pair-Effect i s r v none h found same_live same_point =
      let stays : r ≡ v = ap (λ (q : Result (Unit {0}) × S). q.1) h in
      rw (sym stays) (
        same_live,
        λ j. elim (Bool-cases (i == j)) [
          | inl e ↦
              rw (sym ((external_id_eq.beq_iff i j).0 e), sym found)
                (ap (λ (f : Text → Option Point). f (vectors.uuid5 i.value)) same_point)
          | inr e ↦
              rw (e, untouched (live s j) (entry s j))
                (ap (λ (f : Text → Option Point). f (vectors.uuid5 j.value)) same_point)
        ],
      )
  project_pair-Effect i s r v (some p) h found same_live same_point =
      let same_id : p.id ≡ i = laws.pair_id i s p (sym found) in
      let as_test : (j : ExternalId) → (p.id == j) ≡ (i == j) =
        λ j. ap (λ (x : ExternalId). x == j) same_id in
      let (kept, points) =
        laws.adds_point (point_of p).0 (point_of p).1 (point_id_of vectors p.id) r v
          (wrapped-ok vectors _ h) in
      (
        kept ∙ same_live,
        λ j. elim (Bool-cases (i == j)) [
          | inl e ↦
              points (vectors.uuid5 j.value)
              ∙ rw
                  (test_ids p.id j, as_test j, e, sym ((external_id_eq.beq_iff i j).0 e), sym found)
                  refl
          | inr e ↦
              points (vectors.uuid5 j.value)
              ∙ rw (test_ids p.id j, as_test j, e, untouched (live s j) (entry s j))
                  (ap (λ (f : Text → Option Point). f (vectors.uuid5 j.value)) same_point)
        ],
      )

  upsert-Effect :
      (i : ExternalId) (s v : S)
      → upsert_qa_pair catalog vectors i s ≡ (ok tt, v)
      → (live v ≡ live s)
        × ((j : ExternalId) → entry v j ≡ refreshed (live s j) (i == j) (entry s j))
  unfolding upsert_qa_pair
  upsert-Effect i s v h =
      let (o, r, read, projected) =
        >>=-eq-ok (catalog.read_by_id i) (λ pair. project_pair catalog vectors pair) s h in
      let (found, same_live, same_point) = laws.reads_pair i s r o read in
      project_pair-Effect i s r v o projected found same_live same_point

  remove-Effect :
      (i : ExternalId) (s v : S)
      → remove_qa_pair vectors i s ≡ (ok tt, v)
      → (live v ≡ live s) × ((j : ExternalId) → entry v j ≡ (if i == j then none else entry s j))
  unfolding remove_qa_pair delete point_id_of
  remove-Effect i s v h =
      let (kept, points) =
        laws.deletes_point (point_id_of vectors i) s v (wrapped-ok vectors _ h) in
      (kept, λ j. points (vectors.uuid5 j.value) ∙ rw (test_ids i j) refl)

  -- The commit after a handler leaves its effect as it is.
  after_commit :
      (b : EventBody) (s v t : S)
      → t ≡ (manager.commit v).1
      → live v ≡ live s
      → ((j : ExternalId) → entry v j ≡ entry_after (live s j) j b (entry s j))
      → Effect b s t
  after_commit b s v t done same_live entries =
      let (lives, points) = laws.commit_keeps v in
      subst (λ (x : S). Effect b s x) (sym done)
        (record {
          same_catalog = lives ∙ same_live;
          entries =
              λ j. ap (λ (f : Text → Option Point). f (point_id_of vectors j)) points ∙ entries j;
        })

  upserted :
      (b : EventBody) (i : ExternalId) (s t : S)
      → in_scope (run_projection env manager dump outbox (upsert_qa_pair catalog vectors) i.value) s
        ≡ (ok tt, t)
      → ((j : ExternalId) (o : Option Point)
          → refreshed (live s j) (i == j) o ≡ entry_after (live s j) j b o)
      → Effect b s t
  upserted b i s t h is_upsert =
      let (v, handled, done) = run_projection-eq-ok (upsert_qa_pair catalog vectors) i s t h in
      let (same_live, entries) = upsert-Effect i s v handled in
      after_commit b s v t done same_live (λ j. entries j ∙ is_upsert j (entry s j))

  left_alone :
      (b : EventBody) (s t : S)
      → ◌≡◌ {A = Result (Unit {0}) × S} (ok tt, s) (ok tt, t)
      → ((j : ExternalId) (o : Option Point) → entry_after (live s j) j b o ≡ o)
      → Effect b s t
  left_alone b s t h other =
      subst (λ (x : S). Effect b s x) (ap (λ (q : Result (Unit {0}) × S). q.1) h)
        (record { same_catalog = refl; entries = λ j. sym (other j (entry s j)) })

  -- A message that has been worked off has just this effect.
  pub project-Effect :
      (b : EventBody) (s t : S)
      → project env manager dump outbox catalog vectors b s ≡ (ok tt, t)
      → Effect b s t
  unfolding project upsert_qa_pair_task remove_qa_pair_task
  project-Effect (qa_pair_added i) s t h = upserted (qa_pair_added i) i s t h (λ j o. refl)
  project-Effect (qa_pair_content_updated i) s t h =
      upserted (qa_pair_content_updated i) i s t h (λ j o. refl)
  project-Effect (qa_pair_removed i) s t h =
      let (v, handled, done) = run_projection-eq-ok (remove_qa_pair vectors) i s t h in
      let (same_live, entries) = remove-Effect i s v handled in
      after_commit (qa_pair_removed i) s v t done same_live entries
  project-Effect (indexing_task_queued i) s t h = left_alone _ s t h (λ j o. refl)
  project-Effect (indexing_started i) s t h = left_alone _ s t h (λ j o. refl)
  project-Effect (indexing_completed i stats) s t h = left_alone _ s t h (λ j o. refl)
  project-Effect (indexing_failed i failure) s t h = left_alone _ s t h (λ j o. refl)
