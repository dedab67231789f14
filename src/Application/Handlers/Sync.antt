-- ===== src/Application/Handlers/Sync.antt =====
-- application/commands/indexing/run_indexing/handler.py and
-- infrastructure/mappers/adaptix_source_row_mapper.py: one run of the catalog's synchronisation.
pub mod Laws
pub mod Apply
pub mod Difference
pub mod Convergence
use answer_service.Base.{ℕ, Bool, Option, none, some, List, [], ◌∷◌}
use answer_service.Errors.{Result, ok, err, indexing_task_not_found}
use answer_service.Errors as E
use answer_service.Application.Io.{Io, pure, raise, lift, ◌>>=◌, ◌>>◌}
use answer_service.Application.Scope.{Scope, on_store, ask, add_events}
use answer_service.Application.Ports.{
  Environment, TaskGateway, CatalogGateway, SourceFiles, SourceRow,
}
use answer_service.Application.Handlers.{act}
use answer_service.Indexing.Values.{
  ExternalId, SourceReference, SyncStats, external_id, question, answer, category,
}
use answer_service.Indexing.Fingerprint.{QaContent, Digest}
use answer_service.Indexing.Event.{EventBody}
use answer_service.Indexing.Task.{IndexingTask, complete}
use answer_service.Indexing.Pair.{QaPair, DesiredPair, register, update_content, mark_removed}
use answer_service.Indexing.Planner.{SyncPlan, plan, stats}

-- `_content_of`
unfoldable pub content_of : SourceRow → Result QaContent
unfolding question answer category
content_of row = E.◌>>=◌ (question row.question) (λ q. E.◌>>=◌ (answer row.answer) (λ a.
    E.◌>>=◌ (category row.category) (λ c. ok (record { question = q; answer = a; category = c }))))

-- `_convert`: the fields of the pair in their order.
unfoldable pub to_desired_pair : SourceRow → Result DesiredPair
unfolding external_id content_of
to_desired_pair row = E.◌>>=◌ (external_id row.external_id) (λ i.
    E.◌>>=◌ (content_of row)
      (λ c. ok (record { external_id = i; content = c; source_updated_at = row.updated_at })))

-- The list comprehension over the rows.
unfoldable pub desired_pairs : List SourceRow → Result (List DesiredPair)
unfolding to_desired_pair
desired_pairs [] = ok []
desired_pairs (row ∷ rows) =
    E.◌>>=◌ (to_desired_pair row) (λ p. E.◌>>=◌ (desired_pairs rows) (λ ps. ok (p ∷ ps)))

module _ {S : Type 0} (env : Environment S) (catalog : CatalogGateway S) where
  -- The body of the first loop of `_apply`, over the pair that was read.
  pub delete_existing : ExternalId → Option QaPair → Io (Scope S) (Unit {0})
  unfolding mark_removed
  delete_existing i none = pure tt
  delete_existing i (some existing) =
      add_events (mark_removed existing) >> on_store (catalog.delete_by_id i)

  unfoldable pub apply_deletes : List ExternalId → Io (Scope S) (Unit {0})
  unfolding delete_existing
  apply_deletes [] = pure tt
  apply_deletes (i ∷ rest) = do
    existing ← on_store (catalog.read_by_id i)
    delete_existing i existing >> apply_deletes rest

  pub create_pair : DesiredPair → Io (Scope S) (Unit {0})
  unfolding register
  create_pair pair = do
    now ← ask env.now
    created ← act (ok (register now pair.external_id pair.content pair.source_updated_at))
    on_store (catalog.add created)

  unfoldable pub apply_creates : List DesiredPair → Io (Scope S) (Unit {0})
  unfolding create_pair
  apply_creates [] = pure tt
  apply_creates (pair ∷ rest) = create_pair pair >> apply_creates rest

  -- The body of the last loop of `_apply`, over the pair that was read.
  pub update_existing : DesiredPair → Option QaPair → Io (Scope S) (Unit {0})
  unfolding update_content
  update_existing pair none = pure tt
  update_existing pair (some existing) = do
    now ← ask env.now
    updated ← act (
        ok (
          let (e, _, es) = update_content now pair.content pair.source_updated_at existing in
          (e, es)))
    on_store (catalog.update updated)

  unfoldable pub apply_updates : List DesiredPair → Io (Scope S) (Unit {0})
  unfolding update_existing
  apply_updates [] = pure tt
  apply_updates (pair ∷ rest) = do
    existing ← on_store (catalog.read_by_id pair.external_id)
    update_existing pair existing >> apply_updates rest

  -- `_apply`
  unfoldable pub apply : SyncPlan → Io (Scope S) (Unit {0})
  unfolding apply_deletes apply_creates apply_updates
  apply p = apply_deletes p.to_delete >> (apply_creates p.to_create >> apply_updates p.to_update)

  module _ {Bytes : Type 0} (sha256 : Digest) (files : SourceFiles S Bytes) where
    -- `_run_sync` from the rows on.
    unfoldable pub synchronise : List DesiredPair → Io (Scope S) SyncStats
    unfolding plan apply stats
    synchronise desired = do
      manifest ← on_store catalog.read_fingerprints
      p ← lift (plan sha256 manifest desired)
      apply p >> lift (stats p)

    -- `_run_sync`
    unfoldable pub run_sync : SourceReference → Io (Scope S) SyncStats
    unfolding synchronise desired_pairs
    run_sync source = do
      content ← on_store (files.open_source source)
      rows ← on_store (files.read_rows content)
      desired ← lift (desired_pairs rows)
      synchronise desired

    module _ (tasks : TaskGateway S) where
      unfoldable pub complete_run : Option IndexingTask → Io (Scope S) (Unit {0})
      unfolding complete
      complete_run none = raise indexing_task_not_found
      complete_run (some task) = do
        run_stats ← run_sync task.source
        now ← ask env.now
        task' ← act (complete now run_stats task)
        on_store (tasks.update task')

      -- `RunIndexingHandler.handle`
      unfoldable pub run_indexing : (task_id : ℕ) → Io (Scope S) (Unit {0})
      unfolding complete_run
      run_indexing task_id = do task ← on_store (tasks.read_by_id task_id); complete_run task
