-- ===== src/Tests/Domain.antt =====
-- The domain, the mediator and the error mapping.
use answer_service.Base.{◌≡◌, refl, some, [], ◌∷◌, ◌++◌, map}
use answer_service.Base.Text.{text_beq}
use answer_service.Errors.{err, duplicate_external_id, invalid_task_transition}
use answer_service.Indexing.Values.{empty_stats}
use answer_service.Indexing.Fingerprint.{fingerprint}
use answer_service.Indexing.Planner.{Manifest, SyncPlan, plan}
use answer_service.Indexing.Planner.Outcome.{plan-eq-diff}
use answer_service.Indexing.Planner.Counts.{Accounts, plan-counts}
use answer_service.Indexing.Event.{indexing_started}
use answer_service.Indexing.Task.{
  IndexingTask, running, queued, queue, to_start, to_complete, perform,
}
use answer_service.Indexing.Task.Lifecycle.{perform-Obeys, IsConsistent}
use answer_service.Indexing.Task.Trace.{
  Life, born, called, Life-IsConsistent, announces, announces-Life,
}
use answer_service.Tests.Data.{plain_digest, id_a, desired_b, pair_a, a_source}

abbrev catalog_a : Manifest
catalog_a = (id_a, fingerprint plain_digest pair_a.content) ∷ []

plan-eq-diff_example :
    plan plain_digest catalog_a (desired_b ∷ desired_b ∷ []) ≡ err duplicate_external_id
unfolding text_beq
plan-eq-diff_example = plan-eq-diff plain_digest catalog_a (desired_b ∷ desired_b ∷ [])

abbrev plan_b : SyncPlan
plan_b = record { to_create = desired_b ∷ []; to_update = []; to_delete = id_a ∷ []; skipped = [] }

plan-counts_example : Accounts plain_digest catalog_a (desired_b ∷ []) plan_b
unfolding plan text_beq
plan-counts_example = plan-counts plain_digest catalog_a (desired_b ∷ []) plan_b refl refl

abbrev new_task : IndexingTask
unfolding queue
new_task = (queue 3 1 a_source).0

perform-Obeys_example : perform (to_complete 5 empty_stats) new_task ≡ err invalid_task_transition
unfolding new_task
perform-Obeys_example = perform-Obeys (to_complete 5 empty_stats) new_task

abbrev started_task : IndexingTask
unfolding queue
started_task = record new_task { status = running; started_at = some 2 }

abbrev started_life : Life started_task ((queue 3 1 a_source).1 ++ indexing_started 3 ∷ [])
unfolding queue perform
started_life = called (to_start 2) (born 3 1 a_source) refl

Life-IsConsistent_example : IsConsistent started_task
Life-IsConsistent_example = Life-IsConsistent started_life

announces-Life_example :
    map announces ((queue 3 1 a_source).1 ++ indexing_started 3 ∷ [])
    ≡ some queued ∷ some running ∷ []
unfolding started_task
announces-Life_example = announces-Life started_life
