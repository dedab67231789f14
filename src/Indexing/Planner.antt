-- ===== src/Indexing/Planner.antt =====
-- domain/indexing/services/sync_planner.py and value_objects/sync_plan.py: the diff of the source
-- file against the catalog's fingerprints.
pub mod Loop
pub mod Outcome
pub mod Counts
use answer_service.Base.{
  ℕ, ◌≡◌, Bool, true, false, not, Option, none, some, List, [], ◌∷◌, ◌++◌, map, length, filter,
  contains, Eq, ◌==◌, if◌then◌else◌,
}
use answer_service.Base.Int.{pos}
use answer_service.Base.Dict.{Dict, get, keys}
use answer_service.Errors.{Result, ok, err, ◌>>=◌, duplicate_external_id}
use answer_service.Indexing.Values.{
  ExternalId, ContentHash, SyncStats, sync_stats, external_id_eq, content_hash_eq,
}
use answer_service.Indexing.Fingerprint.{Digest, fingerprint}
use answer_service.Indexing.Pair.{DesiredPair}

pub record SyncPlan : Type 0 where
  pub to_create : List DesiredPair
  pub to_update : List DesiredPair
  pub to_delete : List ExternalId
  pub skipped : List ExternalId

-- `SyncPlan.stats`
unfoldable pub stats : SyncPlan → Result SyncStats
unfolding sync_stats
stats plan =
    sync_stats (pos (length plan.to_create)) (pos (length plan.to_update))
      (pos (length plan.to_delete)) (pos (length plan.skipped))

-- The local variables of the loop.
pub record Progress : Type 0 where
  pub to_create : List DesiredPair
  pub to_update : List DesiredPair
  pub skipped : List ExternalId
  pub seen : List ExternalId

abbrev pub Manifest : Type 0
Manifest = Dict ExternalId ContentHash

module _ (sha256 : Digest) (current : Manifest) where
  -- The if-elif-else on `indexed_fingerprint`.
  sort_pair : DesiredPair → Option ContentHash → Progress → Progress
  sort_pair pair none p = record p { to_create = p.to_create ++ pair ∷ [] }
  sort_pair pair (some indexed) p =
      if indexed == fingerprint sha256 pair.content
      then record p { skipped = p.skipped ++ pair.external_id ∷ [] }
      else record p { to_update = p.to_update ++ pair ∷ [] }

  -- One round of the loop over `desired`.
  visit : DesiredPair → Progress → Result Progress
  unfolding sort_pair
  visit pair p =
      if contains p.seen pair.external_id
      then err duplicate_external_id
      else ok (
          sort_pair pair (get current pair.external_id)
            (record p { seen = pair.external_id ∷ p.seen }))

  pub loop : List DesiredPair → Progress → Result Progress
  unfolding visit
  loop [] p = ok p
  loop (pair ∷ rest) p = visit pair p >>= loop rest

  finish : Progress → SyncPlan
  finish p = record {
    to_create = p.to_create;
    to_update = p.to_update;
    to_delete = filter (λ i. not (contains p.seen i)) (keys current);
    skipped = p.skipped;
  }

  -- `SyncPlanner.plan`
  unfoldable pub plan : List DesiredPair → Result SyncPlan
  unfolding loop finish
  plan desired = do
    p ← loop desired (record { to_create = []; to_update = []; skipped = []; seen = [] })
    ok (finish p)
