-- ===== src/Indexing/Planner/Outcome.antt =====
-- The plan against an independent description of the diff.
use answer_service.Base.{
  ◌≡◌, refl, ap, Bool, true, false, not, List, [], ◌∷◌, filter, contains, distinct, arith,
  if◌then◌else◌,
}
use answer_service.Base.Dict.{keys}
use answer_service.Errors.{ok, err, duplicate_external_id}
use answer_service.Indexing.Values.{external_id_eq}
use answer_service.Indexing.Fingerprint.{Digest}
use answer_service.Indexing.Pair.{DesiredPair}
use answer_service.Indexing.Planner.{Manifest, SyncPlan, plan}
use answer_service.Indexing.Planner.Loop.{
  ids, seen_after, contains-seen_after, fresh-eq-distinct, is_new, is_changed, is_same, loop_lem,
}

pub filter-ext {ℓ} :
    {A : Type ℓ} (p q : A → Bool) (xs : List A) → ((x : A) → p x ≡ q x) → filter p xs ≡ filter q xs
filter-ext p q [] h = refl
filter-ext p q (x ∷ xs) h = rw (h x, filter-ext p q xs h)

module _ (sha256 : Digest) (current : Manifest) (desired : List DesiredPair) where
  -- The diff, each category picked out of its input on its own: creates, updates and skips from
  -- the source in its order, deletes from the catalog in its order.
  abbrev pub diff : SyncPlan
  diff = record {
    to_create = filter (is_new sha256 current) desired;
    to_update = filter (is_changed sha256 current) desired;
    to_delete = filter (λ i. not (contains (ids desired) i)) (keys current);
    skipped = ids (filter (is_same sha256 current) desired);
  }

  deletes-eq :
      filter (λ i. not (contains (seen_after [] desired) i)) (keys current)
      ≡ filter (λ i. not (contains (ids desired) i)) (keys current)
  deletes-eq = filter-ext _ _ (keys current) (λ i. ap not (contains-seen_after [] desired i))

  -- A source with no id twice is planned as the diff, and any other raises DuplicateExternalIdError.
  pub plan-eq-diff :
      plan sha256 current desired
      ≡ (if distinct (ids desired) then ok diff else err duplicate_external_id)
  unfolding plan
  plan-eq-diff = ground (
    arith,
    loop_lem sha256 current desired
        (record { to_create = []; to_update = []; skipped = []; seen = [] }),
    fresh-eq-distinct desired,
    deletes-eq,
  )

  pub plan-eq-ok :
      {p : SyncPlan}
      → plan sha256 current desired ≡ ok p
      → (distinct (ids desired) ≡ true) × (diff ≡ p)
  plan-eq-ok {p} h = go (distinct (ids desired)) (rw plan-eq-diff at h)
    where
      go :
          (b : Bool)
          → (if b then ok diff else err duplicate_external_id) ≡ ok p
          → (b ≡ true) × (diff ≡ p)
      go true e = (refl, cc)
      go false e = cc
